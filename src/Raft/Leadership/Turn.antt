-- ===== src/Raft/Leadership/Turn.antt =====
-- src/raft.c: what a turn of the main loop does to the votes that a candidate has counted.
use raft_research.Store.Bounds.{natural}
use raft_research.Prelude.{
  ℕ, ◌<◌, ◌^◌, ◌≡◌, refl, inl, inr, Option, none, some, true, false, arith, ◌==◌, if◌then◌else◌,
  Bool-cases,
}
use raft_research.Float.{Double}
use raft_research.Io.{timeout, get_usec}
use raft_research.Transport.{Pkt}
use raft_research.Rpc.Messages.{RequestVoteRes, rpc_resp_req_vote}
use raft_research.Rpc.{
  unpack_append_entries_res, unpack_request_vote_req, unpack_request_vote_res, unpack_proc_req,
  unpack_proc_res,
}
use raft_research.Rpc.AppendEntries.{unpack_append_entries_req}
use raft_research.Raft.Node.{RaftNode, is_candidate, term_word}
use raft_research.Raft.Timers.{
  set_fault_detect_timer, set_election_timer, set_heartbeat_timer, telemetry_log,
}
use raft_research.Raft.Send.{send_heartbeats, broadcast_request_vote}
use raft_research.Raft.Roles.{become_candidate, start_election}
use raft_research.Raft.Append.{handle_append_entries_request}
use raft_research.Raft.Replicate.{handle_append_entries_response}
use raft_research.Raft.Vote.{handle_request_vote_request, handle_request_vote_response}
use raft_research.Raft.Client.{handle_proc_request}
use raft_research.Raft.Dispatch.{
  Received, packet, timed_out, failed, on_success, on_success-cases, raft_handle_rpc,
  leader_timeout, follower_timeout, raft_handle_timeout, handle_received, run_turn,
}
use raft_research.Raft.Leadership.{Counts}
use raft_research.Raft.Leadership.Count.{
  Tallies, Counts-refl, of_Counts, granted_in, response-Tallies, append_entries_request-Counts,
  append_entries_response-Counts, request_vote_request-Counts, proc_request-Counts,
}

abbrev pub grants_in : ℕ → Option RequestVoteRes → ℕ
grants_in term none = 0
grants_in term (some resp) = granted_in term resp

-- 1 for a packet with a vote of the term, otherwise 0.
abbrev pub vote_in : Pkt → ℕ → ℕ
vote_in pkt term =
    if pkt.header.code == rpc_resp_req_vote then grants_in term (unpack_request_vote_res pkt) else 0

abbrev pub vote_of : Received → ℕ → ℕ
vote_of (packet pkt) term = vote_in pkt term
vote_of _ term = 0

on_success-Tallies :
    (o : Option RequestVoteRes) (src_id : ℕ) (node : RaftNode)
    → node.hard_state.current_term < 2 ^ 31
    → Tallies
        (λ term. grants_in term o)
        node
        (on_success o (λ m. handle_request_vote_response src_id m node) node)
on_success-Tallies none src_id node small = of_Counts _ node node (Counts-refl node)
on_success-Tallies (some m) src_id node small = response-Tallies src_id m node small

other-Counts :
    (pkt : Pkt) (node : RaftNode)
    → node.hard_state.current_term < 2 ^ 31
    → (pkt.header.code == rpc_resp_req_vote) ≡ false
    → Counts node (raft_handle_rpc pkt node)
unfolding raft_handle_rpc
other-Counts pkt node small other = ground (
  arith,
  other,
  Counts-refl node,
  on_success-cases (Counts node) (unpack_append_entries_req pkt)
      (λ m. handle_append_entries_request m node) node (Counts-refl node)
      (λ m e. append_entries_request-Counts m node small),
  on_success-cases (Counts node) (unpack_append_entries_res pkt)
      (λ m. handle_append_entries_response pkt.header.src m node) node (Counts-refl node)
      (λ m e. append_entries_response-Counts pkt.header.src m node small),
  on_success-cases (Counts node) (unpack_request_vote_req pkt)
      (λ m. handle_request_vote_request pkt.header.src m node) node (Counts-refl node)
      (λ m e. request_vote_request-Counts pkt.header.src m node small),
  on_success-cases (Counts node) (unpack_proc_req pkt)
      (λ m. handle_proc_request m pkt.header.src node) node (Counts-refl node)
      (λ m e. proc_request-Counts m pkt.header.src node),
  on_success-cases (Counts node) (unpack_proc_res pkt) (λ m. node) node (Counts-refl node)
      (λ m e. Counts-refl node),
)

raft_handle_rpc-Tallies :
    (pkt : Pkt) (node : RaftNode)
    → node.hard_state.current_term < 2 ^ 31
    → Tallies (vote_in pkt) node (raft_handle_rpc pkt node)
unfolding raft_handle_rpc
raft_handle_rpc-Tallies pkt node small = elim (Bool-cases (pkt.header.code == rpc_resp_req_vote)) [
  | inl vote ↦
      ground
        (arith, vote, on_success-Tallies (unpack_request_vote_res pkt) pkt.header.src node small)
  | inr other ↦
      of_Counts (vote_in pkt) node (raft_handle_rpc pkt node) (other-Counts pkt node small other)
]

-- Whoever has just stood for election has one vote.
record StandsAnew (b : RaftNode) : Type 0 where
  candidate : is_candidate b.role ≡ true
  votes : b.votes_received ≡ 1

start_election-StandsAnew :
    (node : RaftNode)
    → node.hard_state.current_term < 2 ^ 31
    → is_candidate node.role ≡ true
    → StandsAnew (start_election node)
unfolding start_election set_election_timer broadcast_request_vote
start_election-StandsAnew node small stands =
    let t = natural node.hard_state.current_term small in
    record { candidate = rw t stands; votes = rw t refl }

become_candidate-StandsAnew :
    (node : RaftNode) → node.hard_state.current_term < 2 ^ 31 → StandsAnew (become_candidate node)
unfolding become_candidate start_election set_election_timer broadcast_request_vote telemetry_log
become_candidate-StandsAnew node small =
    let t = natural node.hard_state.current_term small in
    record { candidate = rw t refl; votes = rw t refl }

of_StandsAnew : (granted : ℕ → ℕ) (a b : RaftNode) → StandsAnew b → Tallies granted a b
of_StandsAnew granted a b s = record {
  candidate = λ c. inr s.votes;
  leader = λ l. absurd (ground (arith, s.candidate, l));
}

leader_timeout-Counts : (node : RaftNode) → Counts node (leader_timeout node)
unfolding leader_timeout set_heartbeat_timer send_heartbeats telemetry_log
leader_timeout-Counts node = ground arith

fault_timer-Counts : (node : RaftNode) → Counts node (set_fault_detect_timer node)
unfolding set_fault_detect_timer
fault_timer-Counts node = ground arith

module _ (fp : Double) (granted : ℕ → ℕ) where
  follower_timeout-Tallies :
      (node : RaftNode)
      → node.hard_state.current_term < 2 ^ 31
      → Tallies granted node (follower_timeout fp node)
  unfolding follower_timeout telemetry_log
  follower_timeout-Tallies node small =
      let sampled = record node { io = (get_usec node.io).1 } in
      let logged = λ (n : RaftNode). telemetry_log timeout (term_word node) 0 n in
      ground (
        arith,
        of_StandsAnew granted node _ (become_candidate-StandsAnew (logged node) small),
        of_StandsAnew granted node _ (become_candidate-StandsAnew (logged sampled) small),
        of_Counts granted node node (Counts-refl node),
        of_Counts granted sampled _ (fault_timer-Counts sampled),
      )

  timeout-Tallies :
      (node : RaftNode)
      → node.hard_state.current_term < 2 ^ 31
      → Tallies granted node (raft_handle_timeout fp node)
  unfolding raft_handle_timeout telemetry_log
  timeout-Tallies node small =
      let logged = telemetry_log timeout (term_word node) 0 node in
      ground (
        arith,
        follower_timeout-Tallies node small,
        of_Counts granted node _ (leader_timeout-Counts node),
        λ (stands : is_candidate node.role ≡ true).
            of_StandsAnew granted node _ (start_election-StandsAnew logged small stands),
      )

pub turn-Tallies :
    (fp : Double) (ev : Received) (node : RaftNode)
    → node.hard_state.current_term < 2 ^ 31
    → Tallies (vote_of ev) node (run_turn fp ev node)
unfolding run_turn handle_received
turn-Tallies fp (packet pkt) node small =
    let seen = record node { io = (get_usec node.io).1 } in
    ground (
      arith,
      raft_handle_rpc-Tallies pkt seen small,
      of_Counts (vote_in pkt) seen seen (Counts-refl seen),
    )
turn-Tallies fp timed_out node small =
    let seen = record node { io = (get_usec node.io).1 } in
    ground (arith, timeout-Tallies fp (vote_of timed_out) seen small)
turn-Tallies fp failed node small =
    let seen = record node { io = (get_usec node.io).1 } in
    let looked = record seen { io = (get_usec seen.io).1 } in
    ground (
      arith,
      timeout-Tallies fp (vote_of failed) looked small,
      of_Counts (vote_of failed) looked looked (Counts-refl looked),
    )
