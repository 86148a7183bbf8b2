-- ===== src/Raft/Leadership/Own.antt =====
-- src/raft.c: the vote of a candidate or leader, which is its own.
use raft_research.Store.Bounds.{natural}
use raft_research.Prelude.{
  ◌<◌, ◌^◌, ◌≡◌, refl, sym, ap, ◌∙◌, inl, inr, List, [], ◌∷◌, false, ◌&&◌, arith, Bool-cases,
}
use raft_research.Float.{Double}
use raft_research.Io.{timeout, get_usec}
use raft_research.Transport.{Pkt}
use raft_research.Store.{no_vote}
use raft_research.Rpc.{
  unpack_append_entries_res, unpack_request_vote_req, unpack_request_vote_res, unpack_proc_req,
  unpack_proc_res,
}
use raft_research.Rpc.AppendEntries.{unpack_append_entries_req}
use raft_research.Raft.Node.{RaftNode, is_follower, term_word}
use raft_research.Raft.Timers.{
  set_fault_detect_timer, set_election_timer, set_heartbeat_timer, telemetry_log,
}
use raft_research.Raft.Send.{send_heartbeats, broadcast_request_vote}
use raft_research.Raft.Roles.{become_candidate, start_election}
use raft_research.Raft.Append.{handle_append_entries_request}
use raft_research.Raft.Replicate.{handle_append_entries_response}
use raft_research.Raft.Vote.{handle_request_vote_request, handle_request_vote_response}
use raft_research.Raft.Client.{handle_proc_request}
use raft_research.Raft.Dispatch.{
  Received, packet, timed_out, failed, on_success-cases, raft_handle_rpc, leader_timeout,
  follower_timeout, raft_handle_timeout, handle_received, run_turn, raft_run, is_none,
}
use raft_research.Raft.Progress.Loop.{AllBytes, turn-Progress, raft_run-Progress}
use raft_research.Raft.Leadership.Hold.{
  Holds, Holds-refl, HasOwn, append_entries_request-Holds, append_entries_response-Holds,
  proc_request-Holds, response-Holds, request_vote_request-Holds,
}

raft_handle_rpc-Holds :
    (pkt : Pkt) (node : RaftNode)
    → node.hard_state.current_term < 2 ^ 31
    → HasOwn node
    → Holds node (raft_handle_rpc pkt node)
unfolding raft_handle_rpc
raft_handle_rpc-Holds pkt node small own = ground (
  arith,
  Holds-refl node,
  on_success-cases (Holds node) (unpack_append_entries_req pkt)
      (λ m. handle_append_entries_request m node) node (Holds-refl node)
      (λ m e. append_entries_request-Holds m node small),
  on_success-cases (Holds node) (unpack_append_entries_res pkt)
      (λ m. handle_append_entries_response pkt.header.src m node) node (Holds-refl node)
      (λ m e. append_entries_response-Holds pkt.header.src m node small),
  on_success-cases (Holds node) (unpack_request_vote_req pkt)
      (λ m. handle_request_vote_request pkt.header.src m node) node (Holds-refl node)
      (λ m e. request_vote_request-Holds pkt.header.src m node small own),
  on_success-cases (Holds node) (unpack_request_vote_res pkt)
      (λ m. handle_request_vote_response pkt.header.src m node) node (Holds-refl node)
      (λ m e. response-Holds pkt.header.src m node small),
  on_success-cases (Holds node) (unpack_proc_req pkt)
      (λ m. handle_proc_request m pkt.header.src node) node (Holds-refl node)
      (λ m e. proc_request-Holds m pkt.header.src node),
  on_success-cases (Holds node) (unpack_proc_res pkt) (λ m. node) node (Holds-refl node)
      (λ m e. Holds-refl node),
)

start_election-Holds :
    (node : RaftNode) → node.hard_state.current_term < 2 ^ 31 → Holds node (start_election node)
unfolding start_election set_election_timer broadcast_request_vote
start_election-Holds node small =
    let t = natural node.hard_state.current_term small in record { up = rw t (λ u. inr refl) }

become_candidate-Holds :
    (node : RaftNode) → node.hard_state.current_term < 2 ^ 31 → Holds node (become_candidate node)
unfolding become_candidate start_election set_election_timer broadcast_request_vote telemetry_log
become_candidate-Holds node small =
    let t = natural node.hard_state.current_term small in record { up = rw t (λ u. inr refl) }

leader_timeout-Holds : (node : RaftNode) → Holds node (leader_timeout node)
unfolding leader_timeout set_heartbeat_timer send_heartbeats telemetry_log
leader_timeout-Holds node = ground arith

fault_timer-Holds : (node : RaftNode) → Holds node (set_fault_detect_timer node)
unfolding set_fault_detect_timer
fault_timer-Holds node = ground arith

module _ (fp : Double) where
  follower_timeout-Holds :
      (node : RaftNode)
      → node.hard_state.current_term < 2 ^ 31
      → Holds node (follower_timeout fp node)
  unfolding follower_timeout telemetry_log
  follower_timeout-Holds node small =
      let sampled = record node { io = (get_usec node.io).1 } in
      let logged = λ (n : RaftNode). telemetry_log timeout (term_word node) 0 n in
      ground (
        arith,
        become_candidate-Holds (logged node) small,
        become_candidate-Holds (logged sampled) small,
        Holds-refl node,
        fault_timer-Holds sampled,
      )

  timeout-Holds :
      (node : RaftNode)
      → node.hard_state.current_term < 2 ^ 31
      → Holds node (raft_handle_timeout fp node)
  unfolding raft_handle_timeout telemetry_log
  timeout-Holds node small =
      let logged = telemetry_log timeout (term_word node) 0 node in
      ground (
        arith,
        follower_timeout-Holds node small,
        leader_timeout-Holds node,
        start_election-Holds logged small,
      )

  turn-Holds :
      (ev : Received) (node : RaftNode)
      → node.hard_state.current_term < 2 ^ 31
      → HasOwn node
      → Holds node (run_turn fp ev node)
  unfolding run_turn handle_received
  turn-Holds (packet pkt) node small own =
      let seen = record node { io = (get_usec node.io).1 } in
      ground (arith, raft_handle_rpc-Holds pkt seen small own, Holds-refl seen)
  turn-Holds timed_out node small own =
      let seen = record node { io = (get_usec node.io).1 } in
      ground (arith, timeout-Holds seen small)
  turn-Holds failed node small own =
      let seen = record node { io = (get_usec node.io).1 } in
      let looked = record seen { io = (get_usec seen.io).1 } in
      ground (arith, timeout-Holds looked small, Holds-refl looked)

  -- A candidate or leader has voted for itself.
  abbrev pub VotesForItself : RaftNode → Type 0
  VotesForItself node = is_follower node.role ≡ false → node.hard_state.voted_for ≡ node.config.id

  pub raft_run-VotesForItself :
      (evs : List Received) (node : RaftNode)
      → AllBytes fp evs
      → (raft_run fp evs node).hard_state.current_term < 2 ^ 31
      → node.hard_state.current_term < 2 ^ 32
      → node.config.id < no_vote
      → VotesForItself node
      → VotesForItself (raft_run fp evs node)
  unfolding raft_run
  raft_run-VotesForItself [] node bytes small fits id_fits own = own
  raft_run-VotesForItself (ev ∷ evs) node bytes small fits id_fits own =
      elim (Bool-cases (node.running && is_none node.io.exit_status)) [
        | inr ends ↦ rw ends own
        | inl goes ↦
            let after = run_turn fp ev node in
            let end : (raft_run fp evs after).hard_state.current_term < 2 ^ 31 =
              ground (arith, goes, small) in
            let turn = turn-Progress fp ev node bytes.0 fits in
            let fits' : after.hard_state.current_term < 2 ^ 32 =
              omega (arith, turn.term_fits, fits) in
            let rest = raft_run-Progress fp evs after bytes.1 fits' in
            let same : after.config.id ≡ node.config.id = ap (λ c. c.id) turn.same_config in
            let has_own : HasOwn node =
              λ u. (omega (arith, own u, id_fits), ground (arith, own u, id_fits)) in
            let step =
              turn-Holds ev node (omega (arith, turn.term_le, rest.term_le, end)) has_own in
            let own' : VotesForItself after = λ u. elim (step.up u) [
              | inl (was, kept) ↦ kept ∙ own was ∙ sym same
              | inr anew ↦ anew ∙ sym same
            ] in
            rw goes (
              raft_run-VotesForItself evs after bytes.1 end fits' (omega (arith, same, id_fits))
                own')
      ]
