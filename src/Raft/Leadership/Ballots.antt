-- ===== src/Raft/Leadership/Ballots.antt =====
-- src/raft.c: the responses to vote requests among what a node sends, which are its votes.
use raft_research.Prelude.{
  ℕ, zero, suc, ◌+◌, ◌≡◌, refl, ap, List, [], ◌∷◌, ◌++◌, false, arith, inl, inr, ◌==◌,
  if◌then◌else◌, Bool-cases, replicate,
}
use raft_research.Prelude.Int.{pos, ltb_ℤ, add32, to_u32, negsuc}
use raft_research.Store.{log_length}
use raft_research.Io.{EventName}
use raft_research.Transport.{Pkt, uninit_pkt}
use raft_research.Rpc.Messages.{AppendEntriesReq, rpc_resp_req_vote}
use raft_research.Rpc.{pack_request_vote_req}
use raft_research.Rpc.AppendEntries.{pack_append_entries_req}
use raft_research.Raft.Node.{RaftNode, candidate, leader, no_leader, is_leader, term_word}
use raft_research.Accrual.{telemetry_reset}
use raft_research.Raft.Timers.{
  set_fault_detect_timer, set_election_timer, set_heartbeat_timer, telemetry_log,
}
use raft_research.Raft.Send.{
  to_others, append_entries_req, leader_broadcast, broadcast_request_vote, send_heartbeats,
}
use raft_research.Raft.Roles.{become_follower, become_candidate, become_leader, start_election}
use raft_research.Raft.Apply.{apply_to_state_machine}
use raft_research.Raft.Apply.Answers.{AllResponses, apply_to_state_machine-Extends}

-- The responses to vote requests among the packets.
abbrev pub ballots : List Pkt → ℕ
ballots [] = 0
ballots (p ∷ ps) = (if p.header.code == rpc_resp_req_vote then 1 else 0) + ballots ps

pub ballots-append : (ps qs : List Pkt) → ballots (ps ++ qs) ≡ ballots ps + ballots qs
ballots-append [] qs = omega arith
ballots-append (p ∷ ps) qs = omega (arith, ballots-append ps qs)

responses-ballots : (ps : List Pkt) → AllResponses ps → ballots ps ≡ 0
responses-ballots [] all = refl
responses-ballots (p ∷ ps) (now, all) = ground (arith, now, responses-ballots ps all)

-- The node has sent no more of them.
abbrev pub SendsNone : RaftNode → RaftNode → Type 0
SendsNone a b = ballots b.io.sent ≡ ballots a.io.sent

pub apply-SendsNone : (node : RaftNode) → SendsNone node (apply_to_state_machine node)
apply-SendsNone node =
    let (ps, all, more) = apply_to_state_machine-Extends node in
    omega (arith, ap ballots more, ballots-append node.io.sent ps, responses-ballots ps all)

to_others-ballots :
    (make : ℕ → Pkt) (id n i : ℕ)
    → ((k : ℕ) → ((make k).header.code == rpc_resp_req_vote) ≡ false)
    → ballots (to_others make id n i) ≡ 0
unfolding to_others
to_others-ballots make id zero i other = refl
to_others-ballots make id (suc n) i other =
    ground (arith, other i, to_others-ballots make id n (i + 1) other)

-- Requests to the other nodes are none.
others-SendsNone :
    (make : ℕ → Pkt) (ps : List Pkt) (id n : ℕ)
    → ((k : ℕ) → ((make k).header.code == rpc_resp_req_vote) ≡ false)
    → ballots (ps ++ to_others make id n 0) ≡ ballots ps
others-SendsNone make ps id n other =
    omega (arith, ballots-append ps (to_others make id n 0), to_others-ballots make id n 0 other)

broadcast-SendsNone : (node : RaftNode) → SendsNone node (broadcast_request_vote node)
unfolding broadcast_request_vote pack_request_vote_req
broadcast-SendsNone node = elim (Bool-cases (ltb_ℤ (log_length node.log) (pos 0))) [
  | inl bad ↦ rw bad refl
  | inr good ↦
      rw good (others-SendsNone _ node.io.sent node.config.id node.config.num_nodes (λ k. refl))
]

request-code :
    (pkt : Pkt) (dst src : ℕ) (req : AppendEntriesReq)
    → ((pack_append_entries_req pkt dst src req).1.header.code == rpc_resp_req_vote) ≡ false
unfolding pack_append_entries_req
request-code pkt dst src req = ground arith

pub leader_broadcast-SendsNone :
    (count : ℕ → ℕ) (node : RaftNode) → SendsNone node (leader_broadcast count node)
unfolding leader_broadcast
leader_broadcast-SendsNone count node = elim (Bool-cases (is_leader node.role)) [
  | inr other ↦ rw other refl
  | inl leads ↦ rw leads (
      others-SendsNone _ node.io.sent node.config.id node.config.num_nodes
        (λ k. request-code uninit_pkt k node.config.id (append_entries_req node k (count k))))
]

pub start_election-SendsNone : (node : RaftNode) → SendsNone node (start_election node)
unfolding start_election set_election_timer
start_election-SendsNone node = ground (
  arith,
  broadcast-SendsNone (
      set_election_timer (record node {
        hard_state = record { current_term = add32 (term_word node) 1; voted_for = node.config.id };
        votes_received = 1;
      })),
)

pub become_candidate-SendsNone : (node : RaftNode) → SendsNone node (become_candidate node)
unfolding become_candidate telemetry_log
become_candidate-SendsNone node = start_election-SendsNone (record node {
  role = candidate;
  leader_id = no_leader;
  votes_received = 0;
  heartbeat_telemetry = telemetry_reset node.heartbeat_telemetry;
})

pub heartbeats-SendsNone : (node : RaftNode) → SendsNone node (send_heartbeats node)
unfolding send_heartbeats
heartbeats-SendsNone node = leader_broadcast-SendsNone (λ _. 0) node

pub become_leader-SendsNone : (node : RaftNode) → SendsNone node (become_leader node)
unfolding become_leader telemetry_log set_heartbeat_timer
become_leader-SendsNone node =
    let logged = telemetry_log EventName.became_leader (term_word node) 0 node in
    let size = node.config.num_nodes in
    heartbeats-SendsNone (
      set_heartbeat_timer (record logged {
        role = leader;
        leader_id = no_leader;
        heartbeat_count = 0;
        next_index = replicate size (to_u32 (log_length node.log));
        match_index = replicate size (negsuc 0);
        heartbeat_telemetry = telemetry_reset node.heartbeat_telemetry;
      }))

pub become_follower-SendsNone :
    (term id : ℕ) (node : RaftNode) → SendsNone node (become_follower term id node)
unfolding become_follower set_fault_detect_timer telemetry_log
become_follower-SendsNone term id node = ground arith
