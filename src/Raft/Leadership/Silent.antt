-- ===== src/Raft/Leadership/Silent.antt =====
-- src/raft.c: only the handler of RequestVote sends votes.
use raft_research.Prelude.{
  ℕ, zero, suc, ◌+◌, ◌≡◌, refl, ◌∙◌, [], ◌∷◌, false, arith, inl, inr, ◌==◌, Bool-cases, get_or,
}
use raft_research.Prelude.Int.{ℤ, pos, ◌+ℤ◌, ltb_ℤ, to_int}
use raft_research.Store.{log_length}
use raft_research.Float.{Double}
use raft_research.Io.{EventName, get_usec}
use raft_research.Transport.{Pkt, uninit_pkt}
use raft_research.Rpc.Messages.{
  AppendEntriesReq, AppendEntriesRes, RequestVoteRes, ProcReq, ProcRes, rpc_call_req_vote,
}
use raft_research.Rpc.{
  pack_append_entries_res, pack_proc_res, unpack_append_entries_res, unpack_request_vote_res,
  unpack_proc_req,
}
use raft_research.Rpc.AppendEntries.{unpack_append_entries_req}
use raft_research.Raft.Node.{RaftNode, term_word, append_log_entry}
use raft_research.Raft.Timers.{set_fault_detect_timer, set_heartbeat_timer, telemetry_log}
use raft_research.Raft.Send.{
  n_to_send, broadcast_append_entries, send_append_entries_response, append_entries_response,
  send_proc_response,
}
use raft_research.Raft.Roles.{become_follower}
use raft_research.Raft.Apply.{apply_to_state_machine}
use raft_research.Raft.Append.{
  accept_leader, record_heartbeat, follow_commit, append_entries_to, last_new_idx,
  replicate_entries, handle_append_entries_request,
}
use raft_research.Raft.Replicate.{
  commit_step, commit_rounds, advance_commit, record_match, step_back,
  handle_append_entries_response,
}
use raft_research.Raft.Vote.{count_vote, handle_request_vote_response}
use raft_research.Raft.Client.{redirect, new_entry, new_req, claim_slot, handle_proc_request}
use raft_research.Raft.Dispatch.{
  Received, packet, timed_out, failed, on_success-cases, raft_handle_rpc, leader_timeout,
  follower_timeout, raft_handle_timeout, handle_received, run_turn,
}
use raft_research.Raft.Leadership.Ballots.{
  apply-SendsNone, leader_broadcast-SendsNone, start_election-SendsNone, become_candidate-SendsNone,
  heartbeats-SendsNone, become_leader-SendsNone, become_follower-SendsNone, SendsNone,
  ballots-append,
}

append_response-SendsNone :
    (dst term new_match success : ℕ) (node : RaftNode)
    → SendsNone node (send_append_entries_response dst term new_match success node)
unfolding pack_append_entries_res
append_response-SendsNone dst term new_match success node = omega (
  arith,
  ballots-append node.io.sent
      (append_entries_response dst node.config.id term new_match success ∷ []),
)

follow_commit-SendsNone :
    (req : AppendEntriesReq) (node : RaftNode) → SendsNone node (follow_commit req node)
unfolding follow_commit
follow_commit-SendsNone req node = elim (Bool-cases (ltb_ℤ node.commit_index req.leader_commit)) [
  | inl up ↦ rw up (apply-SendsNone _)
  | inr stays ↦ rw stays refl
]

replicate-SendsNone :
    (req : AppendEntriesReq) (t : ℕ) (node : RaftNode)
    → SendsNone node (replicate_entries req t node)
unfolding replicate_entries append_entries_to
replicate-SendsNone req t node = ground (
  arith,
  follow_commit-SendsNone req (append_entries_to req node),
  append_response-SendsNone req.leader_id t 0 0 node,
  append_response-SendsNone req.leader_id t (last_new_idx req) 1
      (follow_commit req (append_entries_to req node)),
)

prepared-SendsNone :
    (req : AppendEntriesReq) (t : ℕ) (node : RaftNode)
    → SendsNone node (set_fault_detect_timer (record_heartbeat req t (accept_leader req t node)))
unfolding set_fault_detect_timer record_heartbeat accept_leader become_follower
prepared-SendsNone req t node = ground arith

append_request-SendsNone :
    (req : AppendEntriesReq) (node : RaftNode)
    → SendsNone node (handle_append_entries_request req node)
unfolding handle_append_entries_request
append_request-SendsNone req node = ground (
  arith,
  append_response-SendsNone req.leader_id (term_word node) 0 0 node,
  prepared-SendsNone req (term_word node) node,
  replicate-SendsNone req (term_word node) (
      set_fault_detect_timer
        (record_heartbeat req (term_word node) (accept_leader req (term_word node) node))),
)

commit_rounds-SendsNone :
    (t k : ℕ) (n : ℤ) (node : RaftNode) → SendsNone node (commit_rounds t k n node)
unfolding commit_rounds commit_step
commit_rounds-SendsNone t zero n node = refl
commit_rounds-SendsNone t (suc k) n node =
    commit_rounds-SendsNone t k (n +ℤ pos 1) (commit_step t n node) ∙ ground arith

advance-SendsNone :
    (t : ℕ) (node : RaftNode) → SendsNone node (apply_to_state_machine (advance_commit t node))
unfolding advance_commit
advance-SendsNone t node =
    apply-SendsNone (advance_commit t node) ∙ commit_rounds-SendsNone t _ _ node

append_result-SendsNone :
    (src : ℕ) (resp : AppendEntriesRes) (node : RaftNode)
    → SendsNone node (handle_append_entries_response src resp node)
unfolding handle_append_entries_response record_match step_back
append_result-SendsNone src resp node = ground (
  arith,
  become_follower-SendsNone resp.term src node,
  advance-SendsNone (term_word node) (record_match src resp.new_match_index node),
)

vote_result-SendsNone :
    (src : ℕ) (resp : RequestVoteRes) (node : RaftNode)
    → SendsNone node (handle_request_vote_response src resp node)
unfolding handle_request_vote_response count_vote
vote_result-SendsNone src resp node = ground (
  arith,
  become_follower-SendsNone resp.term src node,
  become_leader-SendsNone (record node { votes_received = node.votes_received + 1 }),
)

proc_result-SendsNone :
    (dst : ℕ) (resp : ProcRes) (node : RaftNode) → SendsNone node (send_proc_response dst resp node)
unfolding pack_proc_res
proc_result-SendsNone dst resp node =
    omega (
      arith,
      ballots-append node.io.sent ((pack_proc_res uninit_pkt dst node.config.id resp).1 ∷ []),
    )

append-SendsNone : (node : RaftNode) → SendsNone node (broadcast_append_entries node)
unfolding broadcast_append_entries
append-SendsNone node =
    leader_broadcast-SendsNone
      (λ i. n_to_send (log_length node.log) (to_int (get_or node.next_index i 0))) node

proc_request-SendsNone :
    (req : ProcReq) (src : ℕ) (node : RaftNode) → SendsNone node (handle_proc_request req src node)
unfolding handle_proc_request append_log_entry
proc_request-SendsNone req src node = ground (
  arith,
  append-SendsNone (record (append_log_entry (new_entry req node) node) {
    outstanding_reqs = claim_slot (new_req req node) node.outstanding_reqs;
  }),
  proc_result-SendsNone src (redirect req node) node,
)

module _ (fp : Double) where
  follower_timeout-SendsNone : (node : RaftNode) → SendsNone node (follower_timeout fp node)
  unfolding follower_timeout set_fault_detect_timer telemetry_log
  follower_timeout-SendsNone node =
      let sampled = record node { io = (get_usec node.io).1 } in
      let logged = λ (n : RaftNode). telemetry_log EventName.timeout (term_word node) 0 n in
      ground (
        arith,
        become_candidate-SendsNone (logged node),
        become_candidate-SendsNone (logged sampled),
      )

  leader_timeout-SendsNone : (node : RaftNode) → SendsNone node (leader_timeout node)
  unfolding leader_timeout telemetry_log set_heartbeat_timer
  leader_timeout-SendsNone node = ground (arith, heartbeats-SendsNone (set_heartbeat_timer node))

  rpc-SendsNone :
      (pkt : Pkt) (node : RaftNode)
      → (pkt.header.code == rpc_call_req_vote) ≡ false
      → SendsNone node (raft_handle_rpc pkt node)
  unfolding raft_handle_rpc
  rpc-SendsNone pkt node other = ground (
    arith,
    other,
    on_success-cases (SendsNone node) (unpack_append_entries_req pkt)
        (λ m. handle_append_entries_request m node) node refl
        (λ m e. append_request-SendsNone m node),
    on_success-cases (SendsNone node) (unpack_append_entries_res pkt)
        (λ m. handle_append_entries_response pkt.header.src m node) node refl
        (λ m e. append_result-SendsNone pkt.header.src m node),
    on_success-cases (SendsNone node) (unpack_request_vote_res pkt)
        (λ m. handle_request_vote_response pkt.header.src m node) node refl
        (λ m e. vote_result-SendsNone pkt.header.src m node),
    on_success-cases (SendsNone node) (unpack_proc_req pkt)
        (λ m. handle_proc_request m pkt.header.src node) node refl
        (λ m e. proc_request-SendsNone m pkt.header.src node),
  )

  timeout-SendsNone : (node : RaftNode) → SendsNone node (raft_handle_timeout fp node)
  unfolding raft_handle_timeout telemetry_log
  timeout-SendsNone node = ground (
    arith,
    follower_timeout-SendsNone node,
    leader_timeout-SendsNone node,
    start_election-SendsNone (telemetry_log EventName.timeout (term_word node) 0 node),
  )

  -- In a turn without a vote request the node sends no vote.
  abbrev pub AsksNot : Received → Type 0
  AsksNot (packet pkt) = (pkt.header.code == rpc_call_req_vote) ≡ false
  AsksNot timed_out = Unit {0}
  AsksNot failed = Unit {0}

  pub turn-SendsNone :
      (ev : Received) (node : RaftNode) → AsksNot ev → SendsNone node (run_turn fp ev node)
  unfolding run_turn handle_received
  turn-SendsNone (packet pkt) node other =
      let seen = record node { io = (get_usec node.io).1 } in
      ground (arith, rpc-SendsNone pkt seen other)
  turn-SendsNone timed_out node other =
      timeout-SendsNone (record node { io = (get_usec node.io).1 })
  turn-SendsNone failed node other =
      let seen = record node { io = (get_usec node.io).1 } in
      let looked = record node { io = (get_usec seen.io).1 } in
      ground (arith, timeout-SendsNone looked)
