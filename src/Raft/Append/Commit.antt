-- ===== src/Raft/Append/Commit.antt =====
-- src/raft.c, `handle_append_entries_request`: the commit index of a follower.
use raft_research.Raft.Append.Follow.{followed, follow_commit-SameState}
use raft_research.Store.Bounds.{log_length-natural}
use raft_research.Prelude.{
  ℕ, ◌^◌, ◌<◌, ◌≡◌, refl, ap, ◌∙◌, false, not, arith, length, if◌then◌else◌, Bool-cases, inl, inr,
}
use raft_research.Prelude.Int.{pos, ltb_ℤ}
use raft_research.Store.{Log, log_length, get_term}
use raft_research.Rpc.Messages.{AppendEntriesReq}
use raft_research.Raft.Node.{RaftNode, term_word}
use raft_research.Raft.Timers.{set_fault_detect_timer}
use raft_research.Raft.Roles.{become_follower}
use raft_research.Raft.Append.{
  accept_leader, record_heartbeat, is_inconsistent, append_entries_to, replicate_entries,
  handle_append_entries_request,
}
use raft_research.Raft.Append.Handle.{prepared, prepared-log}
use raft_research.Raft.Append.Reply.{accepts}

prepared-commit :
    (req : AppendEntriesReq) (cur_term : ℕ) (node : RaftNode)
    → (prepared req cur_term node).commit_index ≡ node.commit_index
unfolding set_fault_detect_timer record_heartbeat accept_leader become_follower
prepared-commit req cur_term node = ground arith

commit-replicate_entries :
    (req : AppendEntriesReq) (cur_term : ℕ) (node : RaftNode)
    → ltb_ℤ (log_length node.log) (pos 0) ≡ false
    → (replicate_entries req cur_term node).commit_index ≡ (
        if not (is_inconsistent req node.log)
        then followed req node.commit_index
        else node.commit_index)
unfolding replicate_entries append_entries_to
commit-replicate_entries req cur_term node natural =
    elim (Bool-cases (is_inconsistent req node.log)) [
      | inl bad ↦ rw (natural, bad) refl
      | inr fits ↦
          rw (natural, fits) (follow_commit-SameState req (append_entries_to req node)).commit_index
    ]

-- When a request is not of an older term and fits the log, and the leader's commit index is higher
-- than the node's, the node's commit index becomes the lower of the leader's and of the index of the
-- last new entry, even where that is lower than before. No other request changes it. The term and
-- the length of the log are below 2^31.
pub handle_append_entries_request-commit :
    (req : AppendEntriesReq) (node : RaftNode)
    → length node.log < 2 ^ 31
    → ltb_ℤ (get_term node.hard_state) (pos 0) ≡ false
    → (handle_append_entries_request req node).commit_index
      ≡ (if accepts req node then followed req node.commit_index else node.commit_index)
unfolding handle_append_entries_request
handle_append_entries_request-commit req node small natural =
    let log = prepared-log req (term_word node) node in
    let ready = prepared req (term_word node) node in
    let after =
      commit-replicate_entries req (term_word node) ready
        (ap (λ (l : Log). ltb_ℤ (log_length l) (pos 0)) log ∙ log_length-natural node.log small) in
    ground
      (arith, after, log, prepared-commit req (term_word node) node, ap (is_inconsistent req) log)
