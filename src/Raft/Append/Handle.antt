-- ===== src/Raft/Append/Handle.antt =====
-- src/raft.c, `handle_append_entries_request` as a whole.
use raft_research.Raft.Append.Follow.{follow_commit-SameState}
use raft_research.Store.Bounds.{log_length-small, log_length-natural}
use raft_research.Raft.Append.Loop.{append_loop-merge}
use raft_research.Prelude.{
  ℕ, ◌+◌, ◌-◌, ◌≤◌, ◌<◌, ◌^◌, ◌≡◌, refl, ap, ◌∙◌, ◌⊎◌, inl, inr, false, arith, length, take, ltb,
  ◌||◌, if◌then◌else◌, length-take, Bool-cases,
}
use raft_research.Prelude.Int.{ℤ, pos, add32, ltb_ℤ}
use raft_research.Store.{Log, get_term}
use raft_research.Rpc.Messages.{AppendEntriesReq}
use raft_research.Raft.Node.{RaftNode, term_word}
use raft_research.Raft.Timers.{set_fault_detect_timer}
use raft_research.Raft.Roles.{become_follower}
use raft_research.Raft.Append.{
  accept_leader, record_heartbeat, is_inconsistent, append_entries_to, replicate_entries,
  handle_append_entries_request,
}
use raft_research.Raft.Append.Merge.{merge}

-- The request's index fits an `int`, or is the -1 before the first entry, and the log with its
-- entries has fewer than 2^31.
pub record IsInRange (req : AppendEntriesReq) (log : Log) : Type 0 where
  pub index : (req.prev_log_idx < 2 ^ 31) ⊎ (req.prev_log_idx ≡ 2 ^ 32 - 1)
  pub few : req.n_entries ≤ 32
  pub small : length log + 32 < 2 ^ 31

-- The index of the first new entry.
abbrev pub first_new : AppendEntriesReq → ℕ
first_new req = add32 req.prev_log_idx 1

-- The log that a request of the current term or a later one leaves.
abbrev pub log_after : AppendEntriesReq → Log → Log
log_after req log =
    if is_inconsistent req log
    then log
    else merge log (first_new req) (take req.n_entries req.entries)

pub first_new-within :
    (req : AppendEntriesReq) (log : Log)
    → IsInRange req log
    → is_inconsistent req log ≡ false
    → first_new req ≤ length log
unfolding is_inconsistent
first_new-within req log r ok = ground (arith, r.index, r.small)

log-append_entries_to :
    (req : AppendEntriesReq) (node : RaftNode)
    → IsInRange req node.log
    → is_inconsistent req node.log ≡ false
    → (append_entries_to req node).log
      ≡ merge node.log (first_new req) (take req.n_entries req.entries)
unfolding append_entries_to is_inconsistent
log-append_entries_to req node r ok =
    let few : length (take req.n_entries req.entries) ≤ 32 =
      omega (arith, length-take req.n_entries req.entries, r.few) in
    let within : add32 req.prev_log_idx 1 ≤ length node.log = first_new-within req node.log r ok in
    rw (log_length-small node.log (omega (arith, r.small))) (
      ap (λ (p : Log × ℤ). p.0)
        (append_loop-merge (take req.n_entries req.entries) node.log (first_new req) within
          (omega (arith, r.small))))

abbrev pub prepared : AppendEntriesReq → ℕ → RaftNode → RaftNode
prepared req cur_term node =
    set_fault_detect_timer (record_heartbeat req cur_term (accept_leader req cur_term node))

pub prepared-log :
    (req : AppendEntriesReq) (cur_term : ℕ) (node : RaftNode)
    → (prepared req cur_term node).log ≡ node.log
unfolding set_fault_detect_timer record_heartbeat accept_leader become_follower
prepared-log req cur_term node = ground arith

log-replicate_entries :
    (req : AppendEntriesReq) (cur_term : ℕ) (node : RaftNode)
    → IsInRange req node.log
    → (replicate_entries req cur_term node).log ≡ log_after req node.log
unfolding replicate_entries
log-replicate_entries req cur_term node r = elim (Bool-cases (is_inconsistent req node.log)) [
  | inl bad ↦ rw (log_length-natural node.log (omega (arith, r.small)), bad) refl
  | inr ok ↦
      rw (log_length-natural node.log (omega (arith, r.small)), ok)
        ((follow_commit-SameState req (append_entries_to req node)).log
          ∙ log-append_entries_to req node r ok)
]

-- A request with a term behind the node's leaves the log as it is; so does one whose `prev_log_idx`
-- is past the log, or has an entry of another term there, and so does any request to a node whose
-- term is 2^31 or more. Any other leaves the log of the Raft paper's rule: entries that are there
-- stay, and from the first one whose term differs from the leader's, or from the end, the leader's
-- entries take over. `prev_log_idx` is below 2^31 or -1, there are at most 32 entries, and the log
-- has at least 33 fewer than 2^31.
pub handle_append_entries_request-log :
    (req : AppendEntriesReq) (node : RaftNode)
    → IsInRange req node.log
    → (handle_append_entries_request req node).log ≡ (
        if ltb_ℤ (get_term node.hard_state) (pos 0) || ltb req.term (term_word node)
        then node.log
        else log_after req node.log)
unfolding handle_append_entries_request
handle_append_entries_request-log req node r =
    let keeps = prepared-log req (term_word node) node in
    let after =
      log-replicate_entries req (term_word node) (prepared req (term_word node) node)
        (rw keeps r) in
    ground (arith, after, keeps)
