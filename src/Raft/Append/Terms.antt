-- ===== src/Raft/Append/Terms.antt =====
-- src/raft.c, `handle_append_entries_request`: what a log has after a request that fits it.
use raft_research.Prelude.{
  ℕ, ◌+◌, ◌≤◌, ◌<◌, ◌≡◌, ◌∙◌, some, true, false, arith, length, take, get_elem?,
}
use raft_research.Prelude.Int.{pos, ltb_ℤ}
use raft_research.LogEntry.{LogEntry}
use raft_research.Store.{get_term}
use raft_research.Rpc.Messages.{AppendEntriesReq}
use raft_research.Raft.Node.{RaftNode}
use raft_research.Raft.Append.{handle_append_entries_request}
use raft_research.Raft.Append.Merge.{merge, merge-keeps, merge-terms, merge-eq_self, HasTerms}
use raft_research.Raft.Append.Handle.{
  IsInRange, first_new, first_new-within, handle_append_entries_request-log,
}
use raft_research.Raft.Append.Reply.{accepts}

pub accepted-log :
    (req : AppendEntriesReq) (node : RaftNode)
    → IsInRange req node.log
    → ltb_ℤ (get_term node.hard_state) (pos 0) ≡ false
    → accepts req node ≡ true
    → (handle_append_entries_request req node).log
      ≡ merge node.log (first_new req) (take req.n_entries req.entries)
accepted-log req node r natural ok = ground (arith, handle_append_entries_request-log req node r)

pub accepted-within :
    (req : AppendEntriesReq) (node : RaftNode)
    → IsInRange req node.log
    → accepts req node ≡ true
    → first_new req ≤ length node.log
accepted-within req node r ok = first_new-within req node.log r (ground arith)

-- After a request that is not of an older term and fits the log, the log has, at the index of each
-- entry of the request, an entry of the same term. `prev_log_idx` is below 2^31 or -1, there are at
-- most 32 entries, the log has at least 33 fewer than 2^31, and the term of the node is below 2^31.
pub handle_append_entries_request-terms :
    (req : AppendEntriesReq) (node : RaftNode) (k : ℕ) (e : LogEntry)
    → IsInRange req node.log
    → ltb_ℤ (get_term node.hard_state) (pos 0) ≡ false
    → accepts req node ≡ true
    → get_elem? (take req.n_entries req.entries) k ≡ some e
    → (x : LogEntry) × (get_elem? (handle_append_entries_request req node).log (first_new req + k)
        ≡ some x)
      × (x.term ≡ e.term)
handle_append_entries_request-terms req node k e r natural ok found =
    rw (accepted-log req node r natural ok) (
      merge-terms (take req.n_entries req.entries) node.log (first_new req) k e
        (accepted-within req node r ok) found)

-- A request that is not of an older term and fits the log leaves the entries up to `prev_log_idx`
-- as they are. `prev_log_idx` is below 2^31 or -1, there are at most 32 entries, the log has at
-- least 33 fewer than 2^31, and the term of the node is below 2^31.
pub handle_append_entries_request-keeps :
    (req : AppendEntriesReq) (node : RaftNode) (j : ℕ)
    → IsInRange req node.log
    → ltb_ℤ (get_term node.hard_state) (pos 0) ≡ false
    → accepts req node ≡ true
    → j < first_new req
    → get_elem? (handle_append_entries_request req node).log j ≡ get_elem? node.log j
handle_append_entries_request-keeps req node j r natural ok below =
    rw (accepted-log req node r natural ok) (
      merge-keeps (take req.n_entries req.entries) node.log (first_new req) j below
        (accepted-within req node r ok))

-- A request that comes again, or late, changes nothing in a log that has the terms of its entries
-- already: entries behind them are not cut off. The request is not of an older term and fits the
-- log. `prev_log_idx` is below 2^31 or -1, there are at most 32 entries, the log has at least 33
-- fewer than 2^31, and the term of the node is below 2^31.
pub handle_append_entries_request-again :
    (req : AppendEntriesReq) (node : RaftNode)
    → IsInRange req node.log
    → ltb_ℤ (get_term node.hard_state) (pos 0) ≡ false
    → accepts req node ≡ true
    → HasTerms node.log (first_new req) (take req.n_entries req.entries)
    → (handle_append_entries_request req node).log ≡ node.log
handle_append_entries_request-again req node r natural ok there =
    accepted-log req node r natural ok
    ∙ merge-eq_self (take req.n_entries req.entries) node.log (first_new req) there
