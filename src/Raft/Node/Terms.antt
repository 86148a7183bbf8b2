-- ===== src/Raft/Node/Terms.antt =====
-- src/raft.c, `raft_get_log_term` on an entry that is there.
use raft_research.Prelude.{ℕ, ◌<◌, ◌^◌, ◌≡◌, some, arith, length, get_elem?, get_elem?-some_lt}
use raft_research.Prelude.Int.{pos}
use raft_research.LogEntry.{LogEntry}
use raft_research.Store.{Log}
use raft_research.Raft.Node.{raft_get_log_term}

-- The term of an entry that is there.
pub log_term-some :
    (log : Log) (i : ℕ) (x : LogEntry)
    → length log < 2 ^ 31
    → get_elem? log i ≡ some x
    → raft_get_log_term log (pos i) ≡ x.term
unfolding raft_get_log_term
log_term-some log i x small e = let below = get_elem?-some_lt log i e in rw e (ground arith)
