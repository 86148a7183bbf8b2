-- ===== src/Store/Bounds.antt =====
-- The results of the log and of the persistent fields below 2^31, where the code takes none of them
-- for an error.
use raft_research.Prelude.{ℕ, ◌^◌, ◌<◌, ◌≡◌, false, arith, length}
use raft_research.Prelude.Int.{pos, ltb_ℤ, to_int, to_u32}
use raft_research.Store.{Log, log_length}

-- The test of the code for a failed read.
pub natural : (w : ℕ) → w < 2 ^ 31 → ltb_ℤ (to_int w) (pos 0) ≡ false
natural w h = ground arith

pub word : (w : ℕ) → w < 2 ^ 31 → to_u32 (to_int w) ≡ w
word w h = ground arith

pub log_length-small : (log : Log) → length log < 2 ^ 31 → log_length log ≡ pos (length log)
log_length-small log h = ground arith

pub log_length-natural : (log : Log) → length log < 2 ^ 31 → ltb_ℤ (log_length log) (pos 0) ≡ false
log_length-natural log h = rw (log_length-small log h) (ground arith)
