-- ===== src/Store.antt =====
-- What src/log.h and src/persistent-fields.h promise: a log is a list of entries, and the persistent
-- fields are two words. raft.c works on these; src/persist-unix implements them on files.
pub mod Bounds
use raft_research.Prelude.{
  ℕ, ◌-◌, List, [], ◌∷◌, ◌++◌, Option, none, length, get_elem?, set, take, ◌==◌, if◌then◌else◌,
}
use raft_research.Prelude.Int.{ℤ, pos, negsuc, to_int, int32_max}
use raft_research.LogEntry.{LogEntry}

abbrev pub Log : Type 0
Log = List LogEntry

-- `log.length`, as the `int` that it is.
abbrev pub log_length : Log → ℤ
log_length log = to_int (length log)

-- `log.read`: `none` where the code is negative, and nothing is stored.
abbrev pub log_read : ℤ → Log → Option LogEntry
log_read (pos i) log = get_elem? log i
log_read (negsuc i) log = none

-- `log.write`: it replaces an entry, or appends one at the end; any other index is refused.
unfoldable pub log_write : ℤ → LogEntry → Log → Log
log_write (pos i) e log = if i == length log then log ++ e ∷ [] else set log i e
log_write (negsuc i) e log = log

-- `log.remove_last_n`: never more entries than there are.
unfoldable pub log_remove_last_n : ℤ → Log → Log
log_remove_last_n (pos n) log = take (length log - n) log
log_remove_last_n (negsuc n) log = log

-- The fields PF_CURRENT_TERM and PF_VOTED_FOR, each a uint32_t.
pub record HardState : Type 0 where
  pub current_term : ℕ
  pub voted_for : ℕ

-- PF_NO_VOTE_V, which is INT32_MAX.
abbrev pub no_vote : ℕ
no_vote = int32_max

-- `hard_state.get` gives the word as an `int`: a word from 2^31 on is a negative result, which the
-- callers that look take for an error.
abbrev pub get_term : HardState → ℤ
get_term s = to_int s.current_term

abbrev pub get_vote : HardState → ℤ
get_vote s = to_int s.voted_for
