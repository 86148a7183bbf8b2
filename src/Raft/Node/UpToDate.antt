-- ===== src/Raft/Node/UpToDate.antt =====
-- src/raft.c, `log_is_up_to_date`, and the order of the Raft paper on logs.
use raft_research.Raft.Node.Terms.{log_term-some}
use raft_research.Prelude.{
  ℕ, ◌<◌, ◌^◌, ◌≡◌, refl, ◌⊎◌, [], ◌∷◌, some, Bool, true, false, arith, length, get_elem?, ltb, leb,
  ◌==◌, if◌then◌else◌,
}
use raft_research.Prelude.Int.{pos, to_u32, ◌-ℤ◌}
use raft_research.LogEntry.{LogEntry}
use raft_research.Store.{Log, log_length}
use raft_research.Raft.Node.{raft_get_log_term, log_is_up_to_date}

abbrev pub last : LogEntry → Log → LogEntry
last e [] = e
last e (f ∷ log) = last f log

-- The term of the last entry, 0 without one.
unfoldable pub last_term : Log → ℕ
last_term [] = 0
last_term (e ∷ log) = (last e log).term

-- No entry has term 0, the term before the first election: said of the last entry.
abbrev pub IsStarted : Log → Type 0
IsStarted log = (length log ≡ 0) ⊎ (0 < last_term log)

-- Section 5.4.1 of the paper: `b` is at least as up to date as `a` when its last entry has a later
-- term, or the same one and `b` is at least as long.
abbrev pub at_least : Log → Log → Bool
at_least a b =
    if ltb (last_term a) (last_term b)
    then true
    else if last_term a == last_term b
    then leb (length a) (length b)
    else false

get_elem?-last : (e : LogEntry) (log : Log) → get_elem? (e ∷ log) (length log) ≡ some (last e log)
get_elem?-last e [] = refl
get_elem?-last e (f ∷ log) = get_elem?-last f log

log_term-nil : raft_get_log_term [] (log_length [] -ℤ pos 1) ≡ 0
unfolding raft_get_log_term
log_term-nil = refl

log_term-last :
    (log : Log)
    → length log < 2 ^ 31
    → raft_get_log_term log (log_length log -ℤ pos 1) ≡ last_term log
unfolding last_term
log_term-last [] small = log_term-nil
log_term-last (e ∷ log) small =
    let at : log_length (e ∷ log) -ℤ pos 1 ≡ pos (length log) = ground arith in
    rw at (log_term-some (e ∷ log) (length log) (last e log) small (get_elem?-last e log))

empty : (log : Log) → length log ≡ 0 → last_term log ≡ 0
unfolding last_term
empty [] h = refl
empty (e ∷ log) h = ground arith

-- `log_is_up_to_date`, on the last index and term that the owner of log `b` puts in its request,
-- accepts `b` exactly when `b` is at least as up to date as `a` by the Raft paper's rule. Both logs
-- have fewer than 2^31 entries, and a last entry, if any, has a term above 0.
pub log_is_up_to_date-at_least :
    (a b : Log)
    → length a < 2 ^ 31
    → length b < 2 ^ 31
    → IsStarted a
    → IsStarted b
    → log_is_up_to_date a
        (to_u32 (log_length b -ℤ pos 1))
        (raft_get_log_term b (log_length b -ℤ pos 1))
      ≡ at_least a b
unfolding log_is_up_to_date
log_is_up_to_date-at_least a b ha hb sa sb =
    ground (arith, log_term-last a ha, log_term-last b hb, empty a, empty b)
