-- ===== src/Raft/Append/Loop.antt =====
-- src/raft.c, the loop of `handle_append_entries_request` against the merge rule.
use raft_research.Prelude.{
  ℕ, suc, ◌+◌, ◌-◌, ◌≤◌, ◌<◌, ◌^◌, ◌≡◌, refl, ap, List, [], ◌∷◌, ◌++◌, some, true, false, arith,
  length, take, get_elem?, ltb, ◌==◌, length-append, length-take, get_elem?-some_lt,
  get_elem?-none_ge, take-all, length-take, Bool-cases, Option-cases, inl, inr,
}
use mathlib.Core.List.{append-nil, append_assoc}
use raft_research.Prelude.Int.{pos, add32, ◌+ℤ◌, ◌-ℤ◌, to_int, to_u32}
use raft_research.LogEntry.{LogEntry}
use raft_research.Store.{Log, log_write, log_remove_last_n}
use raft_research.Raft.Append.{append_step, append_loop}
use raft_research.Raft.Append.Merge.{merge}
use raft_research.Raft.Node.Terms.{log_term-some}

-- Writing at the end of the log.
pub write_end :
    (log : Log) (k : ℕ) (e : LogEntry) → k ≡ length log → log_write (pos k) e log ≡ log ++ e ∷ []
unfolding log_write
write_end log k e h = ground arith

length-append_one : (log : Log) (e : LogEntry) → length (log ++ e ∷ []) ≡ suc (length log)
length-append_one log e = omega (arith, length-append log (e ∷ []))

append_end :
    (log : Log) (e : LogEntry)
    → length log < 2 ^ 31
    → append_step (length log) e (log, pos (length log))
      ≡ (log ++ e ∷ [], pos (length (log ++ e ∷ [])))
unfolding append_step
append_end log e small =
    let test : ltb (length log) (to_u32 (pos (length log))) ≡ false = ground arith in
    let at : to_int (length log) ≡ pos (length log) = ground arith in
    let more : pos (length log) +ℤ pos 1 ≡ pos (suc (length log)) = ground arith in
    rw (test, at, write_end log (length log) e refl, more, length-append_one log e)

append_rest :
    (es : List LogEntry) (log : Log)
    → length log + length es < 2 ^ 31
    → append_loop (length log) es (log, pos (length log)) ≡ (log ++ es, pos (length (log ++ es)))
unfolding append_loop
append_rest [] log small = rw append-nil
append_rest (e ∷ es) log small =
    let next : add32 (length log) 1 ≡ length (log ++ e ∷ []) =
      omega (arith, length-append_one log e) in
    rw
      (
        append_end log e (omega arith),
        next,
        append_rest es (log ++ e ∷ []) (omega (arith, length-append_one log e)),
      )
      (ap (λ (l : Log). (l, pos (length l))) (append_assoc log (e ∷ []) es))

-- A conflicting entry goes, with all behind it.
append_conflict :
    (log : Log) (i : ℕ) (e x : LogEntry)
    → length log < 2 ^ 31
    → get_elem? log i ≡ some x
    → (x.term == e.term) ≡ false
    → append_step i e (log, pos (length log))
      ≡ (take i log ++ e ∷ [], pos (length (take i log ++ e ∷ [])))
unfolding append_step log_remove_last_n
append_conflict log i e x small found other =
    let below = get_elem?-some_lt log i found in
    let test : ltb i (to_u32 (pos (length log))) ≡ true = ground arith in
    let at : to_int i ≡ pos i = ground arith in
    let gone : pos (length log) -ℤ pos i ≡ pos (length log - i) = ground arith in
    let kept : length log - (length log - i) ≡ i = omega arith in
    let cut : i ≡ length (take i log) = omega (arith, length-take i log) in
    let more : pos i +ℤ pos 1 ≡ pos (suc i) = ground arith in
    let size : length (take i log ++ e ∷ []) ≡ suc i =
      omega (arith, length-append_one (take i log) e) in
    rw (
      test,
      at,
      log_term-some log i x small found,
      other,
      gone,
      kept,
      write_end (take i log) i e cut,
      more,
      size,
    )

append_same :
    (log : Log) (i : ℕ) (e x : LogEntry)
    → length log < 2 ^ 31
    → get_elem? log i ≡ some x
    → (x.term == e.term) ≡ true
    → append_step i e (log, pos (length log)) ≡ (log, pos (length log))
unfolding append_step
append_same log i e x small found same =
    let below = get_elem?-some_lt log i found in
    let test : ltb i (to_u32 (pos (length log))) ≡ true = ground arith in
    let at : to_int i ≡ pos i = ground arith in
    rw (test, at, log_term-some log i x small found, same)

take_end : (log : Log) (i : ℕ) → i ≡ length log → take i log ≡ log
take_end log i h = take-all i log (omega arith)

-- On a log of fewer than 2^31 entries, from an index within it or at its end on, the loop leaves the
-- log of the rule, and `log_len` is its length.
pub append_loop-merge :
    (es : List LogEntry) (log : Log) (i : ℕ)
    → i ≤ length log
    → length log + length es < 2 ^ 31
    → append_loop i es (log, pos (length log)) ≡ (merge log i es, pos (length (merge log i es)))
unfolding append_loop merge
append_loop-merge [] log i hi small = refl
append_loop-merge (e ∷ es) log i hi small = elim (Option-cases (get_elem? log i)) [
  | inl end ↦
      let last : i ≡ length log = omega (arith, get_elem?-none_ge log i end) in
      rw (end, take_end log i last, last) (append_rest (e ∷ es) log small)
  | inr (x, found) ↦ elim (Bool-cases (x.term == e.term)) [
    | inl same ↦
        let next : add32 i 1 ≡ suc i = omega (arith, get_elem?-some_lt log i found) in
        rw (found, append_same log i e x (omega arith) found same, same, next)
          (append_loop-merge es log (suc i) (get_elem?-some_lt log i found) (omega arith))
    | inr other ↦
        let next : add32 i 1 ≡ length (take i log ++ e ∷ []) =
          omega (arith, length-append_one (take i log) e, length-take i log) in
        rw
          (
            found,
            append_conflict log i e x (omega arith) found other,
            other,
            next,
            append_rest es (take i log ++ e ∷ [])
                (omega (arith, length-append_one (take i log) e, length-take i log)),
          )
          (ap (λ (l : Log). (l, pos (length l))) (append_assoc (take i log) (e ∷ []) es))
  ]
]
