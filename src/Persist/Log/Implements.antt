-- ===== src/Persist/Log/Implements.antt =====
-- src/persist-unix/log.c against the operations of Store.
use raft_research.Prelude.{
  Option, ℕ, ◌-◌, ◌^◌, ◌≤◌, ◌<◌, ◌≡◌, List, [], ◌∷◌, none, some, arith, inl, inr, length, set, min,
  ltb, zero, suc, ◌==◌, Bool-cases, true, false, if◌then◌else◌, ap, refl,
}
use raft_research.Prelude.Int.{ℤ, pos, negsuc}
use raft_research.LogEntry.{LogEntry, IsWord}
use raft_research.Persist.Log.{LogContext, f_log_write, f_log_remove_last_n, eobnd}
use raft_research.Store.{log_write, log_remove_last_n}
use raft_research.Persist.Log.Refine.{Stores, IsSoundLog, write_stored, append_stored}
use raft_research.Persist.Log.Remove.{remove_stored}

-- What `read` returns: `n`, or EOBND where there is no entry.
abbrev pub read_code : ℤ → Option LogEntry → ℤ
read_code n none = eobnd
read_code n (some e) = n

-- What `write` returns: 0, or EOBND for an index that is negative or past the end.
abbrev pub write_code : ℤ → ℕ → ℤ
write_code (negsuc i) n = eobnd
write_code (pos i) n = if ltb n i then eobnd else pos 0

set-ge : (es : List LogEntry) (i : ℕ) (e : LogEntry) → length es ≤ i → set es i e ≡ es
set-ge [] i e h = refl
set-ge (x ∷ es) zero e h = ground arith
set-ge (x ∷ es) (suc i) e h = ap (λ (l : List LogEntry). x ∷ l) (set-ge es i e (omega arith))

module _ {es : List LogEntry} (c : LogContext) (sound : IsSoundLog c) (h : Stores es c) where
  -- While no call of the operating system fails, writing at index `i` returns 0, or EOBND for an index
  -- that is negative or past the end, and the files then stand for the list that `log_write` gives:
  -- with the entry replaced, added at the end, or as before. The entry has fields of type uint32_t, and
  -- the list has room for one more below 2^31.
  pub f_log_write-log_write :
      (i : ℤ) (e : LogEntry)
      → IsWord e
      → suc (length es) < 2 ^ 31
      → let (rc, c') = f_log_write i e c in
        (rc ≡ write_code i (length es)) × Stores (log_write i e es) c'
  unfolding log_write f_log_write
  f_log_write-log_write (negsuc i) e w room = (refl, h)
  f_log_write-log_write (pos i) e w room = elim (Bool-cases (i == length es)) [
    | inl end ↦
        let at : i ≡ length es = ground arith in
        let in_range : ltb (length es) (length es) ≡ false = ground arith in
        let here : (length es == length es) ≡ true = ground arith in
        let (rc, left) = append_stored c sound h e w room in rw (at, in_range, here) (rc, left)
    | inr not_end ↦ elim (Bool-cases (ltb (length es) i)) [
      | inl above ↦
          let refused : ltb c.length i ≡ true = ground (arith, h.counted) in
          rw (refused, above, not_end, set-ge es i e (ground arith)) (refl, h)
      | inr below ↦
          let (rc, left) = write_stored c sound h i e w (ground arith) in
          rw (below, not_end) (rc, left)
    ]
  ]

  -- While no call of the operating system fails, removing `n` entries returns how many there were to
  -- remove, at most `n`, and the files then stand for the list without them.
  pub f_log_remove_last_n-log_remove_last_n :
      (n : ℕ)
      → let (rc, c') = f_log_remove_last_n (pos n) c in
        (rc ≡ pos (min n (length es))) × Stores (log_remove_last_n (pos n) es) c'
  unfolding log_remove_last_n
  f_log_remove_last_n-log_remove_last_n n =
      let (rc, left) = remove_stored c sound h n in
      let same : length es - min n (length es) ≡ length es - n = omega arith in
      (rc, rw (← same) left)
