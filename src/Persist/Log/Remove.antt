-- ===== src/Persist/Log/Remove.antt =====
-- src/persist-unix/log.c, `remove_last_n`: entries go off the end of the list.
use raft_research.Prelude.{
  ℕ, ◌+◌, ◌*◌, ◌-◌, ◌≤◌, ◌<◌, ◌≡◌, List, some, arith, length, get_elem?, take, min, leb, ltb, zero,
  take-all, length-take, get_elem?-take, sym, suc, get_elem?-some_lt, ◌==◌, false, if◌then◌else◌,
  refl, ◌∙◌,
}
use native.Mathlib.Nat.{zero-min, sub-zero, min-le_right}
use raft_research.Prelude.Int.{pos, sub32}
use raft_research.LogEntry.{LogEntry, log_entry_unpack, unpack_cong}
use raft_research.Persist.Disk.{ftruncate, host_bytes, seek_write, host_word-write_self}
use raft_research.Persist.Log.{LogContext, write_length, f_log_remove_last_n, remove_some}
use raft_research.Persist.Log.Refine.{Stores, IsSoundLog}

module _ {es : List LogEntry} (c : LogContext) (sound : IsSoundLog c) (h : Stores es c) where
  -- Cutting the log file behind `m` entries keeps those entries.
  entry_kept :
      (m : ℕ)
      → m ≤ length es
      → (j : ℕ) (x : LogEntry) → get_elem? (take m es) j ≡ some x
      → log_entry_unpack (λ q. if leb c.log_file.size q then 0 else c.log_file.bytes q) (j * 16) ≡ x
  entry_kept m hm j x q =
      let below : j < m = omega (arith, get_elem?-some_lt (take m es) j q, length-take m es) in
      let old : get_elem? es j ≡ some x = sym (get_elem?-take m es j below) ∙ q in
      unpack_cong _ c.log_file.bytes (j * 16) (j * 16)
        (λ k b. let inside : j * 16 + k < c.log_file.size = omega (arith, h.sized) in ground arith)
      ∙ h.at j x old

  remove_some_stored :
      (gone : ℕ)
      → gone ≤ length es
      → let (rc, c') = remove_some gone c in
        (rc ≡ pos gone) × Stores (take (length es - gone) es) c'
  unfolding remove_some write_length ftruncate
  remove_some_stored gone le =
      let left : sub32 c.length gone ≡ length es - gone = omega (arith, h.counted, h.small) in
      let len : length (take (length es - gone) es) ≡ length es - gone =
        omega (arith, length-take (length es - gone) es) in
      let meta = seek_write 0 (host_bytes (sub32 c.length gone)) 4 c.meta_file sound.meta_sound in
      rw (meta.0, meta.1, sound.log_sound c.log_file.calls, left)
        (
          refl,
          record {
            counted = sym len;
            small = omega (arith, h.small);
            sized = omega arith;
            at = entry_kept (length es - gone) (omega arith);
            meta_sized = ground (arith, h.meta_sized);
            meta_word =
                host_word-write_self c.meta_file.bytes c.meta_file.size 0 (length es - gone)
                  (omega (arith, h.small))
                ∙ sym len;
          },
        )

  pub remove_stored :
      (n : ℕ)
      → let gone = min n (length es) in
        let (rc, c') = f_log_remove_last_n (pos n) c in
        (rc ≡ pos gone) × Stores (take (length es - gone) es) c'
  unfolding f_log_remove_last_n
  remove_stored zero = rw (zero-min, sub-zero, take-all (length es) es (omega arith)) (refl, h)
  remove_stored (suc n) =
      let gone = min (suc n) (length es) in
      let clamped : (if ltb c.length (suc n) then c.length else suc n) ≡ gone =
        ground (arith, h.counted) in
      let some_left : (suc n == 0) ≡ false = ground arith in
      rw (some_left, clamped)
        (remove_some_stored gone (omega (arith, min-le_right (suc n) (length es))))
