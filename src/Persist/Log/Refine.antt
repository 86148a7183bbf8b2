-- ===== src/Persist/Log/Refine.antt =====
-- src/persist-unix/log.c against a list of entries.
use raft_research.Prelude.{
  ℕ, ◌+◌, ◌*◌, ◌-◌, ◌^◌, ◌≤◌, ◌<◌, ◌≡◌, List, [], ◌∷◌, ◌++◌, none, some, arith, inl, inr, length,
  get_elem?, set, min, leb, ltb, sym, length-set, length-append, suc, get_elem?-set,
  get_elem?-append_one, get_elem?-some_lt, ◌==◌, Bool-cases, true, false, if◌then◌else◌, ap, refl,
  ◌∙◌, ◌⊎◌,
}
use native.Mathlib.Nat.{zero-add}
use raft_research.Prelude.Int.{ℤ, pos, add32}
use raft_research.LogEntry.{
  LogEntry, IsWord, log_entry_unpack, log_entry_pack, unpack_cong, unpack-pack,
}
use raft_research.Persist.Disk.{
  IsSound, lseek, read, host_bytes, host_word, spliced, spliced-in, spliced-out, written,
  seek_write, host_word-write_self,
}
use raft_research.Persist.Log.{
  LogContext, f_log_read, write_at, f_log_write, extend, write_length, eobnd,
}

-- The files and the length stand for the entries `es`.
pub record Stores (es : List LogEntry) (c : LogContext) : Type 0 where
  pub counted : c.length ≡ length es
  pub small : length es < 2 ^ 31
  pub sized : length es * 16 ≤ c.log_file.size
  pub at :
      (i : ℕ) (e : LogEntry)
      → get_elem? es i ≡ some e
      → log_entry_unpack c.log_file.bytes (i * 16) ≡ e
  pub meta_sized : 4 ≤ c.meta_file.size
  pub meta_word : host_word c.meta_file.bytes 0 ≡ length es

pub record IsSoundLog (c : LogContext) : Type 0 where
  pub log_sound : IsSound c.log_file
  pub meta_sound : IsSound c.meta_file

==_eq : (a b : ℕ) → (a == b) ≡ true → a ≡ b
==_eq a b h = ground arith

-- The 16 bytes of two entries do not overlap.
apart : (i j k : ℕ) → k < 16 → (j == i) ≡ false → (j * 16 + k < i * 16) ⊎ (i * 16 + 16 ≤ j * 16 + k)
apart i j k b h = ground arith

module _ {es : List LogEntry} (c : LogContext) (sound : IsSoundLog c) (h : Stores es c) where
  pub read_stored :
      (i : ℕ) (n : ℤ) (e : LogEntry)
      → get_elem? es i ≡ some e
      → i < length es
      → let (rc, out, c') = f_log_read (pos i) n c in (rc ≡ n) × (out ≡ some e) × Stores es c'
  unfolding f_log_read lseek read
  read_stored i n e found below =
      let test : leb c.length i ≡ false = ground (arith, h.counted) in
      let whole : min 16 (c.log_file.size - i * 16) ≡ 16 = omega (arith, h.sized) in
      rw (test, sound.log_sound c.log_file.calls, sound.log_sound (c.log_file.calls + 1), whole)
        (
          refl,
          ap some (unpack_cong _ _ 0 (i * 16) (λ k b. rw zero-add) ∙ h.at i e found),
          record {
            counted = h.counted;
            small = h.small;
            sized = h.sized;
            at = h.at;
            meta_sized = h.meta_sized;
            meta_word = h.meta_word;
          },
        )

  -- Reading past the end is EOBND and stores nothing.
  pub read_past : (i : ℕ) (n : ℤ) → length es ≤ i → f_log_read (pos i) n c ≡ (eobnd, none, c)
  unfolding f_log_read
  read_past i n above = let test : leb c.length i ≡ true = ground (arith, h.counted) in rw test

  -- The entries of the file after the entry at `i` is written.
  pub entry_written :
      (i : ℕ) (e : LogEntry)
      → IsWord e
      → (j : ℕ) (x : LogEntry) → (if j == i then some e else get_elem? es j) ≡ some x
      → log_entry_unpack
          (spliced c.log_file.bytes c.log_file.size (i * 16) (log_entry_pack (λ _. 0) 0 e) 16)
          (j * 16)
        ≡ x
  entry_written i e w j x q = elim (Bool-cases (j == i)) [
    | inl same ↦
        let same_entry : e ≡ x = ground arith in
        rw (==_eq j i same) (
          unpack_cong _ (log_entry_pack (λ _. 0) 0 e) (i * 16) 0 (λ k b. rw zero-add (
            spliced-in c.log_file.bytes c.log_file.size (i * 16) (log_entry_pack (λ _. 0) 0 e) 16 k
              b))
          ∙ unpack-pack (λ _. 0) 0 e w
          ∙ same_entry)
    | inr other ↦
        let old : get_elem? es j ≡ some x = (rw other at q) in
        let below : j < length es = get_elem?-some_lt es j old in
        unpack_cong _ c.log_file.bytes (j * 16) (j * 16) (λ k b.
          spliced-out c.log_file.bytes c.log_file.size (i * 16) (log_entry_pack (λ _. 0) 0 e) 16
            (j * 16 + k) (omega (arith, h.sized)) (apart i j k b other))
        ∙ h.at j x old
  ]

  -- The log file once the entry is written.
  abbrev with_entry : ℕ → LogEntry → LogContext
  with_entry i e = record c {
    log_file = written (i * 16) (log_entry_pack (λ _. 0) 0 e) 16 c.log_file;
  }

  write_at-with_entry : (i : ℕ) (e : LogEntry) → write_at i e c ≡ extend i (with_entry i e)
  unfolding write_at
  write_at-with_entry i e =
      let done = seek_write (i * 16) (log_entry_pack (λ _. 0) 0 e) 16 c.log_file sound.log_sound in
      rw (done.0, done.1)

  pub write_stored :
      (i : ℕ) (e : LogEntry)
      → IsWord e
      → i < length es
      → let (rc, c') = f_log_write (pos i) e c in (rc ≡ pos 0) × Stores (set es i e) c'
  unfolding f_log_write extend
  write_stored i e w below =
      let test : ltb c.length i ≡ false = ground (arith, h.counted) in
      let inside : (i == c.length) ≡ false = ground (arith, h.counted) in
      rw (test, write_at-with_entry, inside)
        (
          refl,
          record {
            counted = omega (arith, h.counted, length-set es i e);
            small = omega (arith, h.small, length-set es i e);
            sized = ground (arith, h.sized, length-set es i e);
            at = λ j x q. entry_written i e w j x (sym (get_elem?-set es i j e below) ∙ q);
            meta_sized = h.meta_sized;
            meta_word = omega (arith, h.meta_word, length-set es i e);
          },
        )

  pub append_stored :
      (e : LogEntry)
      → IsWord e
      → suc (length es) < 2 ^ 31
      → let (rc, c') = f_log_write (pos (length es)) e c in (rc ≡ pos 0) × Stores (es ++ e ∷ []) c'
  unfolding f_log_write extend write_length
  append_stored e w room =
      let test : ltb c.length (length es) ≡ false = ground (arith, h.counted) in
      let end : (length es == c.length) ≡ true = ground (arith, h.counted) in
      let more : add32 c.length 1 ≡ suc (length es) = omega (arith, h.counted) in
      let longer : length (es ++ e ∷ []) ≡ suc (length es) =
        omega (arith, length-append es (e ∷ [])) in
      let meta = seek_write 0 (host_bytes (add32 c.length 1)) 4 c.meta_file sound.meta_sound in
      rw (test, write_at-with_entry, end, meta.0, meta.1)
        (
          refl,
          record {
            counted = omega arith;
            small = omega arith;
            sized = ground (arith, h.sized);
            at = λ j x q. entry_written (length es) e w j x (sym (get_elem?-append_one es j e) ∙ q);
            meta_sized = ground (arith, h.meta_sized);
            meta_word = rw more (
                host_word-write_self c.meta_file.bytes c.meta_file.size 0 (suc (length es))
                  (omega arith)
                ∙ sym longer);
          },
        )
