-- ===== src/Persist/Log/Restart.antt =====
-- src/persist-unix/log.c: what a node finds in its log files when it starts again.
use raft_research.Prelude.{
  ℕ, suc, ◌+◌, ◌*◌, ◌-◌, ◌<◌, ◌≤◌, ◌^◌, ◌≡◌, refl, ap, sym, ◌∙◌, ◌⊎◌, inl, inr, List, [], ◌∷◌, ◌++◌,
  some, arith, get_elem?, get_elem?-some_lt, get_elem?-append_one, length-append, if◌then◌else◌,
  length, min, true, false, Bool-cases, ltb, ◌==◌,
}
use raft_research.Prelude.Int.{ℤ, pos, negsuc, add32}
use raft_research.Memory.{Bytes}
use raft_research.LogEntry.{LogEntry, IsWord, log_entry_pack, log_entry_unpack}
use raft_research.Persist.Disk.{
  Disk, IsSound, lseek, read, write, host_bytes, host_word, spliced, written, host_word-write_self,
}
use raft_research.Persist.Log.{LogContext, log_init, f_log_write, write_at, extend, write_length}
use raft_research.Persist.Log.Refine.{Stores, entry_written}

-- Opening the files of a log that stands for `es`, while no call fails, gives a log that stands for
-- `es`, whatever memory held before.
pub log_init_recovers :
    (garbage : ℕ) {es : List LogEntry} (c : LogContext)
    → IsSound c.meta_file
    → Stores es c
    → Stores es (log_init garbage c.log_file c.meta_file)
unfolding log_init lseek read host_word
log_init_recovers garbage {es} c sound h =
    let there : ltb c.meta_file.size 4 ≡ false = ground (arith, h.meta_sized) in
    let whole : min 4 (c.meta_file.size - 0) ≡ 4 = omega (arith, h.meta_sized) in
    rw (there, sound c.meta_file.calls, sound (c.meta_file.calls + 1), whole)
      (record {
        counted = h.meta_word;
        small = h.small;
        sized = h.sized;
        at = h.at;
        meta_sized = h.meta_sized;
        meta_word = h.meta_word;
      })

-- The file when the node runs again: what it holds, with no call that fails.
abbrev pub healed : Disk → Disk
healed d = record d { fails = λ _. false }

-- The log of a node that starts again on the files of `c`.
abbrev pub restarted : ℕ → LogContext → LogContext
restarted garbage c = log_init garbage (healed c.log_file) (healed c.meta_file)

-- The append is done and returns 0, or has failed; the log of the next start says so.
abbrev pub AllOrNothing : ℕ → List LogEntry → LogEntry → ℤ × LogContext → Type 0
AllOrNothing garbage es e (rc, c) =
    ((rc ≡ pos 0) × Stores (es ++ e ∷ []) (restarted garbage c))
    ⊎ ((rc ≡ negsuc 0) × Stores es (restarted garbage c))

module _ (garbage : ℕ) {es : List LogEntry} (c : LogContext) (h : Stores es c) where
  -- The files of `c`, or files with the same contents.
  start_again :
      {fs : List LogEntry} (l m : Disk)
      → Stores fs (record { log_file = l; meta_file = m; length = length fs })
      → Stores fs (log_init garbage (healed l) (healed m))
  start_again {fs} l m s =
      log_init_recovers garbage
        (record { log_file = healed l; meta_file = healed m; length = length fs }) (λ k. refl)
        (record {
          counted = refl;
          small = s.small;
          sized = s.sized;
          at = s.at;
          meta_sized = s.meta_sized;
          meta_word = s.meta_word;
        })

  -- Where neither file has changed.
  untouched :
      (l m : Disk)
      → l.bytes ≡ c.log_file.bytes
      → l.size ≡ c.log_file.size
      → m.bytes ≡ c.meta_file.bytes
      → m.size ≡ c.meta_file.size
      → Stores es (log_init garbage (healed l) (healed m))
  untouched l m lb ls mb ms = start_again l m (record {
    counted = refl;
    small = h.small;
    sized = omega (arith, h.sized, ls);
    at = λ i e q. ap (λ (b : Bytes). log_entry_unpack b (i * 16)) lb ∙ h.at i e q;
    meta_sized = omega (arith, h.meta_sized, ms);
    meta_word = ap (λ (b : Bytes). host_word b 0) mb ∙ h.meta_word;
  })

  module _ (e : LogEntry) (w : IsWord e) where
    abbrev entry_bytes : Bytes
    entry_bytes =
        spliced c.log_file.bytes c.log_file.size (length es * 16) (log_entry_pack (λ _. 0) 0 e) 16

    -- The entries of the log file once the entry is in it.
    entry_at :
        (j : ℕ) (x : LogEntry)
        → (if j == length es then some e else get_elem? es j) ≡ some x
        → log_entry_unpack entry_bytes (j * 16) ≡ x
    entry_at =
        entry_written
          (record {
            log_file = healed c.log_file;
            meta_file = healed c.meta_file;
            length = length es;
          })
          (record { log_sound = λ k. refl; meta_sound = λ k. refl })
          (record {
            counted = refl;
            small = h.small;
            sized = h.sized;
            at = h.at;
            meta_sized = h.meta_sized;
            meta_word = h.meta_word;
          })
          (length es) e w

    old_at :
        (j : ℕ) (x : LogEntry)
        → get_elem? es j ≡ some x
        → (if j == length es then some e else get_elem? es j) ≡ some x
    old_at j x q = let below : j < length es = get_elem?-some_lt es j q in ground arith

    -- Where the entry is in the log file and the length is not yet in the other.
    entry_only :
        (l m : Disk)
        → l.bytes ≡ entry_bytes
        → c.log_file.size ≤ l.size
        → m.bytes ≡ c.meta_file.bytes
        → m.size ≡ c.meta_file.size
        → Stores es (log_init garbage (healed l) (healed m))
    entry_only l m lb ls mb ms = start_again l m (record {
      counted = refl;
      small = h.small;
      sized = omega (arith, h.sized, ls);
      at =
          λ j x q. ap (λ (b : Bytes). log_entry_unpack b (j * 16)) lb ∙ entry_at j x (old_at j x q);
      meta_sized = omega (arith, h.meta_sized, ms);
      meta_word = ap (λ (b : Bytes). host_word b 0) mb ∙ h.meta_word;
    })

    -- Where both files are written.
    both_written :
        (l m : Disk)
        → suc (length es) < 2 ^ 31
        → l.bytes ≡ entry_bytes
        → length es * 16 + 16 ≤ l.size
        → m.bytes ≡ spliced c.meta_file.bytes c.meta_file.size 0 (host_bytes (add32 c.length 1)) 4
        → c.meta_file.size ≤ m.size
        → Stores (es ++ e ∷ []) (log_init garbage (healed l) (healed m))
    both_written l m room lb ls mb ms =
        let longer : length (es ++ e ∷ []) ≡ suc (length es) =
          omega (arith, length-append es (e ∷ [])) in
        let more : add32 c.length 1 ≡ suc (length es) = omega (arith, h.counted) in
        start_again l m (record {
          counted = refl;
          small = omega arith;
          sized = omega (arith, ls);
          at = λ j x q.
              ap (λ (b : Bytes). log_entry_unpack b (j * 16)) lb
              ∙ entry_at j x (sym (get_elem?-append_one es j e) ∙ q);
          meta_sized = omega (arith, h.meta_sized, ms);
          meta_word =
              ap (λ (b : Bytes). host_word b 0) mb
              ∙ host_word-write_self c.meta_file.bytes c.meta_file.size 0 (add32 c.length 1)
                  (omega (arith, more))
              ∙ more
              ∙ sym longer;
        })

-- Whichever calls fail during an append, such as all from the one on at which the node crashes: the
-- node that starts again on the two files finds the log with the entry added where the append returned
-- 0, and the log as it was before the append where it did not. A write() stores all its bytes or none.
-- The entry has fields of type uint32_t, and the log has room for one more below 2^31.
pub append_crash :
    (garbage : ℕ) {es : List LogEntry} (c : LogContext) (e : LogEntry)
    → Stores es c
    → IsWord e
    → suc (length es) < 2 ^ 31
    → AllOrNothing garbage es e (f_log_write (pos (length es)) e c)
unfolding f_log_write write_at extend write_length lseek write
append_crash garbage {es} c e h w room =
    let test : ltb c.length (length es) ≡ false = ground (arith, h.counted) in
    let end : (length es == c.length) ≡ true = ground (arith, h.counted) in
    let d = c.log_file in
    let m = c.meta_file in
    let d1 = record d { calls = d.calls + 1 } in
    let d2 = record d { offset = length es * 16; calls = d.calls + 1 + 1 } in
    let d3 = written (length es * 16) (log_entry_pack (λ _. 0) 0 e) 16 d in
    let m1 = record m { calls = m.calls + 1 } in
    let m2 = record m { offset = 0; calls = m.calls + 1 + 1 } in
    let m3 = written 0 (host_bytes (add32 c.length 1)) 4 m in
    elim (Bool-cases (d.fails d.calls)) [
      | inl no_seek ↦
          rw (test, no_seek) (inr (refl, untouched garbage c h d1 m refl refl refl refl))
      | inr seek ↦ elim (Bool-cases (d.fails (d.calls + 1))) [
        | inl no_write ↦
            rw (test, seek, no_write) (inr (refl, untouched garbage c h d2 m refl refl refl refl))
        | inr wrote ↦ elim (Bool-cases (m.fails m.calls)) [
          | inl no_meta ↦
              rw (test, seek, wrote, end, no_meta)
                (inr (refl, entry_only garbage c h e w d3 m1 refl (ground arith) refl refl))
          | inr meta ↦ elim (Bool-cases (m.fails (m.calls + 1))) [
            | inl no_length ↦
                rw (test, seek, wrote, end, meta, no_length)
                  (inr (refl, entry_only garbage c h e w d3 m2 refl (ground arith) refl refl))
            | inr done ↦
                rw (test, seek, wrote, end, meta, done)
                  (inl (
                    refl,
                    both_written garbage c h e w d3 m3 room refl (ground arith) refl (ground arith),
                  ))
          ]
        ]
      ]
    ]
