-- ===== src/Persist/Log.antt =====
-- src/log.h, src/persist-unix/log.c: the log in two files, one of 16-byte entries and one that holds
-- the number of entries. A result is the code's `int`, and the context comes back beside it.
pub mod Refine
pub mod Remove
pub mod Implements
pub mod Restart
use raft_research.Prelude.{
  ℕ, ◌+◌, ◌-◌, ◌*◌, ◌^◌, ◌≤◌, ◌≡◌, Bool, true, false, ◌||◌, Option, none, some, ltb, leb, ◌==◌,
  if◌then◌else◌,
}
use raft_research.Prelude.Int.{ℤ, pos, negsuc, to_int, sub32, add32, ◌-ℤ◌}
use raft_research.Memory.{Bytes}
use raft_research.LogEntry.{LogEntry, log_entry_pack, log_entry_unpack, packed_size}
use raft_research.Persist.Disk.{Disk, lseek, read, write, ftruncate, host_bytes, host_word}

-- `log_context_t`
pub record LogContext : Type 0 where
  pub log_file : Disk
  pub meta_file : Disk
  pub length : ℕ

-- EOBND
abbrev pub eobnd : ℤ
eobnd = negsuc 50

abbrev is_size : ℕ → Option ℕ → Bool
is_size n none = false
is_size n (some m) = m == n

-- An index that is known to be non-negative. `n` is returned on success.
unfoldable pub read_at : ℕ → ℤ → LogContext → ℤ × Option LogEntry × LogContext
read_at idx n c =
    let (found, d1) = lseek (idx * packed_size) c.log_file in
    let (count, buf, d2) = read packed_size d1 in
    if found
    then (if is_size packed_size count
        then (n, some (log_entry_unpack buf 0), record c { log_file = d2 })
        else (negsuc 0, none, record c { log_file = d2 }))
    else (negsuc 0, none, record c { log_file = d1 })

-- The entry is what the call stores through `entry`, if it does.
unfoldable pub f_log_read : ℤ → ℤ → LogContext → ℤ × Option LogEntry × LogContext
unfolding read_at
f_log_read (negsuc idx) n c = (eobnd, none, c)
f_log_read (pos idx) n c = if leb c.length idx then (eobnd, none, c) else read_at idx n c

-- `lctx->length` to the metadata file; whether both calls succeeded.
unfoldable pub write_length : LogContext → Bool × LogContext
write_length c =
    let (found, d1) = lseek 0 c.meta_file in
    let (done, d2) = write (host_bytes c.length) 4 d1 in
    if found then (done, record c { meta_file = d2 }) else (false, record c { meta_file = d1 })

-- After the entry is written: an append makes the log longer, in memory first.
unfoldable pub extend : ℕ → LogContext → ℤ × LogContext
extend idx c =
    let (done, c') = write_length (record c { length = add32 c.length 1 }) in
    if idx == c.length then (if done then pos 0 else negsuc 0, c') else (pos 0, c)

unfoldable pub write_at : ℕ → LogEntry → LogContext → ℤ × LogContext
write_at idx entry c =
    let (found, d1) = lseek (idx * packed_size) c.log_file in
    let (done, d2) = write (log_entry_pack (λ _. 0) 0 entry) packed_size d1 in
    if found
    then (if done
        then extend idx (record c { log_file = d2 })
        else (negsuc 0, record c { log_file = d2 }))
    else (negsuc 0, record c { log_file = d1 })

unfoldable pub f_log_write : ℤ → LogEntry → LogContext → ℤ × LogContext
f_log_write (negsuc idx) entry c = (eobnd, c)
f_log_write (pos idx) entry c = if ltb c.length idx then (eobnd, c) else write_at idx entry c

unfoldable pub f_log_entry_size : ℤ → LogContext → ℤ
f_log_entry_size idx c = pos packed_size

unfoldable pub f_log_start_index : LogContext → ℤ
f_log_start_index c = pos 0

unfoldable pub f_log_end_index : LogContext → ℤ
f_log_end_index c = to_int c.length -ℤ pos 1

unfoldable pub f_log_length : LogContext → ℤ
f_log_length c = to_int c.length

-- The rest of `f_log_remove_last_n`, for an `n` between 1 and the length.
unfoldable pub remove_some : ℕ → LogContext → ℤ × LogContext
remove_some n c =
    let (done, c') = write_length (record c { length = sub32 c.length n }) in
    if done
    then (pos n, record c' { log_file = ftruncate (c'.length * packed_size) c'.log_file })
    else (negsuc 0, c')

unfoldable pub f_log_remove_last_n : ℤ → LogContext → ℤ × LogContext
f_log_remove_last_n (negsuc n) c = (pos 0, c)
f_log_remove_last_n (pos n) c =
    if n == 0 then (pos 0, c) else remove_some (if ltb c.length n then c.length else n) c

-- `log_init` on the two opened files. The results of its calls are not tested: after a failed read
-- the length is whatever malloc() left, `garbage`.
unfoldable pub log_init : ℕ → Disk → Disk → LogContext
log_init garbage log_file meta_file =
    let (done, created) = write (host_bytes 0) 4 meta_file in
    let (found, d1) = lseek 0 meta_file in
    let (count, buf, d2) = read 4 d1 in
    if ltb meta_file.size 4
    then record { log_file = log_file; meta_file = created; length = 0 }
    else record {
      log_file = log_file;
      meta_file = d2;
      length = if is_size 4 count then host_word buf 0 else garbage;
    }
