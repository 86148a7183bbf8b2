-- ===== src/Persist/Fields.antt =====
-- src/persistent-fields.h, src/persist-unix/persistent-fields.c: the current term and the vote, as
-- two words of a file.
pub mod Refine
use raft_research.Prelude.{
  ℕ, ◌+◌, ◌-◌, ◌*◌, ◌^◌, ◌≤◌, ◌≡◌, Bool, true, false, Option, none, some, ltb, ◌==◌, if◌then◌else◌,
}
use raft_research.Prelude.Int.{ℤ, pos, negsuc, to_int, int32_max}
use raft_research.Memory.{Bytes}
use raft_research.Persist.Disk.{Disk, lseek, read, write, host_bytes, host_word}

abbrev pub pf_current_term : ℕ
pf_current_term = 0

abbrev pub pf_voted_for : ℕ
pf_voted_for = 1

abbrev pub pf_no_vote_v : ℕ
pf_no_vote_v = int32_max

-- `n != sizeof(val)` on what read() returned.
abbrev is_word : Option ℕ → Bool
is_word none = false
is_word (some n) = n == 4

unfoldable pub pf_get : ℕ → Disk → ℤ × Disk
pf_get f d =
    let (found, d1) = lseek (f * 4) d in
    let (n, val, d2) = read 4 d1 in
    if found then (if is_word n then to_int (host_word val 0) else negsuc 0, d2) else (negsuc 0, d1)

unfoldable pub pf_set : ℕ → ℕ → Disk → ℤ × Disk
pf_set f v d =
    let (found, d1) = lseek (f * 4) d in
    let (done, d2) = write (host_bytes v) 4 d1 in
    if found then (if done then pos 0 else negsuc 0, d2) else (negsuc 0, d1)

-- `uint32_t buf[2] = {0, PF_NO_VOTE_V}`
abbrev initial_fields : Bytes
initial_fields i = if ltb i 4 then host_bytes 0 i else host_bytes pf_no_vote_v (i - 4)

-- `persistent_fields_init` on the opened file; `none` is exit(1). The first argument is whether
-- fstat() succeeds.
unfoldable pub persistent_fields_init : Bool → Disk → Option Disk
persistent_fields_init false d = none
persistent_fields_init true d =
    let (done, d') = write initial_fields 8 d in
    if ltb d.size 8 then (if done then some d' else none) else some d
