-- ===== src/Persist/Disk.antt =====
-- The POSIX calls that src/persist-unix makes on one open file: lseek to an absolute offset, read,
-- write and ftruncate. Any call may fail: `fails` tells which, by the number of calls before it. A
-- call that fails changes nothing but that number. fsync has no effect here.
use raft_research.Prelude.{
  ℕ, ◌+◌, ◌-◌, ◌*◌, ◌/◌, ◌%◌, ◌^◌, ◌≤◌, ◌<◌, ◌≡◌, ◌⊎◌, Bool, true, false, ◌&&◌, Option, none, some,
  min, refl, ap, arith, ltb, leb, ◌==◌, if◌then◌else◌,
}
use raft_research.Memory.{Bytes}

pub record Disk : Type 0 where
  pub bytes : Bytes
  pub size : ℕ
  pub offset : ℕ
  pub calls : ℕ
  pub fails : ℕ → Bool

-- No call fails from now on.
abbrev pub IsSound : Disk → Type 0
IsSound d = (k : ℕ) → d.fails k ≡ false

abbrev called : Disk → Disk
called d = record d { calls = d.calls + 1 }

-- lseek(fd, off, SEEK_SET): whether it succeeded.
unfoldable pub lseek : ℕ → Disk → Bool × Disk
lseek off d =
    if d.fails d.calls then (false, called d) else (true, record (called d) { offset = off })

-- read(fd, buf, n): the number of bytes read, `none` for -1, and the bytes.
unfoldable pub read : ℕ → Disk → Option ℕ × Bytes × Disk
read n d =
    let count = min n (d.size - d.offset) in
    if d.fails d.calls then (none, d.bytes, called d) else (
      some count,
      (λ i. d.bytes (d.offset + i)),
      record (called d) { offset = d.offset + count },
    )

-- The bytes of a file after `n` bytes of `buf` are written at `off`. A gap before them is zero.
abbrev pub spliced : Bytes → ℕ → ℕ → Bytes → ℕ → Bytes
spliced bytes size off buf n q =
    if leb off q && ltb q (off + n) then buf (q - off) else if leb size q then 0 else bytes q

-- write(fd, buf, n), which writes all or fails.
unfoldable pub write : Bytes → ℕ → Disk → Bool × Disk
write buf n d = if d.fails d.calls then (false, called d) else (
  true,
  record (called d) {
    bytes = spliced d.bytes d.size d.offset buf n;
    size = if ltb d.size (d.offset + n) then d.offset + n else d.size;
    offset = d.offset + n;
  },
)

-- ftruncate(fd, n). What is cut off is lost: if the file grows again it reads as zero.
unfoldable pub ftruncate : ℕ → Disk → Disk
ftruncate n d =
    if d.fails d.calls
    then called d
    else record (called d) { bytes = λ q. if leb d.size q then 0 else d.bytes q; size = n }

-- A uint32_t in the byte order of the machine, least significant byte first.
unfoldable pub host_bytes : ℕ → Bytes
host_bytes v i =
    if i == 0
    then v % 256
    else if i == 1
    then v / 2 ^ 8 % 256
    else if i == 2
    then v / 2 ^ 16 % 256
    else v / 2 ^ 24 % 256

unfoldable pub host_word : Bytes → ℕ → ℕ
host_word b p = b p + b (p + 1) * 2 ^ 8 + b (p + 2) * 2 ^ 16 + b (p + 3) * 2 ^ 24

-- A byte inside what is written.
pub spliced-in :
    (m : Bytes) (size off : ℕ) (buf : Bytes) (n k : ℕ)
    → k < n
    → spliced m size off buf n (off + k) ≡ buf k
spliced-in m size off buf n k h =
    let e : off + k - off ≡ k = omega arith in ground (arith, ap buf e)

-- A byte of the file outside what is written.
pub spliced-out :
    (m : Bytes) (size off : ℕ) (buf : Bytes) (n q : ℕ)
    → q < size
    → (q < off) ⊎ (off + n ≤ q)
    → spliced m size off buf n q ≡ m q
spliced-out m size off buf n q h1 h2 = ground arith

pub host_word-host_bytes : (v : ℕ) → v < 2 ^ 32 → host_word (host_bytes v) 0 ≡ v
unfolding host_word host_bytes
host_word-host_bytes v h = omega arith

-- The word at `p` of a file after a word is written at `off`.
pub host_word-write_self :
    (m : Bytes) (size off v : ℕ)
    → v < 2 ^ 32
    → host_word (spliced m size off (host_bytes v) 4) off ≡ v
unfolding host_word host_bytes
host_word-write_self m size off v h =
    rw
      (
        start,
        spliced-in m size off (host_bytes v) 4 1 (omega arith),
        spliced-in m size off (host_bytes v) 4 2 (omega arith),
        spliced-in m size off (host_bytes v) 4 3 (omega arith),
      )
      (host_word-host_bytes v h)
  where
    start : spliced m size off (host_bytes v) 4 off ≡ host_bytes v 0
    start = ground (arith)

pub host_word-write_ne :
    (m : Bytes) (size off : ℕ) (buf : Bytes) (p : ℕ)
    → p + 4 ≤ size
    → (p + 4 ≤ off) ⊎ (off + 4 ≤ p)
    → host_word (spliced m size off buf 4) p ≡ host_word m p
unfolding host_word
host_word-write_ne m size off buf p h1 h2 = ground arith

-- What a seek and a write leave behind while no call fails.
abbrev pub written : ℕ → Bytes → ℕ → Disk → Disk
written off buf n d = record d {
  bytes = spliced d.bytes d.size off buf n;
  size = if ltb d.size (off + n) then off + n else d.size;
  offset = off + n;
  calls = d.calls + 1 + 1;
}

pub seek_write :
    (off : ℕ) (buf : Bytes) (n : ℕ) (d : Disk)
    → IsSound d
    → ((lseek off d).0 ≡ true) × (write buf n (lseek off d).1 ≡ (true, written off buf n d))
unfolding lseek write
seek_write off buf n d sound = rw (sound d.calls, sound (d.calls + 1)) (refl, refl)
