-- ===== src/Memory.antt =====
-- src/util.h: 32-bit words in a byte buffer, most significant byte first. A buffer is the byte at
-- each offset, so that a pointer `p` into it is an offset.
use raft_research.Prelude.{
  ℕ, ◌+◌, ◌*◌, ◌/◌, ◌%◌, ◌^◌, ◌≤◌, ◌<◌, ◌≡◌, ◌⊎◌, sym, ap, ◌∙◌, arith, ◌==◌, if◌then◌else◌,
}
use native.Mathlib.Nat.{add-zero}

abbrev pub Bytes : Type 0
Bytes = ℕ → ℕ

-- `*p = v` at a `uint8_t *p`.
unfoldable pub write_u8 : Bytes → ℕ → ℕ → Bytes
write_u8 m p v q = if q == p then v % 256 else m q

-- (uint8_t)(val >> 24) and so on.
unfoldable pub write_u32_be : Bytes → ℕ → ℕ → Bytes
unfolding write_u8
write_u32_be m p val =
    write_u8
      (write_u8 (write_u8 (write_u8 m p (val / 2 ^ 24)) (p + 1) (val / 2 ^ 16)) (p + 2)
        (val / 2 ^ 8))
      (p + 3) val

-- The shifted bytes have no bit in common, so `|` adds them up.
unfoldable pub read_u32_be : Bytes → ℕ → ℕ
read_u32_be m p = m p * 2 ^ 24 + m (p + 1) * 2 ^ 16 + m (p + 2) * 2 ^ 8 + m (p + 3)

-- What was written is read back.
pub read-write_u32_self :
    (m : Bytes) (p v : ℕ) → v < 2 ^ 32 → read_u32_be (write_u32_be m p v) p ≡ v
unfolding read_u32_be write_u32_be
read-write_u32_self m p v h = ground arith

-- A byte outside the four that are written.
pub write_u32-out : (m : Bytes) (p v q : ℕ) → (q < p) ⊎ (p + 4 ≤ q) → write_u32_be m p v q ≡ m q
unfolding write_u32_be
write_u32-out m p v q h = ground arith

-- A word that does not overlap the one that is written.
pub read-write_u32_ne :
    (m : Bytes) (p v q : ℕ)
    → (q + 4 ≤ p) ⊎ (p + 4 ≤ q)
    → read_u32_be (write_u32_be m p v) q ≡ read_u32_be m q
unfolding read_u32_be
read-write_u32_ne m p v q h = omega (
  arith,
  write_u32-out m p v q (omega arith),
  write_u32-out m p v (q + 1) (omega arith),
  write_u32-out m p v (q + 2) (omega arith),
  write_u32-out m p v (q + 3) (omega arith),
)

-- A word depends on its four bytes alone.
pub read_u32_cong :
    (m m' : Bytes) (p q : ℕ)
    → ((k : ℕ) → k < 4 → m (p + k) ≡ m' (q + k))
    → read_u32_be m p ≡ read_u32_be m' q
unfolding read_u32_be
read_u32_cong m m' p q h =
    omega
      (arith, first (h 0 (omega arith)), h 1 (omega arith), h 2 (omega arith), h 3 (omega arith))
  where
    first : m (p + 0) ≡ m' (q + 0) → m p ≡ m' q
    first e = sym (ap m (add-zero p)) ∙ e ∙ ap m' (add-zero q)
