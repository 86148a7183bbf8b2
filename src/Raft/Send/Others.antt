-- ===== src/Raft/Send/Others.antt =====
-- src/raft.c, the loops over the other nodes, and the start of an election.
use raft_research.Prelude.{
  ℕ, zero, suc, ◌+◌, ◌-◌, ◌≤◌, ◌<◌, ◌≡◌, refl, ap, ◌∙◌, some, true, false, arith, length, get_elem?,
  ltb, ◌==◌, if◌then◌else◌, Bool-cases, inl, inr,
}
use raft_research.Transport.{Pkt}
use raft_research.Raft.Send.{to_others}

-- With the node's own number behind, no number is left out.
others_after :
    (make : ℕ → Pkt) (id n i k : ℕ)
    → id < i
    → k < n
    → get_elem? (to_others make id n i) k ≡ some (make (i + k))
unfolding to_others
others_after make id zero i k h below = ground arith
others_after make id (suc n) i zero h below = ground arith
others_after make id (suc n) i (suc k) h below =
    let next = others_after make id n (i + 1) k (omega arith) (omega arith) in
    let shift : i + 1 + k ≡ i + suc k = omega arith in
    let other : (i == id) ≡ false = ground arith in rw (other) (next ∙ rw shift refl)

length_after : (make : ℕ → Pkt) (id n i : ℕ) → id < i → length (to_others make id n i) ≡ n
unfolding to_others
length_after make id zero i h = refl
length_after make id (suc n) i h = ground (arith, length_after make id n (i + 1) (omega arith))

from_own :
    (make : ℕ → Pkt) (id n i k : ℕ)
    → i ≡ id
    → k < n
    → get_elem? (to_others make id n (i + 1)) k
      ≡ some (make (if ltb (i + k) id then i + k else i + k + 1))
from_own make id n i k own below =
    let shift : i + 1 + k ≡ i + k + 1 = omega arith in
    let past : ltb (i + k) id ≡ false = ground arith in
    rw past (others_after make id n (i + 1) k (omega arith) below ∙ rw shift refl)

-- Packet `k` is for node `k`, or the one behind it from the node's own number on.
others_lem :
    (make : ℕ → Pkt) (id n i k : ℕ)
    → i ≤ id
    → id < i + n
    → k < n - 1
    → get_elem? (to_others make id n i) k
      ≡ some (make (if ltb (i + k) id then i + k else i + k + 1))
unfolding to_others
others_lem make id zero i k lo hi below = ground arith
others_lem make id (suc n) i zero lo hi below = elim (Bool-cases (i == id)) [
  | inl own ↦ rw own (from_own make id n i 0 (ground arith) (omega arith))
  | inr other ↦
      let before : ltb (i + 0) id ≡ true = ground arith in
      let here : i + 0 ≡ i = omega arith in rw (other, before, here) refl
]
others_lem make id (suc n) i (suc k) lo hi below = elim (Bool-cases (i == id)) [
  | inl own ↦ rw own (from_own make id n i (suc k) (ground arith) (omega arith))
  | inr other ↦
      let shift : i + 1 + k ≡ i + suc k = omega arith in
      rw (other, ← shift)
        (others_lem make id n (i + 1) k (ground arith) (omega arith) (omega arith))
]

pub length-to_others :
    (make : ℕ → Pkt) (id n i : ℕ) → i ≤ id → id < i + n → length (to_others make id n i) ≡ n - 1
unfolding to_others
length-to_others make id zero i lo hi = omega arith
length-to_others make id (suc n) i lo hi = elim (Bool-cases (i == id)) [
  | inl own ↦ rw own (length_after make id n (i + 1) (ground arith) ∙ omega arith)
  | inr other ↦ ground (arith, length-to_others make id n (i + 1) (ground arith) (omega arith))
]

-- The number of the node that packet `k` of a broadcast goes to.
abbrev pub other : ℕ → ℕ → ℕ
other id k = if ltb k id then k else k + 1

pub get_elem?-to_others :
    (make : ℕ → Pkt) (id n k : ℕ)
    → id < n
    → k < n - 1
    → get_elem? (to_others make id n 0) k ≡ some (make (other id k))
get_elem?-to_others make id n k member below =
    let zero_add : 0 + k ≡ k = omega arith in
    others_lem make id n 0 k (omega arith) (omega arith) below
    ∙ ap (λ (j : ℕ). some (make (if ltb j id then j else j + 1))) zero_add
