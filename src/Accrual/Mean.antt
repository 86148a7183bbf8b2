-- ===== src/Accrual/Mean.antt =====
-- src/accrual.c: the mean of the intervals.
use raft_research.Prelude.{
  ℕ, zero, suc, ◌+◌, ◌-◌, ◌%◌, ◌^◌, ◌≤◌, ◌<◌, ◌≡◌, refl, ap, sym, inl, inr, List, [], ◌∷◌, length,
  take, get_or, arith, ◌==◌, if◌then◌else◌,
}
use native.Mathlib.Nat.{zero-add, suc-add, sub-zero, suc-sub-suc}
use raft_research.Float.{Double}
use raft_research.Accrual.{Telemetry, sum_loop, compute_mean_interval}
use raft_research.Accrual.Window.{IsValid, back, recent, length-back}

unfoldable pub sum : List ℕ → ℕ
sum [] = 0
sum (x ∷ xs) = x + sum xs

sum_loop-sum : (acc : ℕ) (xs : List ℕ) → acc < 2 ^ 64 → sum_loop acc xs ≡ (acc + sum xs) % 2 ^ 64
unfolding sum_loop sum
sum_loop-sum acc [] h = omega arith
sum_loop-sum acc (x ∷ xs) h = omega (arith, sum_loop-sum ((acc + x) % 2 ^ 64) xs (omega arith))

sum-take-suc :
    (j : ℕ) (xs : List ℕ) → j < length xs → sum (take (suc j) xs) ≡ sum (take j xs) + get_or xs j 0
unfolding sum
sum-take-suc j [] h = absurd (omega arith)
sum-take-suc zero (x ∷ xs) h = omega arith
sum-take-suc (suc j) (x ∷ xs) h = omega (arith, sum-take-suc j xs (omega arith))

module _ (xs : List ℕ) (w : ℕ) where
  sum-back :
      (n j : ℕ)
      → n ≤ j
      → j ≤ length xs
      → sum (back xs w j n) + sum (take (j - n) xs) ≡ sum (take j xs)
  unfolding sum
  sum-back zero j h1 h2 = rw sub-zero (omega arith)
  sum-back (suc n) zero h1 h2 = absurd (omega arith)
  sum-back (suc n) (suc j) h1 h2 =
      rw suc-sub-suc
        (omega (arith, sum-back n j (omega arith) (omega arith), sum-take-suc j xs (omega arith)))

  -- Past the start of the buffer the reading goes on from its end.
  sum-back_wrap :
      (j k : ℕ) → j ≤ length xs → sum (back xs w j (j + k)) ≡ sum (take j xs) + sum (back xs w 0 k)
  unfolding sum
  sum-back_wrap zero k h =
      let e : 0 + k ≡ k = omega arith in omega (arith, ap (λ n. sum (back xs w 0 n)) e)
  sum-back_wrap (suc j) k h =
      rw suc-add (omega (arith, sum-back_wrap j k (omega arith), sum-take-suc j xs (omega arith)))

sum-back_whole : (xs : List ℕ) (w n : ℕ) → n ≤ length xs → sum (back xs w n n) ≡ sum (take n xs)
unfolding sum
sum-back_whole xs w n h =
    let e : n - n ≡ 0 = omega arith in
    let none_left : take (n - n) xs ≡ [] = ap (λ k. take k xs) e in
    omega (arith, sum-back xs w n n (omega arith) h, ap sum none_left)

-- Reading back from the start of the buffer is reading back from its end.
sum-back_start : (xs : List ℕ) (w k : ℕ) → 0 < w → sum (back xs w 0 k) ≡ sum (back xs w w k)
sum-back_start xs zero k h = absurd (omega arith)
sum-back_start xs (suc w) zero h = refl
sum-back_start xs (suc w) (suc k) h = let e : w ≡ suc w - 1 = omega arith in rw (← e)

sum_full : (xs : List ℕ) (w j : ℕ) → length xs ≡ w → j < w → sum (back xs w j w) ≡ sum (take w xs)
sum_full xs w j hl hj = rw split (
    omega (
      arith,
      sum-back_wrap xs w j (w - j) (omega arith),
      sum-back_start xs w (w - j),
      sum-back xs w (w - j) w (omega arith) (omega arith),
      left,
    ))
  where
    split : back xs w j w ≡ back xs w j (j + (w - j))
    split = ap (back xs w j) (omega arith)

    left : sum (take (w - (w - j)) xs) ≡ sum (take j xs)
    left = ap (λ k. sum (take k xs)) (omega arith)

-- The intervals that the loop of `compute_mean_interval` adds up.
sum-recent :
    (t : Telemetry) → IsValid t → sum (take t.num_intervals t.intervals_usec) ≡ sum (recent t)
sum-recent t v = elim v.filling [
  | inl full ↦
      rw full (sym (sum_full t.intervals_usec t.window_size t.interval_index v.sized v.index_in))
  | inr part ↦
      rw part
        (omega (arith, sum-back_whole t.intervals_usec t.window_size t.num_intervals (omega arith)))
]

-- The mean interval is the sum of the recent intervals, as a uint64_t, over their number; it is 0.0
-- when there are none.
pub compute_mean_interval_lem :
    (fp : Double) (t : Telemetry)
    → IsValid t
    → compute_mean_interval fp t ≡ (
        if length (recent t) == 0
        then fp.zero
        else fp.div (fp.of_uint (sum (recent t) % 2 ^ 64)) (fp.of_uint (length (recent t))))
unfolding compute_mean_interval
compute_mean_interval_lem fp t v = rw (
  sum_loop-sum 0 (take t.num_intervals t.intervals_usec) (omega arith),
  zero-add,
  sum-recent t v,
  length-back,
)
