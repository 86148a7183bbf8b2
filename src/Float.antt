-- ===== src/Float.antt =====
-- The arithmetic of C's `double` that src/accrual.c uses. A double is its bit pattern; the
-- operations are those of the machine, and stay parameters.
use raft_research.Prelude.{ℕ, ◌≤◌, ◌<◌, ◌^◌, ◌≡◌, Bool, true, false}

pub record Double : Type 0 where
  -- the conversion of an unsigned integer
  pub of_uint : ℕ → ℕ
  pub div : ℕ → ℕ → ℕ
  pub mul : ℕ → ℕ → ℕ
  pub lt : ℕ → ℕ → Bool
  pub le : ℕ → ℕ → Bool
  -- the literals 0.0, 1.0 and 0.4342944819
  pub zero : ℕ
  pub one : ℕ
  pub log10_e : ℕ

-- What IEEE 754 gives, where a comparison with NaN is false: rounding is monotone, so a larger
-- integer gives a larger product with a positive number, unless the product is NaN; the product with
-- the positive literal is monotone; a product of NaN is NaN; and a comparison goes on to a larger
-- number. The mean may be NaN or infinite.
pub record IsMonotone (fp : Double) : Type 0 where
  pub scale_mono :
      (mean a b : ℕ)
      → a ≤ b
      → b < 2 ^ 64
      → fp.le mean fp.zero ≡ false
      → let p = fp.mul (fp.div fp.one mean) (fp.of_uint a) in
        fp.le p p ≡ true → fp.le p (fp.mul (fp.div fp.one mean) (fp.of_uint b)) ≡ true
  pub log10_e_mono :
      (a b : ℕ) → fp.le a b ≡ true → fp.le (fp.mul a fp.log10_e) (fp.mul b fp.log10_e) ≡ true
  pub lt_le : (a b c : ℕ) → fp.lt a b ≡ true → fp.le b c ≡ true → fp.lt a c ≡ true
  pub lt_ordered : (a b : ℕ) → fp.lt a (fp.mul b fp.log10_e) ≡ true → fp.le b b ≡ true
