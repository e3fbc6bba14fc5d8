-- ===== src/Money/Rates.antt =====
-- `ApplyBPS` and `Mul`: their overflow guards refuse exactly what is too large.
use native.Mathlib.Nat.{le-div_iff_mul-le}
use evermore.Base.{
  ℕ, zero, suc, ◌+◌, ◌-◌, ◌*◌, ◌/◌, ◌≤◌, ◌<◌, ◌≡◌, arith, leb, ltb, if◌then◌else◌, ok, err,
}
use evermore.Int64.{pos, half, ◌/ℤ◌}
use evermore.Int64.Laws.{+ℤ-pos, -ℤ-pos, *ℤ-pos}
use evermore.Money.{overflow, apply_bps, mul}

-- 2 ^ 62 - 1, as a natural number.
abbrev pub largest : ℕ
largest = 4611686018427387903

-- A guard by division is the comparison of the product.
pub div_guard : (x a b : ℕ) → ltb (x / suc b) a ≡ ltb x (a * suc b)
div_guard x a b = ground (arith, le-div_iff_mul-le {k = suc b} {x = a} {y = x} (omega arith))

factor-le : (a b : ℕ) → a ≤ a * suc b
factor-le a b = grind arith

-- On amounts and quantities that are not negative, `Mul` returns the product if it is at most
-- 2 ^ 62 - 1, and refuses with the overflow error otherwise; the product never wraps.
pub mul_exact :
    (a q : ℕ)
    → a < half
    → q < half
    → mul (pos a) (pos q) ≡ (if leb (a * q) largest then ok (pos (a * q)) else err overflow)
unfolding mul ◌/ℤ◌
mul_exact a zero ha hq = ground (arith, *ℤ-pos a zero)
mul_exact a (suc q) ha hq = ground (arith, div_guard largest a q, *ℤ-pos a (suc q))

-- On amounts and rates that are not negative, `ApplyBPS` returns amount * bps / 10000 rounded half
-- up if the numerator is at most 2 ^ 62 - 1, and refuses with the overflow error otherwise.
apply_bps_exact :
    (a b : ℕ)
    → a < half
    → b < half
    → apply_bps (pos a) (pos b)
      ≡ (if leb (a * b + 5000) largest then ok (pos ((a * b + 5000) / 10000)) else err overflow)
unfolding apply_bps ◌/ℤ◌
apply_bps_exact a zero ha hb = ground (arith, *ℤ-pos a zero, +ℤ-pos (a * zero) 5000)
apply_bps_exact a (suc b) ha hb = ground (
  arith,
  -ℤ-pos largest 5000,
  div_guard (largest - 5000) a b,
  *ℤ-pos a (suc b),
  +ℤ-pos (a * suc b) 5000,
)
