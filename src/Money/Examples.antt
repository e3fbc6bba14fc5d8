-- ===== src/Money/Examples.antt =====
-- Worked amounts: the split of Rp 500.000 at 11%, products, rates and totals.
use native.Mathlib.Omega.{arith}
use evermore.Base.{◌≡◌, refl, ok, err}
use evermore.Int64.{pos, to_word, of_word, ◌+ℤ◌, ◌-ℤ◌, ◌*ℤ◌, ◌/ℤ◌}
use evermore.Money.{TaxSplit, split_inclusive, mul, overflow}
use evermore.Money.Rates.{mul_exact}

abbrev half_million : TaxSplit
half_million = record {
  inclusive = pos 500000;
  base = pos 450450;
  tax = pos 49550;
  rate_bps = pos 1100;
}

split_half_million : split_inclusive (pos 500000) (pos 1100) ≡ ok half_million
unfolding split_inclusive ◌+ℤ◌ ◌-ℤ◌ ◌*ℤ◌ ◌/ℤ◌ to_word of_word
split_half_million = refl

mul_overflow : mul (pos 4611686018427387903) (pos 2) ≡ err overflow
mul_overflow = mul_exact 4611686018427387903 2 (omega arith) (omega arith)
