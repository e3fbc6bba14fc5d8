-- ===== src/Money.antt =====
-- internal/domain/money/money.go: rupiah amounts, basis-point rates, the tax split and its sums.
pub mod Rates
pub mod Split
pub mod Sums
mod Examples
use evermore.Base.{◌≡◌, Bool, not, ◌&&◌, List, [], ◌∷◌, Result, ok, err, refuse, ◌>>=◌, ◌>>◌}
use evermore.Int64.{ℤ, pos, ◌+ℤ◌, ◌-ℤ◌, ◌*ℤ◌, ◌/ℤ◌, ◌<ℤ◌, ◌==ℤ◌}

-- Whole rupiah.
abbrev pub Idr : Type 0
Idr = ℤ

pub data MoneyError : Type 0 where
  negative overflow mixed_rates : MoneyError

-- 2 ^ 62 - 1.
abbrev max_idr : Idr
max_idr = pos 4611686018427387903

unfoldable pub apply_bps : Idr → ℤ → Result MoneyError Idr
apply_bps amount bps = do
  refuse (amount <ℤ pos 0) negative
  refuse (bps <ℤ pos 0) negative
  refuse (not (bps ==ℤ pos 0) && ((max_idr -ℤ pos 5000) /ℤ bps <ℤ amount)) overflow
  ok ((amount *ℤ bps +ℤ pos 5000) /ℤ pos 10000)

pub record TaxSplit : Type 0 where
  pub inclusive : Idr
  pub base : Idr
  pub tax : Idr
  pub rate_bps : ℤ

-- The zero value, `TaxSplit{}`.
abbrev pub no_split : TaxSplit
no_split = record { inclusive = pos 0; base = pos 0; tax = pos 0; rate_bps = pos 0 }

unfoldable pub split_inclusive : Idr → ℤ → Result MoneyError TaxSplit
split_inclusive inclusive rate_bps = do
  refuse (inclusive <ℤ pos 0) negative
  refuse (rate_bps <ℤ pos 0) negative
  let d = pos 10000 +ℤ rate_bps
  refuse ((max_idr -ℤ d /ℤ pos 2) /ℤ pos 10000 <ℤ inclusive) overflow
  let base = (inclusive *ℤ pos 10000 +ℤ d /ℤ pos 2) /ℤ d
  ok (record { inclusive = inclusive; base = base; tax = inclusive -ℤ base; rate_bps = rate_bps })

unfoldable pub mul : Idr → ℤ → Result MoneyError Idr
mul amount qty = do
  refuse (amount <ℤ pos 0) negative
  refuse (qty <ℤ pos 0) negative
  refuse (not (qty ==ℤ pos 0) && (max_idr /ℤ qty <ℤ amount)) overflow
  ok (amount *ℤ qty)

-- The loop of `Sum`, from the total so far.
unfoldable pub sum_from : Idr → List Idr → Result MoneyError Idr
sum_from total [] = ok total
sum_from total (a ∷ rest) = do
  refuse (a <ℤ pos 0) negative
  refuse (max_idr -ℤ a <ℤ total) overflow
  sum_from (total +ℤ a) rest

unfoldable pub sum : List Idr → Result MoneyError Idr
unfolding sum_from
sum amounts = sum_from (pos 0) amounts

-- One round of the loop of `SumSplits`.
unfoldable pub add_split : TaxSplit → TaxSplit → Result MoneyError TaxSplit
add_split out s = do
  refuse (not (s.rate_bps ==ℤ out.rate_bps)) mixed_rates
  inclusive ← sum (out.inclusive ∷ s.inclusive ∷ [])
  base ← sum (out.base ∷ s.base ∷ [])
  tax ← sum (out.tax ∷ s.tax ∷ [])
  ok (record out { inclusive = inclusive; base = base; tax = tax })

-- The loop of `SumSplits`, from the totals so far.
unfoldable pub sum_splits_from : TaxSplit → List TaxSplit → Result MoneyError TaxSplit
unfolding add_split
sum_splits_from out [] = ok out
sum_splits_from out (s ∷ rest) = do out' ← add_split out s; sum_splits_from out' rest

unfoldable pub sum_splits : List TaxSplit → Result MoneyError TaxSplit
unfolding sum_splits_from
sum_splits [] = ok no_split
sum_splits (s ∷ rest) = sum_splits_from (record no_split { rate_bps = s.rate_bps }) (s ∷ rest)
