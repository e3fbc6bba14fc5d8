-- ===== src/Money/Split.antt =====
-- `SplitInclusive`: the base is the nearest whole rupiah, and the tax is the residue.
use native.Mathlib.Nat.{div-lt_iff_lt-mul, div-mul-le_self, lt-div-mul-add}
use evermore.Base.{ℕ, ◌+◌, ◌-◌, ◌*◌, ◌/◌, ◌%◌, ◌≤◌, ◌<◌, ◌≡◌, arith, leb, if◌then◌else◌, ok, err}
use evermore.Int64.{ℤ, pos, half, Fits, modulus, ◌+ℤ◌, ◌-ℤ◌, ◌/ℤ◌, to_word}
use evermore.Int64.Laws.{+ℤ-pos, -ℤ-pos, *ℤ-pos, of_word-to_word, to_word-of_word, to_word-lt}
use evermore.Money.{TaxSplit, overflow, split_inclusive}
use evermore.Money.Rates.{largest, div_guard}

-- What the package documentation states, over unbounded numbers.
abbrev exact_base : ℕ → ℕ → ℕ
exact_base a r = (a * 10000 + (10000 + r) / 2) / (10000 + r)

abbrev exact_split : ℕ → ℕ → TaxSplit
exact_split a r = record {
  inclusive = pos a;
  base = pos (exact_base a r);
  tax = pos (a - exact_base a r);
  rate_bps = pos r;
}

exact_base-le : (a r : ℕ) → exact_base a r ≤ a
exact_base-le a r =
    let bound : a * 10000 + (10000 + r) / 2 < (a + 1) * (10000 + r) = omega arith in
    omega (
      arith,
      (div-lt_iff_lt-mul {k = 10000 + r} {x = a * 10000 + (10000 + r) / 2} {y = a + 1}
            (omega arith)).1
          bound,
    )

-- On an amount and a rate that are not negative, with 10000 + rate within an int64, the split is the
-- documented one, base = (inclusive * 10000 + d / 2) / d with d = 10000 + rate over unbounded
-- numbers, if the numerator is at most 2 ^ 62 - 1; and the overflow error otherwise.
split_inclusive_exact :
    (a r : ℕ)
    → a < half
    → 10000 + r < half
    → split_inclusive (pos a) (pos r)
      ≡ (if leb (a * 10000 + (10000 + r) / 2) largest then ok (exact_split a r) else err overflow)
unfolding split_inclusive ◌/ℤ◌
split_inclusive_exact a r ha hr = ground (
  arith,
  +ℤ-pos 10000 r,
  -ℤ-pos largest ((10000 + r) / 2),
  div_guard (largest - (10000 + r) / 2) a 9999,
  *ℤ-pos a 10000,
  +ℤ-pos (a * 10000) ((10000 + r) / 2),
  -ℤ-pos a (exact_base a r),
  exact_base-le a r,
)

-- Two's complement subtraction undoes addition.
add_sub_cancel : (a b : ℤ) → Fits a → b +ℤ (a -ℤ b) ≡ a
unfolding ◌+ℤ◌ ◌-ℤ◌
add_sub_cancel a b h = ground (
  arith,
  to_word-lt a,
  to_word-lt b,
  to_word-of_word ((to_word a + (modulus - to_word b)) % modulus),
  of_word-to_word a,
)

-- Whatever the rate, the base and the tax of a split add up to the inclusive amount.
split_inclusive_conserves :
    (a r : ℤ) (s : TaxSplit)
    → Fits a
    → split_inclusive a r ≡ ok s
    → (s.inclusive ≡ a) × (s.base +ℤ s.tax ≡ a)
unfolding split_inclusive
split_inclusive_conserves a r s h e = ground (arith, add_sub_cancel a s.base)

exact_base_nearest :
    (a r : ℕ)
    → (2 * (a * 10000) ≤ 2 * (exact_base a r * (10000 + r)) + (10000 + r))
      × (2 * (exact_base a r * (10000 + r)) ≤ 2 * (a * 10000) + (10000 + r))
exact_base_nearest a r =
    let d : ℕ = 10000 + r in
    let n : ℕ = a * 10000 + d / 2 in
    let low : n / d * d ≤ n = div-mul-le_self n d in
    let high : n < n / d * d + d = lt-div-mul-add {a = n} {b = d} (omega arith) in
    (omega arith, omega arith)

-- A split that succeeds on an amount and a rate that are not negative, with d = 10000 + rate within
-- an int64, has a base b whose b * d is within d / 2 of amount * 10000, so that b is a nearest whole
-- rupiah; b is at most the amount, and the tax is the rest.
split_inclusive_nearest :
    (a r : ℕ) (s : TaxSplit)
    → a < half
    → 10000 + r < half
    → split_inclusive (pos a) (pos r) ≡ ok s
    → (b : ℕ) × (s.base ≡ pos b)
      × (s.tax ≡ pos (a - b))
      × (b ≤ a)
      × (2 * (a * 10000) ≤ 2 * (b * (10000 + r)) + (10000 + r))
      × (2 * (b * (10000 + r)) ≤ 2 * (a * 10000) + (10000 + r))
split_inclusive_nearest a r s ha hr e =
    let exact = split_inclusive_exact a r ha hr in
    (
      exact_base a r,
      ground (arith, exact),
      ground (arith, exact),
      exact_base-le a r,
      (exact_base_nearest a r).0,
      (exact_base_nearest a r).1,
    )
