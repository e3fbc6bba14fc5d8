-- ===== src/Order/PaymentAmount.antt =====
-- `PaymentAmount`: the least amount that covers the total and ends in the suffix.
use evermore.Base.{ℕ, ◌+◌, ◌-◌, ◌*◌, ◌/◌, ◌%◌, ◌≤◌, ◌<◌, ◌≡◌, arith, ltb, if◌then◌else◌, ok}
use evermore.Int64.{pos, half, ◌/ℤ◌}
use evermore.Int64.Laws.{+ℤ-pos, -ℤ-pos, *ℤ-pos}
use evermore.Order.{payment_amount}

-- The amount over unbounded numbers.
abbrev amount_of : ℕ → ℕ → ℕ
amount_of total suffix =
    let base = total / 1000 * 1000 in
    if ltb (base + suffix) total then base + suffix + 1000 else base + suffix

-- For a total t with t + 1000 < 2 ^ 63 and a suffix below 1000, the amount ends
-- in the suffix, covers the total and exceeds it by less than 1000, and the rounding is the excess.
pub payment_amount_exact :
    (total suffix : ℕ)
    → total + 1000 < half
    → suffix < 1000
    → (amount : ℕ) × (payment_amount (pos total) (pos suffix)
        ≡ ok (pos amount, pos (amount - total)))
      × (amount % 1000 ≡ suffix)
      × (total ≤ amount)
      × (amount < total + 1000)
unfolding payment_amount ◌/ℤ◌
payment_amount_exact total suffix h k = (
  amount_of total suffix,
  ground (
    arith,
    *ℤ-pos (total / 1000) 1000,
    +ℤ-pos (total / 1000 * 1000) suffix,
    +ℤ-pos (total / 1000 * 1000 + suffix) 1000,
    -ℤ-pos (amount_of total suffix) total,
  ),
  ground arith,
  ground arith,
  ground arith,
)
