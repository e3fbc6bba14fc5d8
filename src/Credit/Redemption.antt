-- ===== src/Credit/Redemption.antt =====
-- `Redeem`: when it is allowed, and what it appends.
use evermore.Base.{
  ℕ, zero, suc, ◌-◌, ◌≤◌, ◌<◌, ◌≡◌, refl, ◌↔◌, inl, inr, ap, subst, arith, true, false, List, ◌++◌,
  All, length, ok,
}
use evermore.Int64.Laws.{ℤ-cases}
use evermore.Int64.{pos, negsuc, half, Fits, ◌≤ℤ◌}
use evermore.Credit.{
  Entry, RedeemRequest, active, redeemed, balance_from, balance, redeem_loop, redeem, rounds,
}
use evermore.Credit.Balance.{balance-append, balance-Fits, spend_one}

balance_from-redeem_loop :
    (new_id : ℕ → ℕ) (req : RedeemRequest) (i n b : ℕ)
    → n ≤ b
    → b < half
    → balance_from (pos b) (redeem_loop new_id req i n) ≡ pos (b - n)
unfolding balance_from redeem_loop
balance_from-redeem_loop new_id req i zero b h k = ground arith
balance_from-redeem_loop new_id req i (suc n) zero h k = absurd (omega arith)
balance_from-redeem_loop new_id req i (suc n) (suc b) h k =
    ground (arith, spend_one b k, balance_from-redeem_loop new_id req (suc i) n b)

pub redeem_loop_entries :
    (new_id : ℕ → ℕ) (req : RedeemRequest) (i n : ℕ)
    → All
        (λ e. (e.entry_type ≡ redeemed) × (e.qty ≡ negsuc 0) × (e.customer_package_id ≡ req.pkg.id))
        (redeem_loop new_id req i n)
      × (length (redeem_loop new_id req i n) ≡ n)
unfolding redeem_loop
redeem_loop_entries new_id req i zero = (tt, refl)
redeem_loop_entries new_id req i (suc n) =
    let (all, len) = redeem_loop_entries new_id req (suc i) n in
    (((refl, refl, refl), all), ap suc len)

-- A redemption is allowed exactly when it asks for at least one meal, the package is active, the
-- service date is not after the expiry, and the balance covers the meals.
pub redeem_allowed :
    (new_id : ℕ → ℕ) (req : RedeemRequest)
    → ((out : List Entry) × (redeem new_id req ≡ ok out)) ↔ (
        ((req.meals ≤ℤ pos 0) ≡ false)
        × (req.pkg.status ≡ active)
        × (req.service_date ≤ req.pkg.expires_at)
        × ((req.meals ≤ℤ balance req.entries) ≡ true))
unfolding redeem
redeem_allowed new_id req =
    (λ r. ground (arith, r.1), λ r. (redeem_loop new_id req 0 (rounds req.meals), ground arith))

redeem_ok :
    (new_id : ℕ → ℕ) (req : RedeemRequest) (n : ℕ) (out : List Entry)
    → req.meals ≡ pos n
    → redeem new_id req ≡ ok out
    → (b : ℕ) × (balance req.entries ≡ pos b)
      × (n ≤ b)
      × (b < half)
      × (redeem_loop new_id req 0 n ≡ out)
unfolding redeem
redeem_ok new_id req n out e h = elim (ℤ-cases (balance req.entries)) [
  | inl (b, eb) ↦
      (b, eb, ground arith, ground (arith, subst Fits eb (balance-Fits req.entries)), ground arith)
  | inr (b, eb) ↦ absurd (ground arith)
]

-- A redemption of n meals that succeeds appends n entries to its package, each a REDEEM of one
-- credit, and takes exactly n off the balance, which was at least n.
redeem-balance :
    (new_id : ℕ → ℕ) (req : RedeemRequest) (n : ℕ) (out : List Entry)
    → req.meals ≡ pos n
    → redeem new_id req ≡ ok out
    → (b : ℕ) × (balance req.entries ≡ pos b)
      × (n ≤ b)
      × (balance (req.entries ++ out) ≡ pos (b - n))
      × (length out ≡ n)
      × All
          (λ e.
            (e.entry_type ≡ redeemed) × (e.qty ≡ negsuc 0) × (e.customer_package_id ≡ req.pkg.id))
          out
redeem-balance new_id req n out e h =
    let (b, eb, enough, small, eo) = redeem_ok new_id req n out e h in
    let (all, len) = redeem_loop_entries new_id req 0 n in
    (
      b,
      eb,
      enough,
      rw (← eo, balance-append, eb) (balance_from-redeem_loop new_id req 0 n b enough small),
      subst (λ o. length o ≡ n) eo len,
      rw (← eo) all,
    )

-- A redemption that meets the conditions.
pub redeem_total :
    (new_id : ℕ → ℕ) (req : RedeemRequest) (m b : ℕ)
    → req.meals ≡ pos (suc m)
    → req.pkg.status ≡ active
    → req.service_date ≤ req.pkg.expires_at
    → balance req.entries ≡ pos b
    → suc m ≤ b
    → (out : List Entry) × (redeem new_id req ≡ ok out)
      × (balance (req.entries ++ out) ≡ pos (b - suc m))
      × (length out ≡ suc m)
      × All
          (λ e.
            (e.entry_type ≡ redeemed) × (e.qty ≡ negsuc 0) × (e.customer_package_id ≡ req.pkg.id))
          out
redeem_total new_id req m b em active_now date eb enough =
    let (out, done) =
      (redeem_allowed new_id req).1 (ground arith, active_now, date, ground arith) in
    let (b', eb', _, left, len, all) = redeem-balance new_id req (suc m) out em done in
    let same : b' ≡ b = ground arith in (out, done, rw (← same) left, len, all)
