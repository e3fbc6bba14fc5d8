-- ===== src/Ordering/Suffixes/Distinct.antt =====
-- Live claims of a day have distinct suffixes, and so distinct amounts.
use evermore.Base.{
  ℕ, zero, suc, ◌+◌, ◌%◌, ◌≤◌, ◌<◌, ltb, ◌≡◌, ◌≢◌, sym, subst, ◌∙◌, ap, arith, Bool, List, [], ◌∷◌,
  ◌++◌, Option, some, ok, tally, Bool-cases, Option-cases, inl, inr,
}
use evermore.Int64.{pos, half}
use evermore.Order.{payment_amount}
use evermore.Order.PaymentAmount.{payment_amount_exact}
use evermore.Ordering.Suffixes.{
  Claim, Claimed, holds, taken, claim_of, priced, claim_loop, claim_suffix,
}

-- RandomSuffix draws a number of at most three digits.
abbrev pub Draws : (ℕ → Option ℕ) → Type 0
Draws draw = (i s : ℕ) → draw i ≡ some s → s < 1000

tally-append {ℓ} :
    {A : Type ℓ} (test : A → Bool) (xs ys : List A)
    → tally test (xs ++ ys) ≡ tally test xs + tally test ys
tally-append test [] ys = omega arith
tally-append test (x ∷ xs) ys = omega (arith, tally-append test xs ys)

-- What a claim that is granted was.
abbrev pub Granted : ℕ → ℕ → ℕ → List Claim → Claimed → Type 0
Granted order_id today t claims r =
    (tally (holds today r.suffix) claims ≡ 0)
    × (r.claims ≡ claims ++ claim_of order_id today r.suffix ∷ [])
    × ((a : ℕ) × (r.amount ≡ pos a) × (a % 1000 ≡ r.suffix) × (t ≤ a) × (a < t + 1000))

priced-Granted :
    (order_id today t suffix : ℕ) (claims : List Claim) (r : Claimed)
    → t + 1000 < half
    → suffix < 1000
    → tally (holds today suffix) claims ≡ 0
    → priced suffix
        (claims ++ claim_of order_id today suffix ∷ [])
        (payment_amount (pos t) (pos suffix))
      ≡ ok r
    → Granted order_id today t claims r
priced-Granted o today t s claims r small digits free h =
    let (a, e, ends, covers, near) = payment_amount_exact t s small digits in
    let e_suffix : r.suffix ≡ s = ground (arith, e, h) in
    let e_claims : r.claims ≡ claims ++ claim_of o today s ∷ [] = ground (arith, e, h) in
    let e_amount : r.amount ≡ pos a = ground (arith, e, h) in
    (rw e_suffix free, rw e_suffix e_claims, (a, e_amount, rw e_suffix ends, covers, near))

claim_loop-Granted :
    (draw : ℕ → Option ℕ) (order_id today t : ℕ) (claims : List Claim) (attempt left : ℕ)
    (r : Claimed)
    → Draws draw
    → t + 1000 < half
    → claim_loop draw order_id today (pos t) claims attempt left ≡ ok r
    → Granted order_id today t claims r
unfolding claim_loop taken
claim_loop-Granted draw o today t claims i zero r digits small h = cc
claim_loop-Granted draw o today t claims i (suc left) r digits small h =
    elim (Option-cases (draw i)) [
      | inl n ↦ absurd (ground (arith, n, h))
      | inr (s, d) ↦ elim (Bool-cases (ltb 0 (tally (holds today s) claims))) [
        | inl b ↦
            claim_loop-Granted draw o today t claims (suc i) left r digits small
              (ground (arith, d, b, h))
        | inr f ↦
            priced-Granted o today t s claims r small (digits i s d) (ground (arith, f))
              (ground (arith, d, f, h))
      ]
    ]

-- With a random source that draws below 1000 and a total t with t + 1000 < 2 ^ 63, a claim that is
-- granted takes a suffix that no live claim of the day holds, and appends the claim; the amount to
-- transfer ends in the suffix, covers the total and exceeds it by less than 1000.
pub claim_suffix-Granted :
    (draw : ℕ → Option ℕ) (order_id today t : ℕ) (claims : List Claim) (r : Claimed)
    → Draws draw
    → t + 1000 < half
    → claim_suffix draw order_id today (pos t) claims ≡ ok r
    → Granted order_id today t claims r
unfolding claim_suffix
claim_suffix-Granted draw o today t claims r digits small h =
    claim_loop-Granted draw o today t claims 0 40 r digits small h

-- With random sources that draw below 1000 and totals t with t + 1000 < 2 ^ 63, equal or not, two
-- orders that claim on one day, the second while the claim of the first is live, are asked for
-- different amounts, so a transfer tells which of them it pays.
amounts_differ :
    (draw draw' : ℕ → Option ℕ) (order_id order_id' today t t' : ℕ) (claims : List Claim)
    (r r' : Claimed)
    → Draws draw
    → Draws draw'
    → t + 1000 < half
    → t' + 1000 < half
    → claim_suffix draw order_id today (pos t) claims ≡ ok r
    → claim_suffix draw' order_id' today (pos t') r.claims ≡ ok r'
    → r.amount ≢ r'.amount
amounts_differ draw draw' o o' today t t' claims r r' d d' s s' h h' same =
    let (free, e, (a, ea, ends, _, _)) = claim_suffix-Granted draw o today t claims r d s h in
    let (free', _, (a', ea', ends', _, _)) =
      claim_suffix-Granted draw' o' today t' r.claims r' d' s' h' in
    let held : tally (holds today r.suffix) r.claims ≡ 1 = rw e (
      ground (
        arith,
        tally-append (holds today r.suffix) claims (claim_of o today r.suffix ∷ []),
        free,
      )) in
    let amounts : a ≡ a' = ground (arith, ea, ea', same) in
    let suffixes : r'.suffix ≡ r.suffix = sym ends' ∙ (ap (λ x. x % 1000) (sym amounts) ∙ ends) in
    let none_held : tally (holds today r.suffix) r.claims ≡ 0 =
      subst (λ x. tally (holds today x) r.claims ≡ 0) suffixes free' in
    omega (arith, held, none_held)
