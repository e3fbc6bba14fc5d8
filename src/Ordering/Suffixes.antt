-- ===== src/Ordering/Suffixes.antt =====
-- `claimSuffix` of internal/app/ordering/queries.go: an order claims a three-digit suffix that is
-- free today. `draw i` is the suffix that the i-th call of `RandomSuffix` of
-- internal/domain/order/order.go draws, or none where the random source fails.
pub mod Distinct
use evermore.Base.{
  ℕ, zero, suc, ltb, ◌==◌, Bool, true, false, not, ◌&&◌, List, [], ◌∷◌, ◌++◌, Option, none, some,
  if◌then◌else◌, Result, ok, err, ◌>>=◌, tally,
}
use evermore.Int64.{ℤ, pos}
use evermore.Money.{Idr}
use evermore.Order.{OrderError, payment_amount}

pub record Claim : Type 0 where
  pub order_id : ℕ
  pub claim_date : ℕ
  pub suffix : ℕ
  pub released_at : Option ℕ

pub data ClaimError : Type 0 where
  random_failed no_free_suffix : ClaimError
  of_amount : OrderError → ClaimError

-- What the loop gives back beside the claims.
pub record Claimed : Type 0 where
  pub suffix : ℕ
  pub amount : Idr
  pub rounding : Idr
  pub claims : List Claim

abbrev pub is_live : Option ℕ → Bool
is_live none = true
is_live (some at) = false

-- The key of the unique index, `(claim_date, suffix) WHERE released_at IS NULL`.
abbrev pub holds : ℕ → ℕ → Claim → Bool
holds date suffix c = c.claim_date == date && c.suffix == suffix && is_live c.released_at

unfoldable pub taken : ℕ → ℕ → List Claim → Bool
taken date suffix claims = ltb 0 (tally (holds date suffix) claims)

abbrev pub claim_of : ℕ → ℕ → ℕ → Claim
claim_of order_id date suffix = record {
  order_id = order_id;
  claim_date = date;
  suffix = suffix;
  released_at = none;
}

abbrev pub priced : ℕ → List Claim → Result OrderError (Idr × Idr) → Result ClaimError Claimed
priced suffix claims (ok (amount, rounding)) =
    ok (record { suffix = suffix; amount = amount; rounding = rounding; claims = claims })
priced suffix claims (err e) = err (of_amount e)

-- The loop, with the attempts left and the number of the next draw.
unfoldable pub claim_loop :
    (ℕ → Option ℕ) → ℕ → ℕ → Idr → List Claim → ℕ → ℕ → Result ClaimError Claimed
claim_loop draw order_id today total claims attempt zero = err no_free_suffix
claim_loop draw order_id today total claims attempt (suc left) =
    let rest = claim_loop draw order_id today total claims (suc attempt) left in
    elim (draw attempt) [
      | none ↦ err random_failed
      | some suffix ↦
          if taken today suffix claims
          then rest
          else priced suffix (claims ++ claim_of order_id today suffix ∷ [])
              (payment_amount total (pos suffix))
    ]

unfoldable pub claim_suffix : (ℕ → Option ℕ) → ℕ → ℕ → Idr → List Claim → Result ClaimError Claimed
claim_suffix draw order_id today total claims = claim_loop draw order_id today total claims 0 40
