-- ===== src/Pricing/Tiers.antt =====
-- `ValidateTiers` and `findTier`.
use evermore.Base.{
  ℕ, zero, suc, ◌+◌, ◌≤◌, ◌<◌, ◌≡◌, refl, ◌≢◌, ◌↔◌, inl, inr, arith, true, false, List, [], ◌∷◌,
  none, some, ok, tally, Any,
}
use evermore.Int64.{ℤ, pos}
use evermore.Pricing.{Tier, contains, find_tier, matches, validate_from, validate_tiers}

validate_from_sound :
    (tiers : List Tier) (qty n q : ℕ)
    → validate_from tiers qty n ≡ ok tt
    → qty ≤ q
    → q < qty + n
    → matches tiers q ≡ 1
unfolding validate_from
validate_from_sound tiers qty zero q h a b = absurd (omega arith)
validate_from_sound tiers qty (suc n) q h a b =
    ground (arith, validate_from_sound tiers (suc qty) n q)

validate_from_complete :
    (tiers : List Tier) (qty n : ℕ)
    → ((q : ℕ) → qty ≤ q → q < qty + n → matches tiers q ≡ 1)
    → validate_from tiers qty n ≡ ok tt
unfolding validate_from
validate_from_complete tiers qty zero h = refl
validate_from_complete tiers qty (suc n) h =
    let rest : validate_from tiers (suc qty) n ≡ ok tt =
      validate_from_complete tiers (suc qty) n (λ q a b. h q (omega arith) (omega arith)) in
    ground (arith, h qty, rest)

-- A tier set passes the validation exactly when it is not empty and every quantity from 1 to the
-- maximum falls in exactly one tier: no gap and no overlap.
pub validate_tiers_iff :
    (tiers : List Tier) (max : ℕ)
    → (validate_tiers tiers (pos max) ≡ ok tt)
      ↔ ((tiers ≢ []) × ((q : ℕ) → 1 ≤ q → q ≤ max → matches tiers q ≡ 1))
unfolding validate_tiers
validate_tiers_iff [] max = (λ h. cc, λ h. absurd (h.0 refl))
validate_tiers_iff (t ∷ tiers) max = (
  λ h. (λ e. cc, λ q a b. validate_from_sound (t ∷ tiers) 1 max q h a (omega arith)),
  λ h. validate_from_complete (t ∷ tiers) 1 max (λ q a b. h.1 q a (omega arith)),
)

no_other :
    (tiers : List Tier) (qty : ℤ) (t : Tier)
    → tally (λ x. contains x qty) tiers ≡ 0
    → Any (λ x. x ≡ t) tiers
    → contains t qty ≡ false
no_other (x ∷ tiers) qty t h (inl e) = ground arith
no_other (x ∷ tiers) qty t h (inr m) = no_other tiers qty t (omega arith) m
no_other [] qty t h m = absurd m

-- Where a quantity falls in exactly one tier, that tier is found, wherever it stands in the list.
find_tier_unique :
    (tiers : List Tier) (qty : ℤ) (t : Tier)
    → tally (λ x. contains x qty) tiers ≡ 1
    → Any (λ x. x ≡ t) tiers
    → contains t qty ≡ true
    → find_tier tiers qty ≡ some t
unfolding find_tier
find_tier_unique [] qty t h m c = absurd m
find_tier_unique (x ∷ tiers) qty t h (inl e) c = ground arith
find_tier_unique (x ∷ tiers) qty t h (inr m) c =
    ground (arith, no_other tiers qty t, find_tier_unique tiers qty t)

find_tier_sound :
    (tiers : List Tier) (qty : ℤ) (t : Tier) → find_tier tiers qty ≡ some t → contains t qty ≡ true
unfolding find_tier
find_tier_sound [] qty t h = cc
find_tier_sound (x ∷ tiers) qty t h = ground (arith, find_tier_sound tiers qty t)

pub find_tier_total :
    (tiers : List Tier) (qty : ℤ)
    → 1 ≤ tally (λ x. contains x qty) tiers
    → find_tier tiers qty ≢ none
unfolding find_tier
find_tier_total [] qty h e = omega arith
find_tier_total (x ∷ tiers) qty h e = ground (arith, find_tier_total tiers qty)
