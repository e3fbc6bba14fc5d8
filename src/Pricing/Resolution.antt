-- ===== src/Pricing/Resolution.antt =====
-- `Resolve`: the scope before the promo, and the promo before the normal price.
use Prim.Native.String.{String}
use evermore.Base.{
  ℕ, ◌≤◌, ◌≡◌, refl, ◌≢◌, ◌⊎◌, inl, inr, arith, Bool, true, false, List, [], ◌∷◌, Option, none,
  some, All, Any, ok, err, Option-cases,
}
use evermore.Int64.{pos, ◌≤ℤ◌}
use evermore.Pricing.{
  Rendering, Row, Tier, Request, Resolved, price_not_configured, no_tier, qty_not_positive,
  resolved, is_promo_table, candidates, find_tier, pick, resolve_scopes, resolve, scopes_of,
  scope_default, scope_for_customer_type, validate_tiers,
}
use evermore.Pricing.Tiers.{validate_tiers_iff, find_tier_total}
use evermore.Pricing.Candidates.{
  Applies, passed_over_iff, last_where, is_candidate, candidates_lem, last_where-some,
  last_where-none,
}

-- No row applies in a scope.
abbrev pub NoneApplies : String → Request → ℕ → List Row → Type 0
NoneApplies scope req tier_id = All (λ x. ¬ Applies scope req tier_id x)

-- The outcome is the price of a row that applies in the scope, and a normal row is taken only if no
-- promo row applies in that scope.
pub record Chosen (show : Rendering) (scope : String) (req : Request) (tier : Tier)
    (rows : List Row) (out : Resolved) : Type 0 where
  pub row : Row
  pub listed : Any (λ x. x ≡ row) rows
  pub applies : Applies scope req tier.id row
  pub outcome : out ≡ resolved show row tier req (is_promo_table row.table)
  pub promo_first :
      is_promo_table row.table ≡ false
      → All (λ x. Applies scope req tier.id x → is_promo_table x.table ≡ false) rows

module _ (show : Rendering) (scope : String) (req : Request) (tier : Tier) where
  candidate-Applies :
      (kind : Bool) (r : Row)
      → is_candidate kind scope req tier.id r ≡ true
      → Applies scope req tier.id r × (is_promo_table r.table ≡ kind)
  candidate-Applies true r h =
      ((passed_over_iff scope req tier.id r).0 (ground arith), ground arith)
  candidate-Applies false r h =
      ((passed_over_iff scope req tier.id r).0 (ground arith), ground arith)

  no_promo :
      (rows : List Row)
      → All (λ x. is_candidate true scope req tier.id x ≡ false) rows
      → All (λ x. Applies scope req tier.id x → is_promo_table x.table ≡ false) rows
  no_promo [] all = tt
  no_promo (x ∷ rows) (h, all) =
      ((λ a. ground (arith, (passed_over_iff scope req tier.id x).1 a)), no_promo rows all)

  none_applies :
      (rows : List Row)
      → All (λ x. is_candidate false scope req tier.id x ≡ false) rows
      → All (λ x. is_candidate true scope req tier.id x ≡ false) rows
      → NoneApplies scope req tier.id rows
  none_applies [] n p = tt
  none_applies (x ∷ rows) (hn, n) (hp, p) =
      ((λ a. ground (arith, (passed_over_iff scope req tier.id x).1 a)), none_applies rows n p)

  -- What one scope offers.
  abbrev Offers : List Row → Option Resolved → Type 0
  Offers rows offer =
      ((out : Resolved) × (offer ≡ some out) × Chosen show scope req tier rows out)
      ⊎ ((offer ≡ none) × NoneApplies scope req tier.id rows)

  found_row :
      (kind : Bool) (rows : List Row) (r : Row)
      → last_where (is_candidate kind scope req tier.id) none rows ≡ some r
      → Any (λ x. x ≡ r) rows × Applies scope req tier.id r × (is_promo_table r.table ≡ kind)
  found_row kind rows r h = elim (last_where-some _ none rows r h) [
    | inl e ↦ cc
    | inr (m, t) ↦ let (a, k) = candidate-Applies kind r t in (m, a, k)
  ]

  pick_of :
      (rows : List Row) (n p : Option Row)
      → last_where (is_candidate false scope req tier.id) none rows ≡ n
      → last_where (is_candidate true scope req tier.id) none rows ≡ p
      → Offers rows (pick show tier req (n, p))
  unfolding pick
  pick_of rows n (some r) hn hp =
      let (m, a, k) = found_row true rows r hp in
      inl (
        resolved show r tier req true,
        refl,
        record { row = r; listed = m; applies = a; outcome = rw k; promo_first = λ f. cc },
      )
  pick_of rows (some r) none hn hp =
      let (m, a, k) = found_row false rows r hn in
      inl (
        resolved show r tier req false,
        refl,
        record {
          row = r;
          listed = m;
          applies = a;
          outcome = rw k;
          promo_first = λ _. no_promo rows (last_where-none _ none rows hp).1;
        },
      )
  pick_of rows none none hn hp = inr (
    refl,
    none_applies rows (last_where-none _ none rows hn).1 (last_where-none _ none rows hp).1,
  )

  pick_cases :
      (rows : List Row) → Offers rows (pick show tier req (candidates rows scope req tier.id))
  pick_cases rows = rw (candidates_lem rows scope req tier.id) (pick_of rows _ _ refl refl)

-- For a positive quantity that falls in a tier, one of three cases holds. A row applies in the scope
-- of the customer type, and the price is that of such a row; or none does, one applies in the
-- default scope, and the price is that of such a row; or no row applies in either scope, and the
-- answer is PRICE_NOT_CONFIGURED. In its scope a normal row is taken only if no promo row applies.
pub resolve_cases :
    (show : Rendering) (req : Request) (tiers : List Tier) (rows : List Row) (tier : Tier)
    → (req.qty ≤ℤ pos 0) ≡ false
    → find_tier tiers req.qty ≡ some tier
    → let own = scope_for_customer_type show req.customer_type_id in
      ((out : Resolved) × (resolve show req tiers rows ≡ ok out)
        × Chosen show own req tier rows out)
      ⊎ (((out : Resolved) × (resolve show req tiers rows ≡ ok out)
            × NoneApplies own req tier.id rows
            × Chosen show scope_default req tier rows out)
          ⊎ ((resolve show req tiers rows ≡ err price_not_configured)
              × NoneApplies own req tier.id rows
              × NoneApplies scope_default req tier.id rows))
unfolding resolve resolve_scopes
resolve_cases show req tiers rows tier q t =
    let own = scope_for_customer_type show req.customer_type_id in
    elim (pick_cases show own req tier rows) [
      | inl (out, e, c) ↦ inl (out, ground arith, c)
      | inr (e, empty) ↦ elim (pick_cases show scope_default req tier rows) [
        | inl (out, d, c) ↦ inr (inl (out, ground arith, empty, c))
        | inr (d, bare) ↦ inr (inr (ground arith, empty, bare))
      ]
    ]

-- The other answers: a quantity that is not positive, or one in no tier, is refused.
resolve_refused :
    (show : Rendering) (req : Request) (tiers : List Tier) (rows : List Row)
    → (((req.qty ≤ℤ pos 0) ≡ true) → resolve show req tiers rows ≡ err qty_not_positive)
      × (((req.qty ≤ℤ pos 0) ≡ false)
          → find_tier tiers req.qty ≡ none
          → resolve show req tiers rows ≡ err no_tier)
unfolding resolve
resolve_refused show req tiers rows = (λ h. ground arith, λ h n. ground arith)

resolve_scopes-ne-no_tier :
    (show : Rendering) (tier : Tier) (req : Request) (rows : List Row) (scopes : List String)
    → resolve_scopes show tier req rows scopes ≢ err no_tier
unfolding resolve_scopes
resolve_scopes-ne-no_tier show tier req rows [] h = cc
resolve_scopes-ne-no_tier show tier req rows (s ∷ scopes) h =
    ground (arith, resolve_scopes-ne-no_tier show tier req rows scopes)

-- With a tier set that the validation accepts, no quantity from 1 to the maximum meets the missing
-- tier error at checkout.
resolve_validated :
    (show : Rendering) (req : Request) (tiers : List Tier) (rows : List Row) (max q : ℕ)
    → validate_tiers tiers (pos max) ≡ ok tt
    → req.qty ≡ pos q
    → 1 ≤ q
    → q ≤ max
    → resolve show req tiers rows ≢ err no_tier
unfolding resolve
resolve_validated show req tiers rows max q v e low high h =
    let once = ((validate_tiers_iff tiers max).0 v).1 q low high in
    elim (Option-cases (find_tier tiers (pos q))) [
      | inl n ↦ find_tier_total tiers (pos q) (omega arith) n
      | inr (t, found) ↦
          resolve_scopes-ne-no_tier show t req rows (scopes_of show req) (ground arith)
    ]
