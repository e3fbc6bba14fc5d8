-- ===== src/Pricing/Examples.antt =====
-- Three tiers, and a customer type whose normal price beats the default promo.
use Prim.Native.String.{String}
use evermore.Base.{
  ℕ, ◌≤◌, ◌≡◌, refl, ◌≢◌, ◌↔◌, ◌⊎◌, true, false, List, [], ◌∷◌, none, some, ok, err,
}
use evermore.Int64.{pos}
use evermore.Pricing.{
  Rendering, Tier, Row, Request, Resolved, Table, meal_normal, meal_promo, contains, passed_over,
  candidates, find_tier, pick, resolved, resolve_scopes, resolve, matches, validate_tiers,
  price_not_configured, scope_default, scope_for_customer_type,
}
use evermore.Pricing.Tiers.{validate_tiers_iff}
use evermore.Pricing.Resolution.{Chosen, NoneApplies, resolve_cases}

abbrev show : Rendering
show = record { id_text = λ id. "42"; date_text = λ d. "2026-09-01" }

abbrev small : Tier
small = record { id = 1; min_qty = pos 1; max_qty = some (pos 3) }

abbrev middle : Tier
middle = record { id = 2; min_qty = pos 4; max_qty = some (pos 9) }

abbrev large : Tier
large = record { id = 3; min_qty = pos 10; max_qty = none }

abbrev tiers : List Tier
tiers = small ∷ middle ∷ large ∷ []

abbrev row : ℕ → Table → String → ℕ → Row
row id table scope price = record {
  id = id;
  table = table;
  scope_key = scope;
  diet_type_id = 5;
  tier_id = 2;
  unit_price_idr = pos price;
  valid_from = 100;
  valid_to = some 200;
  promo_label = "";
  is_active = true;
}

abbrev rows : List Row
rows = row 11 meal_normal "CT:42" 40000 ∷ row 12 meal_promo "DEFAULT" 35000 ∷ []

abbrev order : Request
order = record { customer_type_id = 42; diet_type_id = 5; qty = pos 4; order_date = 199 }

abbrev priced : Resolved
priced = unfold resolved in resolved show (row 11 meal_normal "CT:42" 40000) middle order false

own_normal_beats_default_promo : resolve show order tiers rows ≡ ok priced
unfolding resolve resolve_scopes find_tier contains candidates passed_over pick resolved
    scope_for_customer_type
own_normal_beats_default_promo = refl

tiers_valid : validate_tiers tiers (pos 20) ≡ ok tt
unfolding validate_tiers contains
tiers_valid = refl

validate_tiers_iff_example :
    (validate_tiers tiers (pos 20) ≡ ok tt)
    ↔ ((tiers ≢ []) × ((q : ℕ) → 1 ≤ q → q ≤ 20 → matches tiers q ≡ 1))
validate_tiers_iff_example = validate_tiers_iff tiers 20

resolve_cases_example :
    let own = scope_for_customer_type show 42 in
    ((out : Resolved) × (resolve show order tiers rows ≡ ok out)
      × Chosen show own order middle rows out)
    ⊎ (((out : Resolved) × (resolve show order tiers rows ≡ ok out)
          × NoneApplies own order 2 rows
          × Chosen show scope_default order middle rows out)
        ⊎ ((resolve show order tiers rows ≡ err price_not_configured)
            × NoneApplies own order 2 rows
            × NoneApplies scope_default order 2 rows))
unfolding find_tier contains
resolve_cases_example = resolve_cases show order tiers rows middle refl refl
