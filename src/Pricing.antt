-- ===== src/Pricing.antt =====
-- internal/domain/pricing/resolver.go: quantity tiers, price rows and the price resolver. How an
-- identifier and a date are written out is a parameter (`Rendering`).
pub mod Tiers
pub mod Candidates
pub mod Resolution
mod Examples
use Prim.Native.String.{String}
use Prim.Native.String.{◌++◌ as concat}
use evermore.Base.{
  ℕ, zero, suc, ◌==◌, ltb, ◌≡◌, Bool, true, false, not, ◌&&◌, ◌||◌, List, [], ◌∷◌, Option, none,
  some, if◌then◌else◌, Result, ok, err, refuse, ◌>>=◌, ◌>>◌, tally,
}
use evermore.Int64.{ℤ, pos, negsuc, ◌<ℤ◌, ◌≤ℤ◌}
use evermore.Text.{text_eq}
use evermore.Money.{Idr}

pub data Table : Type 0 where
  meal_normal meal_promo package_normal package_promo : Table

pub data PricingError : Type 0 where
  price_not_configured no_tier qty_not_positive no_tiers : PricingError
  uncovered : ℕ → PricingError
  overlap : ℕ → ℕ → PricingError

-- uuid.UUID.String and the date layout of time.Time.Format.
pub record Rendering : Type 0 where
  pub id_text : ℕ → String
  pub date_text : ℕ → String

abbrev pub scope_default : String
scope_default = "DEFAULT"

unfoldable pub scope_for_customer_type : Rendering → ℕ → String
scope_for_customer_type show id = concat "CT:" (show.id_text id)

pub record Tier : Type 0 where
  pub id : ℕ
  pub min_qty : ℤ
  pub max_qty : Option ℤ

abbrev pub above : ℤ → Option ℤ → Bool
above qty none = false
above qty (some max) = max <ℤ qty

unfoldable pub contains : Tier → ℤ → Bool
contains t qty = if qty <ℤ t.min_qty then false else if above qty t.max_qty then false else true

pub record Row : Type 0 where
  pub id : ℕ
  pub table : Table
  pub scope_key : String
  pub diet_type_id : ℕ
  pub tier_id : ℕ
  pub unit_price_idr : Idr
  pub valid_from : ℕ
  pub valid_to : Option ℕ
  pub promo_label : String
  pub is_active : Bool

abbrev pub ended : ℕ → Option ℕ → Bool
ended d none = false
ended d (some to) = not (ltb d to)

unfoldable covers_date : Row → ℕ → Bool
covers_date r d = if ltb d r.valid_from then false else if ended d r.valid_to then false else true

pub record Request : Type 0 where
  pub customer_type_id : ℕ
  pub diet_type_id : ℕ
  pub qty : ℤ
  pub order_date : ℕ

pub record Trace : Type 0 where
  pub scope_matched : String
  pub table : Table
  pub tier_id : ℕ
  pub tier_min_qty : ℤ
  pub tier_max_qty : Option ℤ
  pub row_id : ℕ
  pub promo_applied : Bool
  pub promo_label : String
  pub qty : ℤ
  pub order_date : String

pub record Resolved : Type 0 where
  pub unit_price_idr : Idr
  pub trace : Trace

unfoldable pub resolved : Rendering → Row → Tier → Request → Bool → Resolved
resolved show r tier req is_promo = record {
  unit_price_idr = r.unit_price_idr;
  trace = record {
    scope_matched = r.scope_key;
    table = r.table;
    tier_id = tier.id;
    tier_min_qty = tier.min_qty;
    tier_max_qty = tier.max_qty;
    row_id = r.id;
    promo_applied = is_promo;
    promo_label = r.promo_label;
    qty = req.qty;
    order_date = show.date_text req.order_date;
  };
}

abbrev pub is_promo_table : Table → Bool
is_promo_table meal_promo = true
is_promo_table package_promo = true
is_promo_table _ = false

-- The test of the loop of `candidates`: a row that fails it is passed over.
unfoldable pub passed_over : String → Request → ℕ → Row → Bool
unfolding covers_date
passed_over scope req tier_id r =
    not r.is_active
    || not (text_eq r.scope_key scope)
    || not (r.diet_type_id == req.diet_type_id)
    || not (r.tier_id == tier_id)
    || not (covers_date r req.order_date)

-- The loop of `candidates`: the last normal row and the last promo row that pass the test.
unfoldable pub candidates_from :
    Option Row × Option Row → List Row → String → Request → ℕ → Option Row × Option Row
candidates_from found [] scope req tier_id = found
candidates_from (normal, promo) (r ∷ rows) scope req tier_id =
    let found' : Option Row × Option Row =
      if passed_over scope req tier_id r
      then (normal, promo)
      else if is_promo_table r.table
      then (normal, some r)
      else (some r, promo) in
    candidates_from found' rows scope req tier_id

unfoldable pub candidates : List Row → String → Request → ℕ → Option Row × Option Row
unfolding candidates_from
candidates rows scope req tier_id = candidates_from (none, none) rows scope req tier_id

unfoldable pub find_tier : List Tier → ℤ → Option Tier
find_tier [] qty = none
find_tier (t ∷ tiers) qty = if contains t qty then some t else find_tier tiers qty

-- One scope: its promo row if it has one, else its normal row.
unfoldable pub pick : Rendering → Tier → Request → Option Row × Option Row → Option Resolved
pick show tier req (normal, some r) = some (resolved show r tier req true)
pick show tier req (some r, none) = some (resolved show r tier req false)
pick show tier req (none, none) = none

-- The loop over the scopes.
unfoldable pub resolve_scopes :
    Rendering → Tier → Request → List Row → List String → Result PricingError Resolved
resolve_scopes show tier req rows [] = err price_not_configured
resolve_scopes show tier req rows (scope ∷ scopes) =
    elim (pick show tier req (candidates rows scope req tier.id)) [
      | some r ↦ ok r
      | none ↦ resolve_scopes show tier req rows scopes
    ]

abbrev pub scopes_of : Rendering → Request → List String
scopes_of show req = scope_for_customer_type show req.customer_type_id ∷ scope_default ∷ []

unfoldable pub resolve : Rendering → Request → List Tier → List Row → Result PricingError Resolved
resolve show req tiers rows = do
  refuse (req.qty ≤ℤ pos 0) qty_not_positive
  elim (find_tier tiers req.qty) [
    | none ↦ err no_tier
    | some tier ↦ resolve_scopes show tier req rows (scopes_of show req)
  ]

abbrev pub matches : List Tier → ℕ → ℕ
matches tiers qty = tally (λ t. contains t (pos qty)) tiers

-- The loop of `ValidateTiers`, from a quantity, with the number of rounds left.
unfoldable pub validate_from : List Tier → ℕ → ℕ → Result PricingError (Unit {0})
validate_from tiers qty zero = ok tt
validate_from tiers qty (suc n) = do
  refuse (matches tiers qty == 0) (uncovered qty)
  refuse (ltb 1 (matches tiers qty)) (overlap (matches tiers qty) qty)
  validate_from tiers (suc qty) n

-- The rounds of `for qty := 1; qty <= maxQty; qty++`.
abbrev up_to : ℤ → ℕ
up_to (pos n) = n
up_to (negsuc n) = 0

unfoldable pub validate_tiers : List Tier → ℤ → Result PricingError (Unit {0})
unfolding validate_from
validate_tiers [] max_qty = err no_tiers
validate_tiers (t ∷ tiers) max_qty = validate_from (t ∷ tiers) 1 (up_to max_qty)
