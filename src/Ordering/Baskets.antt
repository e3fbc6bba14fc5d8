-- ===== src/Ordering/Baskets.antt =====
-- A basket of two meals for one delivery, the reservation of its portions, and the suffixes of two
-- orders.
use evermore.Base.{
  ℕ, zero, suc, ◌+◌, ◌≡◌, refl, arith, true, false, List, [], ◌∷◌, Option, none, some, ok, All,
  length,
}
use evermore.Int64.{pos, to_word, of_word, ◌+ℤ◌, ◌-ℤ◌, ◌*ℤ◌, ◌/ℤ◌}
use evermore.Money.{
  TaxSplit, mul, sum, sum_from, split_inclusive, sum_splits, sum_splits_from, add_split,
}
use evermore.Pricing.{
  Rendering, Tier, Row, Resolved, meal_normal, contains, passed_over, candidates, find_tier, pick,
  resolved, resolve_scopes, resolve, validate_tiers, scope_for_customer_type,
}
use evermore.Routing.{Candidate, Assignment, assign, before, reachable, rank}
use evermore.Sorting.{sort}
use evermore.Ordering.Quotes.{
  CartItem, MealRow, Quote, Reads, total_qty_from, price_line, price_lines, deliveries_of,
  fee_splits, subtotal_from, next_minimum, settle, quote,
}
use evermore.Ordering.Quotes.Reconciliation.{Reconciled, quote_reconciles}
use evermore.Ordering.Reservation.{
  CapacityRow, Tables, Placement, room, take, walk, request, reserve_and_route, delivery_of,
  delivery_line_of,
}
use evermore.Order.{payment_amount}
use evermore.Ordering.Suffixes.{Claimed, taken, claim_of, claim_loop, claim_suffix}
use evermore.Ordering.Suffixes.Distinct.{Draws}
use evermore.Ordering.Reservation.Capacity.{Within, reserve-Within}

abbrev any_tier : Tier
any_tier = record { id = 1; min_qty = pos 1; max_qty = none }

abbrev price : Row
price = record {
  id = 11;
  table = meal_normal;
  scope_key = "DEFAULT";
  diet_type_id = 5;
  tier_id = 1;
  unit_price_idr = pos 45000;
  valid_from = 0;
  valid_to = none;
  promo_label = "";
  is_active = true;
}

abbrev meal : MealRow
meal = record {
  name = "Nasi";
  service_date = 20;
  slot_id = 2;
  slot_time = "12.00";
  diet_type_id = 5;
  diet_name = "Sehat";
  diet_slug = "sehat";
}

abbrev pub show : Rendering
show = record { id_text = λ id. "42"; date_text = λ d. "2026-09-01" }

abbrev pub reads : Reads
reads = record {
  max_qty = pos 3;
  tax_bps = pos 0;
  customer_type_id = 42;
  tiers = any_tier ∷ [];
  meal_for_sale = λ id. some meal;
  price_rows = λ diet date. price ∷ [];
  per_delivery = pos 10000;
  today = 8;
  show = show;
}

abbrev pub items : List CartItem
items = record { scheduled_meal_id = 3; qty = pos 2 } ∷ []

abbrev pub split_of : ℕ → TaxSplit
split_of n = record { inclusive = pos n; base = pos n; tax = pos 0; rate_bps = pos 0 }

abbrev pub resolution : Resolved
resolution = record {
  unit_price_idr = pos 45000;
  trace = record {
    scope_matched = "DEFAULT";
    table = meal_normal;
    tier_id = 1;
    tier_min_qty = pos 1;
    tier_max_qty = none;
    row_id = 11;
    promo_applied = false;
    promo_label = "";
    qty = pos 2;
    order_date = "2026-09-01";
  };
}

abbrev pub priced : Quote
priced = record {
  lines =
      record {
        scheduled_meal_id = 3;
        meal_name = "Nasi";
        service_date = 20;
        slot_time = "12.00";
        diet_name = "Sehat";
        diet_slug = "sehat";
        qty = pos 2;
        unit_price = pos 45000;
        normal_price = pos 45000;
        line_total = pos 90000;
        line_tax = split_of 90000;
        trace = resolution.trace;
        slot_id = 2;
        diet_type_id = 5;
      }
      ∷ [];
  total_qty = pos 2;
  subtotal = pos 90000;
  delivery_fee = pos 10000;
  tax = split_of 100000;
  total = pos 100000;
  tax_rate_bps = pos 0;
  deliveries = 1;
  next_tier_qty = pos 0;
}

is_priced : quote reads items ≡ ok priced
unfolding quote total_qty_from price_line price_lines deliveries_of fee_splits subtotal_from settle
    next_minimum mul sum split_inclusive sum_splits sum_splits_from add_split sum_from resolve
    resolve_scopes find_tier contains candidates passed_over pick resolved scope_for_customer_type
    validate_tiers ◌+ℤ◌ ◌-ℤ◌ ◌*ℤ◌ ◌/ℤ◌ to_word of_word
is_priced = refl

quote_reconciles_example : Reconciled items priced
quote_reconciles_example = quote_reconciles reads items priced (omega arith) (omega arith) is_priced

abbrev pub kitchen : ℕ → Candidate
kitchen id = record {
  kitchen_id = id;
  code = b'K' ∷ id ∷ [];
  priority = pos id;
  distance_m = pos 900;
  has_polygon = false;
  inside_polygon = false;
  inside_radius = true;
  is_active = true;
  serves_slot = true;
  open_that_day = true;
  free_portions = pos 2;
}

abbrev pub quota : ℕ → ℕ → CapacityRow
quota id reserved = record {
  id = 50 + id;
  kitchen_id = id;
  service_date = 20;
  slot_id = 2;
  reserved_portions = pos reserved;
  max_portions = pos 6;
}

abbrev ids : ℕ → ℕ
ids i = 100 + i

abbrev placement : Placement
placement = record {
  order_id = 6;
  line_id = 61;
  customer_id = 1;
  address_id = 4;
  scheduled_meal_id = 3;
  service_date = 20;
  slot_id = 2;
  diet_type_id = 5;
  qty = pos 2;
  new_id = ids;
  number = "DLV-1";
}

abbrev pub kitchens : List Candidate
kitchens = kitchen 1 ∷ kitchen 2 ∷ []

abbrev ranking : List Assignment
ranking = assign 2 (kitchen 1) ∷ assign 2 (kitchen 2) ∷ []

-- The first kitchen filled up since it was ranked.
abbrev before_it : Tables
before_it = record { capacities = quota 1 5 ∷ quota 2 4 ∷ []; deliveries = []; delivery_lines = [] }

abbrev after_it : Tables
after_it = record {
  capacities = quota 1 5 ∷ quota 2 6 ∷ [];
  deliveries = delivery_of placement (assign 2 (kitchen 2)) ∷ [];
  delivery_lines = delivery_line_of placement ∷ [];
}

is_ranked : rank (request placement kitchens) ≡ ok ranking
unfolding rank reachable sort before
is_ranked = refl

takes_the_second : reserve_and_route placement kitchens before_it ≡ ok after_it
unfolding reserve_and_route walk room take rank reachable sort before ◌+ℤ◌ to_word of_word
takes_the_second = refl

reserve-Within_example :
    All Within after_it.capacities
    × (length after_it.deliveries ≡ 1)
    × (length after_it.delivery_lines ≡ 1)
reserve-Within_example =
    reserve-Within placement kitchens before_it after_it 2 refl (omega arith)
      (
        ((λ _. refl), ((λ e. absurd (omega arith)), tt)),
        ((((λ e. absurd (omega arith)), ((λ _. refl), tt))), tt),
      )
      (
        (5, 6, refl, refl, omega arith, omega arith),
        ((4, 6, refl, refl, omega arith, omega arith), tt),
      )
      takes_the_second

-- The source draws 123 twice, then 124.
abbrev pub draw : ℕ → Option ℕ
draw zero = some 123
draw (suc zero) = some 123
draw (suc (suc i)) = some 124

pub draw-Draws : Draws draw
draw-Draws zero s h = ground arith
draw-Draws (suc zero) s h = ground arith
draw-Draws (suc (suc i)) s h = ground arith

abbrev first_claim : Claimed
first_claim = record {
  suffix = 123;
  amount = pos 100123;
  rounding = pos 123;
  claims = claim_of 6 8 123 ∷ [];
}

abbrev second_claim : Claimed
second_claim = record {
  suffix = 124;
  amount = pos 100124;
  rounding = pos 124;
  claims = claim_of 6 8 123 ∷ claim_of 7 8 124 ∷ [];
}

first_granted : claim_suffix draw 6 8 (pos 100000) [] ≡ ok first_claim
unfolding claim_suffix claim_loop taken payment_amount ◌+ℤ◌ ◌-ℤ◌ ◌*ℤ◌ ◌/ℤ◌ to_word of_word
first_granted = refl

second_granted : claim_suffix draw 7 8 (pos 100000) first_claim.claims ≡ ok second_claim
unfolding claim_suffix claim_loop taken payment_amount ◌+ℤ◌ ◌-ℤ◌ ◌*ℤ◌ ◌/ℤ◌ to_word of_word
second_granted = refl
