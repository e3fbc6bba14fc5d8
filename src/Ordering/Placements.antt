-- ===== src/Ordering/Placements.antt =====
-- The checkout of a basket: an order is placed, and the retry answers with it.
use evermore.Base.{◌⊎◌, err, ℕ, ◌+◌, ◌*◌, ◌≡◌, refl, arith, List, [], ◌∷◌, none, some, ok}
use evermore.Int64.{pos, to_word, of_word, ◌+ℤ◌, ◌-ℤ◌, ◌*ℤ◌, ◌/ℤ◌}
use evermore.Payments.Rows.{pending}
use evermore.Ordering.Quotes.{QuoteLine}
use evermore.Ordering.Orders.{with_amount}
use evermore.Order.{payment_amount}
use evermore.Money.{mul, sum, sum_from, split_inclusive, sum_splits, sum_splits_from, add_split}
use evermore.Pricing.{
  contains, passed_over, candidates, find_tier, pick, resolved, resolve_scopes, resolve,
  validate_tiers, scope_for_customer_type,
}
use evermore.Routing.{assign, rank, before, reachable}
use evermore.Sorting.{sort}
use evermore.Ordering.Quotes.{
  Quote, total_qty_from, price_line, price_lines, deliveries_of, fee_splits, subtotal_from, settle,
  next_minimum, quote,
}
use evermore.Ordering.Suffixes.{Claimed, claim_of, claim_suffix, claim_loop, taken}
use evermore.Ordering.Reservation.{
  delivery_of, delivery_line_of, reserve_and_route, walk, room, take,
}
use evermore.Ordering.Orders.{
  Call, CutOff, Db, Placed, OrderingError, existing, insert_order, place_lines, open_payment,
  parse_hhmm, before_cut_off, check_cut_off,
}
use evermore.Ordering.Checkout.{
  CheckoutInput, order_of, order_line_of, placement_of, place, checkout_tx, address, checkout,
}
use evermore.Ordering.Checkout.Retry.{checks, checkout_retry}
use evermore.Ordering.Checkout.Placing.{IsPlaced, checkout_places}
use evermore.Ordering.Baskets.{
  reads, items, priced, kitchens, draw, quota, kitchen, resolution, split_of, draw-Draws,
}

abbrev pub call : Call
call = record {
  now = 100;
  today = 8;
  deadline = 500;
  order_id = 6;
  order_number = "EVM-6";
  line_id = λ n. 60 + n;
  delivery_id = λ n i. 100 + i;
  delivery_number = λ n. "DLV-1";
  payment_id = 70;
  draw = draw;
  bank = some 2;
  candidates = λ p t. kitchens;
}

abbrev input : CheckoutInput
input = record {
  customer_id = 1;
  address_id = 4;
  items = items;
  courier_note = "";
  idempotency_key = "k";
}

abbrev pub untouched : Db
untouched = record {
  orders = [];
  order_lines = [];
  claims = [];
  tables = record { capacities = quota 1 5 ∷ quota 2 4 ∷ []; deliveries = []; delivery_lines = [] };
  payments = [];
  events = [];
  packages = [];
  ledger = [];
}

abbrev pub cut_off : CutOff
cut_off = record { scanned = some (pos 17, pos 0); instant = λ d h m. 1000 * d }

abbrev pub owners : List (ℕ × ℕ)
owners = (3, 2) ∷ (4, 1) ∷ []

abbrev pub due : Claimed
due = record {
  suffix = 123;
  amount = pos 100123;
  rounding = pos 123;
  claims = claim_of 6 8 123 ∷ [];
}

abbrev line : QuoteLine
line = record {
  scheduled_meal_id = 3;
  meal_name = "Nasi";
  service_date = 20;
  slot_time = "12.00";
  diet_name = "Sehat";
  diet_slug = "sehat";
  qty = pos 2;
  unit_price = pos 45000;
  normal_price = pos 45000;
  line_total = pos 90000;
  line_tax = split_of 90000;
  trace = resolution.trace;
  slot_id = 2;
  diet_type_id = 5;
}

abbrev placed : Placed
placed = record {
  order_id = 6;
  order_number = "EVM-6";
  db = record {
    orders = with_amount due (order_of call input priced) ∷ [];
    order_lines = order_line_of call 0 line ∷ [];
    claims = due.claims;
    tables = record {
      capacities = quota 1 5 ∷ quota 2 6 ∷ [];
      deliveries = delivery_of (placement_of call input 4 0 line) (assign 2 (kitchen 2)) ∷ [];
      delivery_lines = delivery_line_of (placement_of call input 4 0 line) ∷ [];
    };
    payments =
        record {
          id = 70;
          order_id = 6;
          bank_account_id = 2;
          status = pending;
          expected_amount_idr = pos 100123;
        }
        ∷ [];
    events = record { payment_id = 70; to_status = pending; reason = "order placed" } ∷ [];
    packages = [];
    ledger = [];
  };
}

is_placed : checkout_tx call input 4 priced untouched ≡ ok placed
unfolding checkout_tx place existing insert_order place_lines open_payment claim_suffix claim_loop
    taken payment_amount reserve_and_route walk room take rank reachable sort before ◌+ℤ◌ ◌-ℤ◌ ◌*ℤ◌
    ◌/ℤ◌ to_word of_word
is_placed = refl

is_none : existing 1 "k" [] ≡ none
unfolding existing
is_none = refl

checkout_places_example : IsPlaced call input 4 100000 priced untouched placed.db
checkout_places_example =
    checkout_places call input 4 100000 priced untouched placed draw-Draws refl (omega arith)
      ((2, refl, omega arith), tt)
      (
        (
          ((λ _. refl), ((λ e. absurd (omega arith)), tt)),
          ((((λ e. absurd (omega arith)), ((λ _. refl), tt))), tt),
        ),
        (
          (5, 6, refl, refl, omega arith, omega arith),
          ((4, 6, refl, refl, omega arith, omega arith), tt),
        ),
      )
      is_none is_placed

checks_out : checkout reads cut_off owners call input untouched ≡ ok placed
unfolding checkout address check_cut_off before_cut_off parse_hhmm quote total_qty_from price_line
    price_lines deliveries_of fee_splits subtotal_from settle next_minimum mul sum split_inclusive
    sum_splits sum_splits_from add_split sum_from resolve resolve_scopes find_tier contains
    candidates passed_over pick resolved scope_for_customer_type validate_tiers checkout_tx place
    existing insert_order place_lines open_payment claim_suffix claim_loop taken payment_amount
    reserve_and_route walk room take rank reachable sort before ◌+ℤ◌ ◌-ℤ◌ ◌*ℤ◌ ◌/ℤ◌ to_word of_word
checks_out = refl

answers_again : checkout reads cut_off owners call input placed.db ≡ ok placed
unfolding checkout address check_cut_off before_cut_off parse_hhmm quote total_qty_from price_line
    price_lines deliveries_of fee_splits subtotal_from settle next_minimum mul sum split_inclusive
    sum_splits sum_splits_from add_split sum_from resolve resolve_scopes find_tier contains
    candidates passed_over pick resolved scope_for_customer_type validate_tiers checkout_tx existing
    ◌+ℤ◌ ◌-ℤ◌ ◌*ℤ◌ ◌/ℤ◌ to_word of_word
answers_again = refl

checkout_retry_example :
    ((p : Quote × ℕ) × (checks reads cut_off owners call.now input ≡ ok p)
      × (checkout reads cut_off owners call input placed.db ≡ ok placed))
    ⊎ ((e : OrderingError) × (checks reads cut_off owners call.now input ≡ err e)
        × (checkout reads cut_off owners call input placed.db ≡ err e))
checkout_retry_example =
    checkout_retry reads cut_off owners call input untouched placed refl checks_out reads cut_off
      owners call input refl refl
