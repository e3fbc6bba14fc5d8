-- ===== src/Ordering/CreditPlacements.antt =====
-- The checkout of a basket that is paid with the last two credits of a package.
use mathlib.Core.List.Perm
use evermore.Base.{◌⊎◌, err, List, ℕ, ◌+◌, ◌≡◌, refl, arith, [], ◌∷◌, Option, none, some, ok}
use evermore.Int64.{pos, negsuc, to_word, of_word, ◌+ℤ◌, ◌-ℤ◌}
use evermore.Credit.{Entry, purchase, redeem, redeem_loop, redeem_entry, balance, balance_from}
use evermore.Credit
use evermore.Routing.{assign, rank, before, reachable}
use evermore.Sorting.{sort}
use evermore.Ordering.Spending.{unusable, pay, spend_one, spend_line, spend_lines, spend_credits}
use evermore.Ordering.Reservation.{
  delivery_of, delivery_line_of, reserve_and_route, walk, room, take,
}
use evermore.Ordering.Orders.{
  CustomerPackage, Db, Placed, OrderingError, existing, place_lines, parse_hhmm, before_cut_off,
  check_cut_off,
}
use evermore.Ordering.Checkout.{CheckoutInput, address}
use evermore.Ordering.CreditCheckout.{
  MealRow, CreditLine, CreditCall, credit_lines, meals_from, credit_quote, credit_order_of,
  credit_line_of, credit_placement_of, spendable, lock_spendable_packages, mark_exhausted,
  write_ledger, place_paid, credit_tx, checkout_with_credits,
}
use evermore.Ordering.CreditCheckout.Spent.{IsSpent, credit_checkout_spends}
use evermore.Ordering.CreditCheckout.Retry.{credit_checks, credit_checkout_retry}
use evermore.Ordering.Baskets.{items, kitchen, quota}
use evermore.Ordering.Placements.{call, untouched, cut_off, owners}

abbrev pub credit_call : CreditCall
credit_call = record {
  call = call;
  arrange = λ ls. ls;
  by_expiry = λ ps. ps;
  entry_id = λ n. 200 + n;
}

abbrev input : CheckoutInput
input = record {
  customer_id = 1;
  address_id = 4;
  items = items;
  courier_note = "";
  idempotency_key = "c";
}

abbrev bought : Entry
bought = record {
  id = 90;
  customer_id = 1;
  customer_package_id = 9;
  entry_type = purchase;
  qty = pos 2;
  reference_type = "customer_order";
  reference_id = some 5;
  occurred_at = 1;
  created_by = none;
  note = "";
}

abbrev used : ℕ → Entry
used n = record {
  id = n;
  customer_id = 1;
  customer_package_id = 9;
  entry_type = Credit.redeemed;
  qty = negsuc 0;
  reference_type = "customer_order";
  reference_id = some 6;
  occurred_at = 100;
  created_by = none;
  note = "";
}

abbrev owned : Credit.Status → CustomerPackage
owned s = record {
  row = record {
    id = 9;
    customer_id = 1;
    order_id = 5;
    meal_credits = pos 2;
    validity_days = 30;
    status = s;
    activated_at = some 1;
    expires_at = some 40;
  };
  package_id = 8;
  package_number = "PKG-1";
  price_paid_idr = pos 80000;
}

abbrev pub funded : Db
funded = record untouched { packages = owned Credit.active ∷ []; ledger = bought ∷ [] }

abbrev pub published : ℕ → Option MealRow
published id = some (record { service_date = 20; slot_id = 2; diet_type_id = 5 })

abbrev line : CreditLine
line = record {
  scheduled_meal_id = 3;
  service_date = 20;
  qty = pos 2;
  slot_id = 2;
  diet_type_id = 5;
}

abbrev placed : Placed
placed = record {
  order_id = 6;
  order_number = "EVM-6";
  db = record funded {
    orders = credit_order_of call input ∷ [];
    order_lines = credit_line_of call 0 line ∷ [];
    tables = record {
      capacities = quota 1 5 ∷ quota 2 6 ∷ [];
      deliveries =
          delivery_of (credit_placement_of call input 4 0 line) (assign 2 (kitchen 2)) ∷ [];
      delivery_lines = delivery_line_of (credit_placement_of call input 4 0 line) ∷ [];
    };
    packages = owned Credit.exhausted ∷ [];
    ledger = bought ∷ used 200 ∷ used 201 ∷ [];
  };
}

is_none : existing 1 "c" [] ≡ none
unfolding existing
is_none = refl

checks_out : checkout_with_credits published cut_off owners credit_call input funded ≡ ok placed
unfolding checkout_with_credits credit_quote credit_lines meals_from check_cut_off before_cut_off
    parse_hhmm address credit_tx existing place_paid lock_spendable_packages spendable spend_credits
    spend_lines spend_line spend_one pay unusable redeem redeem_loop balance balance_from
    write_ledger mark_exhausted place_lines reserve_and_route walk room take rank reachable sort
    before ◌+ℤ◌ ◌-ℤ◌ to_word of_word
checks_out = refl

credit_checkout_spends_example :
    (a : ℕ) × (address owners 1 4 ≡ ok a)
    × IsSpent credit_call input a
        (credit_quote published funded.ledger 1 items).lines
        funded
        placed.db
credit_checkout_spends_example =
    credit_checkout_spends published cut_off owners credit_call input funded placed
      (λ xs. Perm.refl xs) (λ xs. Perm.refl xs) ((λ k e. ground (arith, e)), tt)
      (λ id. ground arith)
      (
        (
          ((λ _. refl), ((λ e. absurd (omega arith)), tt)),
          ((((λ e. absurd (omega arith)), ((λ _. refl), tt))), tt),
        ),
        (
          (5, 6, refl, refl, omega arith, omega arith),
          ((4, 6, refl, refl, omega arith, omega arith), tt),
        ),
      )
      is_none checks_out

answers_again :
    checkout_with_credits published cut_off owners credit_call input placed.db ≡ ok placed
unfolding checkout_with_credits credit_quote credit_lines meals_from check_cut_off before_cut_off
    parse_hhmm address credit_tx existing balance balance_from ◌+ℤ◌ ◌-ℤ◌ to_word of_word
answers_again = refl

credit_checkout_retry_example :
    ((p : List CreditLine × ℕ) × (credit_checks published cut_off owners call.now input
          placed.db.ledger
        ≡ ok p)
      × (checkout_with_credits published cut_off owners credit_call input placed.db ≡ ok placed))
    ⊎ ((e : OrderingError) × (credit_checks published cut_off owners call.now input placed.db.ledger
          ≡ err e)
        × (checkout_with_credits published cut_off owners credit_call input placed.db ≡ err e))
credit_checkout_retry_example =
    credit_checkout_retry published cut_off owners credit_call input funded placed refl checks_out
      published cut_off owners credit_call input refl refl
