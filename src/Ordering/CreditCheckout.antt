-- ===== src/Ordering/CreditCheckout.antt =====
-- `CreditQuoteFor`, `lockSpendablePackages`, `writeLedger` and `CheckoutWithCredits` of
-- internal/app/ordering/credits.go: a basket is paid from the customer's packages.
pub mod Lines
pub mod Exhaustion
pub mod Holdings
pub mod Marks
pub mod Spent
pub mod Retry
use Prim.Native.String.{String}
use evermore.Base.{
  ℕ, zero, suc, ◌==◌, Bool, true, false, ◌&&◌, List, [], ◌∷◌, ◌++◌, Option, none, some,
  if◌then◌else◌, map, keep, Result, ok, err, refuse, ◌>>=◌, ◌>>◌, update, length,
}
use evermore.Int64.{ℤ, pos, ◌+ℤ◌, ◌-ℤ◌, ◌<ℤ◌, ◌≤ℤ◌, ◌==ℤ◌}
use evermore.Credit.{Entry, Package, balance}
use evermore.Credit
use evermore.Order
use evermore.Payments.Rows.{PackageRow}
use evermore.Ordering.Quotes.{CartItem}
use evermore.Ordering.Spending.{CreditPackage, spend_credits}
use evermore.Ordering.Spending
use evermore.Ordering.Reservation.{Placement}
use evermore.Ordering.Orders.{
  OrderRow, OrderLine, CustomerPackage, Db, Placed, OrderingError, Call, CutOff, of_spend,
  meal_order, basket_empty, pass, null_if_empty, existing, place_lines, check_cut_off,
}
use evermore.Ordering.Checkout.{CheckoutInput, address}

-- The columns of a published meal that the checkout reads, beside those that are only shown.
pub record MealRow : Type 0 where
  pub service_date : ℕ
  pub slot_id : ℕ
  pub diet_type_id : ℕ

-- One meal of the basket.
pub record CreditLine : Type 0 where
  pub scheduled_meal_id : ℕ
  pub service_date : ℕ
  pub qty : ℤ
  pub slot_id : ℕ
  pub diet_type_id : ℕ

pub record CreditQuote : Type 0 where
  pub lines : List CreditLine
  pub meals : ℤ
  pub balance : ℤ
  pub shortfall : ℤ

abbrev pub line_of : CartItem → MealRow → CreditLine
line_of it m = record {
  scheduled_meal_id = it.scheduled_meal_id;
  service_date = m.service_date;
  qty = it.qty;
  slot_id = m.slot_id;
  diet_type_id = m.diet_type_id;
}

-- The loop over the items: an item of no quantity or of a meal that is not published leaves the basket.
unfoldable pub credit_lines : (ℕ → Option MealRow) → List CartItem → List CreditLine
credit_lines published [] = []
credit_lines published (it ∷ items) =
    let rest = credit_lines published items in
    if it.qty ≤ℤ pos 0
    then rest
    else elim (published it.scheduled_meal_id) [ none ↦ rest | some m ↦ line_of it m ∷ rest ]

unfoldable pub meals_from : ℤ → List CreditLine → ℤ
meals_from total [] = total
meals_from total (l ∷ ls) = meals_from (total +ℤ l.qty) ls

unfoldable pub credit_quote : (ℕ → Option MealRow) → List Entry → ℕ → List CartItem → CreditQuote
credit_quote published ledger customer_id items =
    let lines = credit_lines published items in
    let meals = meals_from (pos 0) lines in
    let held = balance (keep (λ e. e.customer_id == customer_id) ledger) in
    record {
      lines = lines;
      meals = meals;
      balance = held;
      shortfall = if held <ℤ meals then meals -ℤ held else pos 0;
    }

-- What the call takes from outside beside the rest: the orders that the database and sort.Slice give,
-- and the identifiers of the entries.
pub record CreditCall : Type 0 where
  pub call : Call
  pub arrange : List Spending.CreditLine → List Spending.CreditLine
  pub by_expiry : List CreditPackage → List CreditPackage
  pub entry_id : ℕ → ℕ

abbrev pub is_active : Credit.Status → Bool
is_active s = elim s [
  | Credit.pending ↦ false
  | Credit.active ↦ true
  | Credit.exhausted ↦ false
  | Credit.lapsed ↦ false
  | Credit.cancelled ↦ false
]

-- A package with the entries of its ledger; the WHERE clause leaves those that are not the
-- customer's, not active, or without an expiry.
abbrev package_of : List Entry → PackageRow → ℕ → CreditPackage
package_of ledger p expires_at = record {
  pkg = record {
    id = p.id;
    customer_id = p.customer_id;
    meal_credits = p.meal_credits;
    expires_at = expires_at;
    status = p.status;
  };
  entries = keep (λ e. e.customer_package_id == p.id) ledger;
}

unfoldable pub spendable : ℕ → List Entry → List CustomerPackage → List CreditPackage
spendable customer_id ledger [] = []
spendable customer_id ledger (c ∷ cs) =
    let rest = spendable customer_id ledger cs in
    if c.row.customer_id == customer_id && is_active c.row.status
    then (elim c.row.expires_at [ none ↦ rest | some at ↦ package_of ledger c.row at ∷ rest ])
    else rest

unfoldable pub lock_spendable_packages : CreditCall → ℕ → Db → List CreditPackage
lock_spendable_packages c customer_id db = c.by_expiry (spendable customer_id db.ledger db.packages)

abbrev pub exhaust : CustomerPackage → CustomerPackage
exhaust c = record c { row = record c.row { status = Credit.exhausted } }

-- The loop over the packages, which marks those that have just run out.
unfoldable pub mark_exhausted : List CreditPackage → List CustomerPackage → List CustomerPackage
mark_exhausted [] rows = rows
mark_exhausted (cp ∷ packs) rows = mark_exhausted packs (
    if balance cp.entries ==ℤ pos 0
    then update (λ c. c.row.id == cp.pkg.id && is_active c.row.status) exhaust rows
    else rows)

unfoldable pub write_ledger : List Entry → List CreditPackage → Db → Db
write_ledger entries packs db = record db {
  ledger = db.ledger ++ entries;
  packages = mark_exhausted packs db.packages;
}

-- The order's INSERT: every amount is zero, and it is paid.
abbrev pub credit_order_of : Call → CheckoutInput → OrderRow
credit_order_of call i = record {
  id = call.order_id;
  order_number = call.order_number;
  customer_id = i.customer_id;
  order_type = meal_order;
  status = Order.paid;
  subtotal_idr = pos 0;
  delivery_fee_idr = pos 0;
  discount_idr = pos 0;
  total_idr = pos 0;
  tax_base_idr = pos 0;
  tax_idr = pos 0;
  tax_rate_bps = pos 0;
  payment_amount_idr = pos 0;
  payment_rounding_idr = pos 0;
  payment_deadline_at = none;
  idempotency_key = null_if_empty i.idempotency_key;
  notes = i.courier_note;
}

abbrev pub credit_line_of : Call → ℕ → CreditLine → OrderLine
credit_line_of call n l = record {
  id = call.line_id n;
  order_id = call.order_id;
  scheduled_meal_id = some l.scheduled_meal_id;
  package_id = none;
  qty = l.qty;
  unit_price_idr = pos 0;
  normal_price_idr = pos 0;
  line_total_idr = pos 0;
  line_tax_base_idr = pos 0;
  line_tax_idr = pos 0;
  is_promo = false;
  price_row_id = none;
  price_table = none;
}

abbrev pub credit_placement_of : Call → CheckoutInput → ℕ → ℕ → CreditLine → Placement
credit_placement_of call i address_id n l = record {
  order_id = call.order_id;
  line_id = call.line_id n;
  customer_id = i.customer_id;
  address_id = address_id;
  scheduled_meal_id = l.scheduled_meal_id;
  service_date = l.service_date;
  slot_id = l.slot_id;
  diet_type_id = l.diet_type_id;
  qty = l.qty;
  new_id = call.delivery_id n;
  number = call.delivery_number n;
}

abbrev pub credit_lines_from :
    Call → CheckoutInput → ℕ → ℕ → List CreditLine → List (OrderLine × Placement)
credit_lines_from call i address_id n [] = []
credit_lines_from call i address_id n (l ∷ ls) =
    (credit_line_of call n l, credit_placement_of call i address_id n l)
    ∷ credit_lines_from call i address_id (suc n) ls

-- What `spendCredits` reads of a line, and of the order.
abbrev pub demand_of : CreditLine → Spending.CreditLine
demand_of l = record { service_date = l.service_date; qty = l.qty }

abbrev pub spending_order : CreditCall → Spending.Order
spending_order c = record {
  order_id = c.call.order_id;
  now = c.call.now;
  actor = none;
  new_id = c.entry_id;
}

-- The transaction, where the key has no order yet.
unfoldable pub place_paid :
    CreditCall → CheckoutInput → ℕ → List CreditLine → Db → Result OrderingError Placed
place_paid c i address_id lines db = do
  let db1 = record db { orders = db.orders ++ credit_order_of c.call i ∷ [] }
  (packs, entries) ← pass of_spend (
      spend_credits c.arrange (spending_order c) (lock_spendable_packages c i.customer_id db1)
        (map demand_of lines))
  db2 ← place_lines c.call (credit_lines_from c.call i address_id 0 lines) db1
  ok (record {
    order_id = c.call.order_id;
    order_number = c.call.order_number;
    db = write_ledger entries packs db2;
  })

unfoldable pub credit_tx :
    CreditCall → CheckoutInput → ℕ → List CreditLine → Db → Result OrderingError Placed
credit_tx c i address_id lines db = elim (existing i.customer_id i.idempotency_key db.orders) [
  | some o ↦ ok (record { order_id = o.id; order_number = o.order_number; db = db })
  | none ↦ place_paid c i address_id lines db
]

unfoldable pub checkout_with_credits :
    (ℕ → Option MealRow)
    → CutOff
    → List (ℕ × ℕ)
    → CreditCall
    → CheckoutInput
    → Db
    → Result OrderingError Placed
checkout_with_credits published cut_off addresses c i db = do
  let q = credit_quote published db.ledger i.customer_id i.items
  refuse (length q.lines == 0) basket_empty
  check_cut_off cut_off c.call.now (map (λ l. l.service_date) q.lines)
  address_id ← address addresses i.customer_id i.address_id
  credit_tx c i address_id q.lines db
