-- ===== src/Ordering/Checkout.antt =====
-- `Checkout` of internal/app/ordering/ordering.go: a basket is priced, checked against the cut-off,
-- and placed in one transaction, to be paid by transfer.
pub mod Retry
pub mod Placing
use Prim.Native.String.{String}
use evermore.Base.{
  ℕ, zero, suc, ◌==◌, Bool, true, false, not, List, [], ◌∷◌, ◌++◌, Option, none, some, map, Result,
  ok, err, refuse, ◌>>=◌, ◌>>◌,
}
use evermore.Int64.{ℤ, pos}
use evermore.Order
use evermore.Ordering.Quotes.{CartItem, QuoteLine, Quote, Reads, quote}
use evermore.Ordering.Reservation.{Placement}
use evermore.Ordering.Orders.{
  OrderRow, OrderLine, Db, Placed, OrderingError, Call, CutOff, of_quote, address_not_found,
  meal_order, pass, null_if_empty, existing, insert_order, place_lines, open_payment, check_cut_off,
}

pub record CheckoutInput : Type 0 where
  pub customer_id : ℕ
  pub address_id : ℕ
  pub items : List CartItem
  pub courier_note : String
  pub idempotency_key : String

-- The order's INSERT: the amount to pay is the total until the suffix is attached.
abbrev pub order_of : Call → CheckoutInput → Quote → OrderRow
order_of call i q = record {
  id = call.order_id;
  order_number = call.order_number;
  customer_id = i.customer_id;
  order_type = meal_order;
  status = Order.awaiting_payment;
  subtotal_idr = q.subtotal;
  delivery_fee_idr = q.delivery_fee;
  discount_idr = pos 0;
  total_idr = q.total;
  tax_base_idr = q.tax.base;
  tax_idr = q.tax.tax;
  tax_rate_bps = q.tax_rate_bps;
  payment_amount_idr = q.total;
  payment_rounding_idr = pos 0;
  payment_deadline_at = some call.deadline;
  idempotency_key = null_if_empty i.idempotency_key;
  notes = i.courier_note;
}

abbrev pub order_line_of : Call → ℕ → QuoteLine → OrderLine
order_line_of call n l = record {
  id = call.line_id n;
  order_id = call.order_id;
  scheduled_meal_id = some l.scheduled_meal_id;
  package_id = none;
  qty = l.qty;
  unit_price_idr = l.unit_price;
  normal_price_idr = l.normal_price;
  line_total_idr = l.line_total;
  line_tax_base_idr = l.line_tax.base;
  line_tax_idr = l.line_tax.tax;
  is_promo = l.trace.promo_applied;
  price_row_id = some l.trace.row_id;
  price_table = some l.trace.table;
}

abbrev pub placement_of : Call → CheckoutInput → ℕ → ℕ → QuoteLine → Placement
placement_of call i address_id n l = record {
  order_id = call.order_id;
  line_id = call.line_id n;
  customer_id = i.customer_id;
  address_id = address_id;
  scheduled_meal_id = l.scheduled_meal_id;
  service_date = l.service_date;
  slot_id = l.slot_id;
  diet_type_id = l.diet_type_id;
  qty = l.qty;
  new_id = call.delivery_id n;
  number = call.delivery_number n;
}

-- The lines with their numbers.
abbrev pub lines_from : Call → CheckoutInput → ℕ → ℕ → List QuoteLine → List (OrderLine × Placement)
lines_from call i address_id n [] = []
lines_from call i address_id n (l ∷ ls) =
    (order_line_of call n l, placement_of call i address_id n l)
    ∷ lines_from call i address_id (suc n) ls

-- The transaction, where the key has no order yet.
unfoldable pub place : Call → CheckoutInput → ℕ → Quote → Db → Result OrderingError Placed
place call i address_id q db = do
  (c, db1) ← insert_order call (order_of call i q) db
  db2 ← place_lines call (lines_from call i address_id 0 q.lines) db1
  db3 ← open_payment call call.order_id c.amount "order placed" db2
  ok (record { order_id = call.order_id; order_number = call.order_number; db = db3 })

-- The transaction.
unfoldable pub checkout_tx : Call → CheckoutInput → ℕ → Quote → Db → Result OrderingError Placed
checkout_tx call i address_id q db = elim (existing i.customer_id i.idempotency_key db.orders) [
  | some o ↦ ok (record { order_id = o.id; order_number = o.order_number; db = db })
  | none ↦ place call i address_id q db
]

-- `address`, scoped by owner: the rows are identifiers with their customers, of active addresses.
unfoldable pub address : List (ℕ × ℕ) → ℕ → ℕ → Result OrderingError ℕ
address [] customer_id address_id = err address_not_found
address ((id, owner) ∷ rows) customer_id address_id =
    let rest = address rows customer_id address_id in
    elim (id == address_id) [
      | true ↦ elim (owner == customer_id) [ true ↦ ok id | false ↦ rest ]
      | false ↦ rest
    ]

unfoldable pub checkout :
    Reads → CutOff → List (ℕ × ℕ) → Call → CheckoutInput → Db → Result OrderingError Placed
checkout s cut_off addresses call i db = do
  q ← pass of_quote (quote s i.items)
  check_cut_off cut_off call.now (map (λ l. l.service_date) q.lines)
  address_id ← address addresses i.customer_id i.address_id
  checkout_tx call i address_id q db
