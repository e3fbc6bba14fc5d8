-- ===== src/Ordering/Checkout/Placing.antt =====
-- What a checkout that places an order leaves.
use evermore.Base.{
  ◌∙◌, Each, ℕ, suc, ◌+◌, ◌<◌, ◌==◌, ◌≡◌, refl, sym, subst, ap, arith, List, [], ◌∷◌, ◌++◌, none,
  some, map, ok, >>=-eq-ok, All,
}
use evermore.Int64.{pos, half}
use evermore.Order
use evermore.Payments.Rows.{pending}
use evermore.Ordering.Quotes.{Quote, QuoteLine}
use evermore.Ordering.Suffixes.{Claimed, claim_suffix}
use evermore.Ordering.Suffixes.Distinct.{Draws, Granted, claim_suffix-Granted}
use evermore.Ordering.Orders.{
  Call, Db, Placed, OrderRow, meal_order, first_order, existing, with_amount, insert_order,
  place_lines, open_payment,
}
use evermore.Ordering.Orders.Keys.{insert_order-parts, insert_order-found, open_payment-parts}
use evermore.Ordering.Orders.Lines.{
  Small, NotOversold, Written, Fills, Serves, Fills-Serves, place_lines-LinesPlaced,
}
use evermore.Ordering.Checkout.{
  CheckoutInput, order_of, order_line_of, placement_of, lines_from, place, checkout_tx,
}

-- The line asks for fewer than 2 ^ 62 meals.
abbrev SmallLine : QuoteLine → Type 0
SmallLine l = (k : ℕ) × (l.qty ≡ pos k) × (k + k < half)

lines_from-Small :
    (call : Call) (i : CheckoutInput) (a n : ℕ) (ls : List QuoteLine)
    → All SmallLine ls
    → All Small (lines_from call i a n ls)
lines_from-Small call i a n [] all = tt
lines_from-Small call i a n (l ∷ ls) (s, all) = (s, lines_from-Small call i a (suc n) ls all)

-- The rows of a line of the quote, with its prices.
abbrev pub Sells : ℕ → ℕ → ℕ → QuoteLine → Written → Type 0
Sells order_id customer_id address_id l (o, d, dl) =
    Serves order_id customer_id address_id l.scheduled_meal_id l.service_date l.slot_id l.qty
      (o, d, dl)
    × (o.unit_price_idr ≡ l.unit_price)
    × (o.line_total_idr ≡ l.line_total)
    × (o.line_tax_base_idr ≡ l.line_tax.base)
    × (o.line_tax_idr ≡ l.line_tax.tax)

lines_from-Sells :
    (call : Call) (i : CheckoutInput) (a n : ℕ) (ls : List QuoteLine) (ws : List Written)
    → Each Fills (lines_from call i a n ls) ws
    → Each (Sells call.order_id i.customer_id a) ls ws
lines_from-Sells call i a n [] [] h = tt
lines_from-Sells call i a n [] (w ∷ ws) h = elim h [ ]
lines_from-Sells call i a n (l ∷ ls) [] h = elim h [ ]
lines_from-Sells call i a n (l ∷ ls) ((o, d, dl) ∷ ws) (f, h) =
    let e : o ≡ order_line_of call n l = f.0 in
    (
      (
        Fills-Serves (order_line_of call n l) (placement_of call i a n l) (o, d, dl) refl refl refl
            refl f,
        ap (λ x. x.unit_price_idr) e,
        ap (λ x. x.line_total_idr) e,
        ap (λ x. x.line_tax_base_idr) e,
        ap (λ x. x.line_tax_idr) e,
      ),
      lines_from-Sells call i a (suc n) ls ws h,
    )

-- What a placed order leaves: the order, which awaits payment of the amount of its suffix, a pending
-- payment of that amount, a line and a scheduled delivery for each line of the quote, and no slot
-- oversold.
pub record IsPlaced (call : Call) (i : CheckoutInput) (a t : ℕ) (q : Quote) (db db' : Db)
    : Type 0 where
  pub claimed : Claimed
  pub granted : Granted call.order_id call.today t db.claims claimed
  pub order : OrderRow
  pub order_found : first_order (λ o. o.id == call.order_id) db'.orders ≡ some order
  pub awaits :
      (order.status ≡ Order.awaiting_payment)
      × (order.order_type ≡ meal_order)
      × (order.customer_id ≡ i.customer_id)
      × (order.payment_deadline_at ≡ some call.deadline)
      × (order.notes ≡ i.courier_note)
  pub amounts :
      (order.subtotal_idr ≡ q.subtotal)
      × (order.delivery_fee_idr ≡ q.delivery_fee)
      × (order.total_idr ≡ pos t)
      × (order.tax_base_idr ≡ q.tax.base)
      × (order.tax_idr ≡ q.tax.tax)
      × (order.payment_amount_idr ≡ claimed.amount)
  pub bank : ℕ
  pub payment_due :
      db'.payments
      ≡ db.payments
        ++ record {
          id = call.payment_id;
          order_id = call.order_id;
          bank_account_id = bank;
          status = pending;
          expected_amount_idr = claimed.amount;
        }
          ∷ []
  pub rows : List Written
  pub sold : Each (Sells call.order_id i.customer_id a) q.lines rows
  pub lines_written : db'.order_lines ≡ db.order_lines ++ map (λ w. w.0) rows
  pub delivered : db'.tables.deliveries ≡ db.tables.deliveries ++ map (λ w. w.1) rows
  pub portioned : db'.tables.delivery_lines ≡ db.tables.delivery_lines ++ map (λ w. w.2) rows
  pub not_oversold : NotOversold db'.tables
  pub claims_kept : db'.claims ≡ claimed.claims
  pub ledger_kept : (db'.ledger ≡ db.ledger) × (db'.packages ≡ db.packages)

assemble :
    (call : Call) (i : CheckoutInput) (a t : ℕ) (q : Quote) (db db1 db2 db3 : Db) (c : Claimed)
    → Draws call.draw
    → q.total ≡ pos t
    → t + 1000 < half
    → All SmallLine q.lines
    → NotOversold db.tables
    → insert_order call (order_of call i q) db ≡ ok (c, db1)
    → place_lines call (lines_from call i a 0 q.lines) db1 ≡ ok db2
    → open_payment call call.order_id c.amount "order placed" db2 ≡ ok db3
    → IsPlaced call i a t q db db3
assemble call i a t q db db1 db2 db3 c digits total low small fine inserted placed opened =
    let (claim, _, wrote) = insert_order-parts call (order_of call i q) db c db1 inserted in
    let found = insert_order-found call (order_of call i q) db c db1 inserted in
    let same_tables : db1.tables ≡ db.tables = ground (arith, wrote) in
    let l =
      place_lines-LinesPlaced call (lines_from call i a 0 q.lines) db1 db2
        (lines_from-Small call i a 0 q.lines small) (subst NotOversold (sym same_tables) fine)
        placed in
    let (bank, paid) =
      open_payment-parts call call.order_id c.amount "order placed" db2 db3 opened in
    let orders : db3.orders ≡ db1.orders = ground (arith, paid, l.same_orders) in
    let tables : db3.tables ≡ db2.tables = ground (arith, paid) in
    let lines : db1.order_lines ≡ db.order_lines = ground (arith, wrote) in
    let payments : db2.payments ≡ db.payments = ground (arith, wrote, l.same_payments) in
    record {
      claimed = c;
      granted = claim_suffix-Granted call.draw call.order_id call.today t db.claims c digits low (
          subst (λ x. claim_suffix call.draw call.order_id call.today x db.claims ≡ ok c) total
            claim);
      order = with_amount c (order_of call i q);
      awaits = (refl, refl, refl, refl, refl);
      amounts = (refl, refl, total, refl, refl, refl);
      order_found =
          subst
            (λ os.
              first_order (λ o. o.id == call.order_id) os
              ≡ some (with_amount c (order_of call i q)))
            (sym orders) found;
      bank = bank;
      payment_due = ground (arith, paid, payments);
      rows = l.rows;
      sold = lines_from-Sells call i a 0 q.lines l.rows l.filled;
      lines_written = ground (arith, paid, lines, l.lines_written);
      delivered =
          ap (λ t. t.deliveries) tables
          ∙ (l.delivered ∙ ap (λ t. t.deliveries ++ map (λ w. w.1) l.rows) same_tables);
      portioned =
          ap (λ t. t.delivery_lines) tables
          ∙ (l.portioned ∙ ap (λ t. t.delivery_lines ++ map (λ w. w.2) l.rows) same_tables);
      not_oversold = subst NotOversold (sym tables) l.not_oversold;
      claims_kept = ground (arith, paid, l.same_claims, wrote);
      ledger_kept = (
        ground (arith, paid, l.same_ledger, wrote),
        ground (arith, paid, l.same_packages, wrote),
      );
    }

place-IsPlaced :
    (call : Call) (i : CheckoutInput) (a t : ℕ) (q : Quote) (db : Db) (r : Placed)
    → Draws call.draw
    → q.total ≡ pos t
    → t + 1000 < half
    → All SmallLine q.lines
    → NotOversold db.tables
    → place call i a q db ≡ ok r
    → IsPlaced call i a t q db r.db
unfolding place
place-IsPlaced call i a t q db r digits total low small fine h =
    let ((c, db1), inserted, h1) = >>=-eq-ok (insert_order call (order_of call i q) db) _ h in
    let (db2, placed, h2) = >>=-eq-ok (place_lines call (lines_from call i a 0 q.lines) db1) _ h1 in
    let (db3, opened, h3) =
      >>=-eq-ok (open_payment call call.order_id c.amount "order placed" db2) _ h2 in
    let e : db3 ≡ r.db = ground (arith, h3) in
    subst (λ d. IsPlaced call i a t q db d) e
      (assemble call i a t q db db1 db2 db3 c digits total low small fine inserted placed opened)

-- A checkout whose key has no order yet and whose transaction succeeds places one: the customer's
-- order awaits payment until the deadline, with the amounts of the quote, of an amount that ends in a
-- suffix no live claim of the day holds, covers the total t and exceeds it by less than 1000; a
-- pending payment expects that very amount; each line of the quote has its line with its prices, and a
-- scheduled delivery of the customer at the address on the line's day and in its slot, whose own line
-- has the meal and the quantity; nothing else is delivered; no slot is oversold; and credits and
-- packages stay as they were. The quota rows are distinct and within their quotas before, each line
-- asks for fewer than 2 ^ 62 meals, the source draws below 1000, and t + 1000 < 2 ^ 63.
pub checkout_places :
    (call : Call) (i : CheckoutInput) (a t : ℕ) (q : Quote) (db : Db) (r : Placed)
    → Draws call.draw
    → q.total ≡ pos t
    → t + 1000 < half
    → All SmallLine q.lines
    → NotOversold db.tables
    → existing i.customer_id i.idempotency_key db.orders ≡ none
    → checkout_tx call i a q db ≡ ok r
    → IsPlaced call i a t q db r.db
unfolding checkout_tx
checkout_places call i a t q db r digits total low small fine n h =
    place-IsPlaced call i a t q db r digits total low small fine (ground (arith, n, h))
