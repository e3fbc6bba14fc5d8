-- ===== src/Ordering/Checkout/Retry.antt =====
-- A checkout that is retried places no second order.
use evermore.Base.{
  ◌⊎◌, ◌∙◌, Result, err, ◌>>=◌, ◌>>◌, Result-cases, List, ℕ, ◌≡◌, refl, sym, arith, false, none, ok,
  >>=-eq-ok, Option-cases, inl, inr, map,
}
use evermore.Text.{is_empty}
use evermore.Ordering.Quotes.{Quote, Reads, quote}
use evermore.Ordering.Orders.{
  Call, CutOff, Db, Placed, OrderingError, of_quote, pass, existing, with_amount, insert_order,
  place_lines, open_payment, check_cut_off,
}
use evermore.Ordering.Orders.Keys.{IsHeld, existing-insert_order, open_payment-orders}
use evermore.Ordering.Orders.Lines.{place_lines-orders}
use evermore.Ordering.Checkout.{
  CheckoutInput, order_of, lines_from, place, checkout_tx, address, checkout,
}

place-IsHeld :
    (call : Call) (i : CheckoutInput) (a : ℕ) (q : Quote) (db : Db) (r : Placed)
    → is_empty i.idempotency_key ≡ false
    → existing i.customer_id i.idempotency_key db.orders ≡ none
    → place call i a q db ≡ ok r
    → IsHeld i.customer_id i.idempotency_key r
unfolding place
place-IsHeld call i a q db r k n h =
    let ((c, db1), inserted, h1) = >>=-eq-ok (insert_order call (order_of call i q) db) _ h in
    let (db2, lines, h2) = >>=-eq-ok (place_lines call (lines_from call i a 0 q.lines) db1) _ h1 in
    let (db3, opened, h3) =
      >>=-eq-ok (open_payment call call.order_id c.amount "order placed" db2) _ h2 in
    let held =
      existing-insert_order call i.idempotency_key (order_of call i q) db c db1 k refl n inserted in
    let same = place_lines-orders call (lines_from call i a 0 q.lines) db1 db2 lines in
    let same' = open_payment-orders call call.order_id c.amount "order placed" db2 db3 opened in
    let left : r.db.orders ≡ db1.orders = ground (arith, h3, same', same) in
    (with_amount c (order_of call i q), rw left held, ground (arith, h3), ground (arith, h3))

checkout_tx-IsHeld :
    (call : Call) (i : CheckoutInput) (a : ℕ) (q : Quote) (db : Db) (r : Placed)
    → is_empty i.idempotency_key ≡ false
    → checkout_tx call i a q db ≡ ok r
    → IsHeld i.customer_id i.idempotency_key r
unfolding checkout_tx
checkout_tx-IsHeld call i a q db r k h =
    elim (Option-cases (existing i.customer_id i.idempotency_key db.orders)) [
      | inl n ↦ place-IsHeld call i a q db r k n (ground (arith, n, h))
      | inr (o, e) ↦
          let same : db ≡ r.db = ground (arith, e, h) in
          (o, rw (sym same) e, ground (arith, e, h), ground (arith, e, h))
    ]

-- The transaction of a retry answers with the order that the key has.
checkout_tx-again :
    (call : Call) (i : CheckoutInput) (a : ℕ) (q : Quote) (r : Placed)
    → IsHeld i.customer_id i.idempotency_key r
    → checkout_tx call i a q r.db ≡ ok r
unfolding checkout_tx
checkout_tx-again call i a q r (o, e, id, number) = ground (arith, e, id, number)

-- What a checkout goes through before its transaction: the quote, the cut-off of each day, the address.
unfoldable pub checks :
    Reads → CutOff → List (ℕ × ℕ) → ℕ → CheckoutInput → Result OrderingError (Quote × ℕ)
checks s cut_off addresses now i = do
  q ← pass of_quote (quote s i.items)
  check_cut_off cut_off now (map (λ l. l.service_date) q.lines)
  address_id ← address addresses i.customer_id i.address_id
  ok (q, address_id)

-- A checkout is its checks and then its transaction.
checkout-checks :
    (s : Reads) (cut_off : CutOff) (addresses : List (ℕ × ℕ)) (call : Call) (i : CheckoutInput)
    (db : Db)
    → checkout s cut_off addresses call i db
      ≡ (checks s cut_off addresses call.now i >>= λ p. checkout_tx call i p.1 p.0 db)
unfolding checkout checks
checkout-checks s cut_off addresses call i db = ground arith

-- A checkout with an idempotency key that succeeded places its order once: a later one of the same
-- customer with that key, for whatever items and address and at whatever time, answers with the same
-- order and leaves the tables as they are, unless the quote, the cut-off or the address is refused
-- before the transaction, and then it is refused with that error.
pub checkout_retry :
    (s : Reads) (cut_off : CutOff) (addresses : List (ℕ × ℕ)) (call : Call) (i : CheckoutInput)
    (db : Db) (r : Placed)
    → is_empty i.idempotency_key ≡ false
    → checkout s cut_off addresses call i db ≡ ok r
    → (s' : Reads) (cut_off' : CutOff) (addresses' : List (ℕ × ℕ)) (call' : Call)
      (i' : CheckoutInput)
    → i'.customer_id ≡ i.customer_id
    → i'.idempotency_key ≡ i.idempotency_key
    → ((p : Quote × ℕ) × (checks s' cut_off' addresses' call'.now i' ≡ ok p)
        × (checkout s' cut_off' addresses' call' i' r.db ≡ ok r))
      ⊎ ((e : OrderingError) × (checks s' cut_off' addresses' call'.now i' ≡ err e)
          × (checkout s' cut_off' addresses' call' i' r.db ≡ err e))
checkout_retry s cut_off addresses call i db r k h s' cut_off' addresses' call' i' same_customer
      same_key =
    let ((q, a), _, h1) =
      >>=-eq-ok (checks s cut_off addresses call.now i) _
        (sym (checkout-checks s cut_off addresses call i db) ∙ h) in
    let (o, found, id, number) = checkout_tx-IsHeld call i a q db r k h1 in
    let whole = checkout-checks s' cut_off' addresses' call' i' r.db in
    elim (Result-cases (checks s' cut_off' addresses' call'.now i')) [
      | inl ((q', a'), e) ↦
          let again =
            checkout_tx-again call' i' a' q' r
              (o, rw (same_customer, same_key) found, id, number) in
          inl ((q', a'), e, whole ∙ rw e again)
      | inr (x, e) ↦ inr (x, e, whole ∙ rw e refl)
    ]
