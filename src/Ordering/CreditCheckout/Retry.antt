-- ===== src/Ordering/CreditCheckout/Retry.antt =====
-- A checkout with credits that is retried places no second order and spends nothing.
use evermore.Base.{
  ◌⊎◌, ◌∙◌, Result, err, refuse, ◌>>=◌, ◌>>◌, Result-cases, List, ℕ, [], ◌∷◌, ◌++◌, ◌==◌, ◌≡◌, refl,
  sym, subst, arith, false, Option, none, some, ok, >>=-eq-ok, Option-cases, inl, inr, map, length,
}
use evermore.Text.{is_empty}
use evermore.Credit.{Entry}
use evermore.Ordering.Spending.{spend_credits}
use evermore.Ordering.Orders.{
  Call, CutOff, Db, Placed, OrderingError, OrderRow, of_spend, of_key, basket_empty, pass, existing,
  place_lines, check_cut_off,
}
use evermore.Ordering.Orders.Keys.{IsHeld, first_order-append, own_key}
use evermore.Ordering.Orders.Lines.{place_lines-orders}
use evermore.Ordering.Checkout.{CheckoutInput, address}
use evermore.Ordering.CreditCheckout.{
  MealRow, CreditLine, CreditCall, credit_quote, credit_order_of, credit_lines_from, demand_of,
  spending_order, lock_spendable_packages, write_ledger, place_paid, credit_tx,
  checkout_with_credits,
}

-- Once the order is inserted, its customer's key has it.
existing-inserted :
    (call : Call) (i : CheckoutInput) (os : List OrderRow)
    → is_empty i.idempotency_key ≡ false
    → existing i.customer_id i.idempotency_key os ≡ none
    → existing i.customer_id i.idempotency_key (os ++ credit_order_of call i ∷ [])
      ≡ some (credit_order_of call i)
unfolding existing
existing-inserted call i os k n =
    let found =
      first_order-append (of_key i.customer_id i.idempotency_key) os (credit_order_of call i)
        (ground (arith, k, n)) (own_key i.idempotency_key (credit_order_of call i) k refl) in
    ground (arith, k, found)

place_paid-IsHeld :
    (c : CreditCall) (i : CheckoutInput) (a : ℕ) (lines : List CreditLine) (db : Db) (r : Placed)
    → is_empty i.idempotency_key ≡ false
    → existing i.customer_id i.idempotency_key db.orders ≡ none
    → place_paid c i a lines db ≡ ok r
    → IsHeld i.customer_id i.idempotency_key r
unfolding place_paid write_ledger
place_paid-IsHeld c i a lines db r k n h =
    let db1 = record db { orders = db.orders ++ credit_order_of c.call i ∷ [] } in
    let ((packs, entries), _, h1) =
      >>=-eq-ok
        (pass of_spend (
          spend_credits c.arrange (spending_order c) (lock_spendable_packages c i.customer_id db1)
            (map demand_of lines)))
        _ h in
    let (db2, placed, h2) =
      >>=-eq-ok (place_lines c.call (credit_lines_from c.call i a 0 lines) db1) _ h1 in
    let same = place_lines-orders c.call (credit_lines_from c.call i a 0 lines) db1 db2 placed in
    let left : r.db.orders ≡ db.orders ++ credit_order_of c.call i ∷ [] =
      ground (arith, h2, same) in
    (
      credit_order_of c.call i,
      subst (λ os. existing i.customer_id i.idempotency_key os ≡ some (credit_order_of c.call i))
          (sym left) (existing-inserted c.call i db.orders k n),
      ground (arith, h2),
      ground (arith, h2),
    )

credit_tx-IsHeld :
    (c : CreditCall) (i : CheckoutInput) (a : ℕ) (lines : List CreditLine) (db : Db) (r : Placed)
    → is_empty i.idempotency_key ≡ false
    → credit_tx c i a lines db ≡ ok r
    → IsHeld i.customer_id i.idempotency_key r
unfolding credit_tx
credit_tx-IsHeld c i a lines db r k h =
    elim (Option-cases (existing i.customer_id i.idempotency_key db.orders)) [
      | inl n ↦ place_paid-IsHeld c i a lines db r k n (ground (arith, n, h))
      | inr (o, e) ↦
          let same : db ≡ r.db = ground (arith, e, h) in
          (o, rw (sym same) e, ground (arith, e, h), ground (arith, e, h))
    ]

credit_tx-again :
    (c : CreditCall) (i : CheckoutInput) (a : ℕ) (lines : List CreditLine) (r : Placed)
    → IsHeld i.customer_id i.idempotency_key r
    → credit_tx c i a lines r.db ≡ ok r
unfolding credit_tx
credit_tx-again c i a lines r (o, e, id, number) = ground (arith, e, id, number)

-- What a checkout with credits goes through before its transaction: the basket, the cut-off of each
-- day, the address.
unfoldable pub credit_checks :
    (ℕ → Option MealRow)
    → CutOff
    → List (ℕ × ℕ)
    → ℕ
    → CheckoutInput
    → List Entry
    → Result OrderingError (List CreditLine × ℕ)
credit_checks published cut_off addresses now i ledger = do
  let q = credit_quote published ledger i.customer_id i.items
  refuse (length q.lines == 0) basket_empty
  check_cut_off cut_off now (map (λ l. l.service_date) q.lines)
  address_id ← address addresses i.customer_id i.address_id
  ok (q.lines, address_id)

-- A checkout with credits is its checks and then its transaction.
checkout_with_credits-checks :
    (published : ℕ → Option MealRow) (cut_off : CutOff) (addresses : List (ℕ × ℕ)) (c : CreditCall)
    (i : CheckoutInput) (db : Db)
    → checkout_with_credits published cut_off addresses c i db ≡ (
        credit_checks published cut_off addresses c.call.now i db.ledger >>= λ p.
        credit_tx c i p.1 p.0 db)
unfolding checkout_with_credits credit_checks
checkout_with_credits-checks published cut_off addresses c i db = ground arith

-- A checkout with credits and an idempotency key that succeeded spends once: a later one of the same
-- customer with that key, for whatever items and address and at whatever time, answers with the same
-- order and leaves ledger, packages and all other tables as they are, unless the basket, the cut-off
-- or the address is refused before the transaction, and then it is refused with that error.
pub credit_checkout_retry :
    (published : ℕ → Option MealRow) (cut_off : CutOff) (addresses : List (ℕ × ℕ)) (c : CreditCall)
    (i : CheckoutInput) (db : Db) (r : Placed)
    → is_empty i.idempotency_key ≡ false
    → checkout_with_credits published cut_off addresses c i db ≡ ok r
    → (published' : ℕ → Option MealRow) (cut_off' : CutOff) (addresses' : List (ℕ × ℕ))
      (c' : CreditCall) (i' : CheckoutInput)
    → i'.customer_id ≡ i.customer_id
    → i'.idempotency_key ≡ i.idempotency_key
    → ((p : List CreditLine × ℕ) × (credit_checks published' cut_off' addresses' c'.call.now i'
            r.db.ledger
          ≡ ok p)
        × (checkout_with_credits published' cut_off' addresses' c' i' r.db ≡ ok r))
      ⊎ ((e : OrderingError) × (credit_checks published' cut_off' addresses' c'.call.now i'
              r.db.ledger
            ≡ err e)
          × (checkout_with_credits published' cut_off' addresses' c' i' r.db ≡ err e))
credit_checkout_retry published cut_off addresses c i db r k h published' cut_off' addresses' c' i'
      same_customer same_key =
    let ((lines, a), _, h1) =
      >>=-eq-ok (credit_checks published cut_off addresses c.call.now i db.ledger) _
        (sym (checkout_with_credits-checks published cut_off addresses c i db) ∙ h) in
    let (o, found, id, number) = credit_tx-IsHeld c i a lines db r k h1 in
    let whole = checkout_with_credits-checks published' cut_off' addresses' c' i' r.db in
    elim (Result-cases (credit_checks published' cut_off' addresses' c'.call.now i' r.db.ledger)) [
      | inl ((lines', a'), e) ↦
          let again =
            credit_tx-again c' i' a' lines' r (o, rw (same_customer, same_key) found, id, number) in
          inl ((lines', a'), e, whole ∙ rw e again)
      | inr (x, e) ↦ inr (x, e, whole ∙ rw e refl)
    ]
