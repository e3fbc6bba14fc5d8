-- ===== src/Ordering/Orders/Keys.antt =====
-- An order that is placed is the one that its key has afterwards.
use Prim.Native.String.{String}
use evermore.Base.{
  ℕ, ◌≤◌, ◌==◌, ◌≡◌, refl, arith, Bool, true, false, not, List, [], ◌∷◌, ◌++◌, none, some, ok,
  refuse-eq-ok, >>=-eq-ok, inl, inr, Option-cases, tally,
}
use evermore.Money.{Idr}
use evermore.Text.{is_empty, text_eq, text_eq_iff}
use evermore.Payments.Rows.{update, pending}
use evermore.Ordering.Suffixes.{Claimed, claim_suffix}
use evermore.Ordering.Orders.{
  Placed, OrderRow, Db, Call, pass, of_claim, null_if_empty, of_key, first_order, existing,
  with_amount, suffix_not_attached, insert_order, open_payment,
}

pub first_order-append :
    (test : OrderRow → Bool) (os : List OrderRow) (o : OrderRow)
    → first_order test os ≡ none
    → test o ≡ true
    → first_order test (os ++ o ∷ []) ≡ some o
first_order-append test [] o h t = ground (arith, t)
first_order-append test (x ∷ os) o h t = ground (arith, h, first_order-append test os o, t)

-- The UPDATE of the amounts changes no key.
first_order-update :
    (customer_id id : ℕ) (key : String) (c : Claimed) (os : List OrderRow)
    → first_order (of_key customer_id key) os ≡ none
    → first_order (of_key customer_id key) (update (λ q. q.id == id) (with_amount c) os) ≡ none
first_order-update u id key c [] h = refl
first_order-update u id key c (o ∷ os) h = ground (arith, h, first_order-update u id key c os)

update-append {ℓ} :
    {A : Type ℓ} (test : A → Bool) (change : A → A) (xs : List A) (x : A)
    → test x ≡ true
    → update test change (xs ++ x ∷ []) ≡ update test change xs ++ change x ∷ []
update-append test change [] x t = ground (arith, t)
update-append test change (y ∷ ys) x t = ground (arith, update-append test change ys x t)

text_eq_refl : (s : String) → text_eq s s ≡ true
text_eq_refl s = let (_, from) = text_eq_iff s s in from refl

-- The order that was inserted has the key.
pub own_key :
    (key : String) (o : OrderRow)
    → is_empty key ≡ false
    → o.idempotency_key ≡ null_if_empty key
    → of_key o.customer_id key o ≡ true
own_key key o k e =
    let e' : o.idempotency_key ≡ some key = ground (arith, k, e) in
    ground (arith, e', text_eq_refl key)

pub insert_order-parts :
    (call : Call) (o : OrderRow) (db : Db) (c : Claimed) (db' : Db)
    → insert_order call o db ≡ ok (c, db')
    → (claim_suffix call.draw o.id call.today o.total_idr db.claims ≡ ok c)
      × (tally (λ q. q.id == o.id) (db.orders ++ o ∷ []) ≡ 1)
      × (db' ≡ record db {
        orders = update (λ q. q.id == o.id) (with_amount c) (db.orders ++ o ∷ []);
        claims = c.claims;
      })
unfolding insert_order
insert_order-parts call o db c db' h =
    let (d, claimed, rest) =
      >>=-eq-ok (pass of_claim (claim_suffix call.draw o.id call.today o.total_idr db.claims)) _
        h in
    let (one, wrote) =
      refuse-eq-ok (not (tally (λ q. q.id == o.id) (db.orders ++ o ∷ []) == 1)) suffix_not_attached
        rest in
    let same : d ≡ c = ground (arith, wrote) in
    (ground (arith, claimed, same), ground (arith, one), ground (arith, wrote, same))

tally-none :
    (test : OrderRow → Bool) (os : List OrderRow) (o : OrderRow)
    → test o ≡ true
    → tally test (os ++ o ∷ []) ≡ 1
    → first_order test os ≡ none
tally-none test [] o t h = refl
tally-none test (x ∷ os) o t h =
    ground (arith, t, h, tally-none test os o, tally-append_one test os o t)
  where
    tally-append_one :
        (test : OrderRow → Bool) (os : List OrderRow) (o : OrderRow)
        → test o ≡ true
        → 1 ≤ tally test (os ++ o ∷ [])
    tally-append_one test [] o t = ground (arith, t)
    tally-append_one test (x ∷ os) o t = ground (arith, tally-append_one test os o t)

no_id-update :
    (id : ℕ) (c : Claimed) (os : List OrderRow)
    → first_order (λ q. q.id == id) os ≡ none
    → first_order (λ q. q.id == id) (update (λ q. q.id == id) (with_amount c) os) ≡ none
no_id-update id c [] h = refl
no_id-update id c (o ∷ os) h = ground (arith, h, no_id-update id c os)

-- The order that was inserted, with its amount, is the one with its identifier.
pub insert_order-found :
    (call : Call) (o : OrderRow) (db : Db) (c : Claimed) (db' : Db)
    → insert_order call o db ≡ ok (c, db')
    → first_order (λ q. q.id == o.id) db'.orders ≡ some (with_amount c o)
insert_order-found call o db c db' h =
    let (_, one, wrote) = insert_order-parts call o db c db' h in
    let self : (o.id == o.id) ≡ true = ground arith in
    let fresh = tally-none (λ q. q.id == o.id) db.orders o self one in
    let split = update-append (λ (q : OrderRow). q.id == o.id) (with_amount c) db.orders o self in
    rw (wrote, split)
      (first_order-append (λ q. q.id == o.id) (update (λ q. q.id == o.id) (with_amount c) db.orders)
        (with_amount c o) (no_id-update o.id c db.orders fresh) self)

-- Once an order is inserted, its customer's key has it.
pub existing-insert_order :
    (call : Call) (key : String) (o : OrderRow) (db : Db) (c : Claimed) (db' : Db)
    → is_empty key ≡ false
    → o.idempotency_key ≡ null_if_empty key
    → existing o.customer_id key db.orders ≡ none
    → insert_order call o db ≡ ok (c, db')
    → existing o.customer_id key db'.orders ≡ some (with_amount c o)
unfolding existing
existing-insert_order call key o db c db' k e n h =
    let (_, _, wrote) = insert_order-parts call o db c db' h in
    let before : first_order (of_key o.customer_id key) db.orders ≡ none = ground (arith, k, n) in
    let self : (o.id == o.id) ≡ true = ground arith in
    let split = update-append (λ (q : OrderRow). q.id == o.id) (with_amount c) db.orders o self in
    let found =
      first_order-append (of_key o.customer_id key)
        (update (λ q. q.id == o.id) (with_amount c) db.orders) (with_amount c o)
        (first_order-update o.customer_id o.id key c db.orders before) (own_key key o k e) in
    rw (wrote, k, split) found

-- The order that a key has, and the tables, are what a call answered.
abbrev pub IsHeld : ℕ → String → Placed → Type 0
IsHeld customer_id key r =
    (o : OrderRow) × (existing customer_id key r.db.orders ≡ some o)
    × (o.id ≡ r.order_id)
    × (o.order_number ≡ r.order_number)

pub open_payment-orders :
    (call : Call) (order_id : ℕ) (amount : Idr) (reason : String) (db db' : Db)
    → open_payment call order_id amount reason db ≡ ok db'
    → db'.orders ≡ db.orders
unfolding open_payment
open_payment-orders call o a r db db' h = ground arith

-- The payment that is opened expects the amount that it is given.
pub open_payment-parts :
    (call : Call) (order_id : ℕ) (amount : Idr) (reason : String) (db db' : Db)
    → open_payment call order_id amount reason db ≡ ok db'
    → (bank : ℕ) × (db' ≡ record db {
      payments =
          db.payments
          ++ record {
            id = call.payment_id;
            order_id = order_id;
            bank_account_id = bank;
            status = pending;
            expected_amount_idr = amount;
          }
            ∷ [];
      events =
          db.events
          ++ record { payment_id = call.payment_id; to_status = pending; reason = reason } ∷ [];
    })
unfolding open_payment
open_payment-parts call o a r db db' h = elim (Option-cases call.bank) [
  | inl n ↦ absurd (ground (arith, n, h))
  | inr (bank, e) ↦ (bank, ground (arith, e, h))
]
