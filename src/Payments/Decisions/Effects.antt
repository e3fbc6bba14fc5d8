-- ===== src/Payments/Decisions/Effects.antt =====
-- What a verification and a rejection leave in the tables.
use evermore.Base.{
  ℕ, suc, ◌==◌, ◌≡◌, refl, sym, subst, ◌⊎◌, inl, inr, arith, Bool, true, List, [], ◌∷◌, Option,
  none, some, keep, ok, err, Option-cases,
}
use evermore.Order
use evermore.Order.{Actor, staff, admin, transition}
use evermore.Payments.Rows.{
  Db, PaymentRow, OrderRow, PackageRow, not_awaiting_proof, submitted, verified, update, first,
  find_payment, with_order, order_of,
}
use evermore.Payments.Decisions.{
  Call, to_activate, activate_loop, activate_packages, verify_marks, verify_writes, verify_found,
  verify,
}

-- An UPDATE by identifier changes the row that a SELECT by the same identifier finds.
first-update {ℓ} :
    {A : Type ℓ} (key : A → ℕ) (change : A → A) (k : ℕ) (xs : List A) (x : A)
    → ((y : A) → key (change y) ≡ key y)
    → first (λ y. key y == k) xs ≡ some x
    → first (λ y. key y == k) (update (λ y. key y == k) change xs) ≡ some (change x)
first-update key change k [] x same h = cc
first-update key change k (y ∷ ys) x same h =
    ground (arith, same y, first-update key change k ys x same)

activate_loop_rest :
    (call : Call) (order_id actor_id drawn : ℕ) (ps : List PackageRow) (db : Db)
    → let db' = activate_loop call order_id actor_id drawn ps db in
      (db'.payments ≡ db.payments) × (db'.orders ≡ db.orders)
unfolding activate_loop
activate_loop_rest call o a d [] db = (refl, refl)
activate_loop_rest call o a d (p ∷ ps) db = activate_loop_rest call o a (suc d) ps _

verify_found_ok :
    (call : Call) (actor_id : ℕ) (role : Actor) (db db' : Db)
    (found : Option (PaymentRow × OrderRow))
    → verify_found call actor_id role db found ≡ ok db'
    → (p : PaymentRow) × (o : OrderRow) × (found ≡ some (p, o))
      × (p.status ≡ submitted)
      × (o.status ≡ Order.payment_submitted)
      × ((role ≡ staff) ⊎ (role ≡ admin))
      × (db' ≡ verify_writes call actor_id p db)
unfolding transition
verify_found_ok call a r db db' none h = cc
verify_found_ok call a r db db' (some (p, o)) h =
    (p, o, refl, ground arith, ground arith, ground arith, ground arith)

first-test {ℓ} :
    {A : Type ℓ} (test : A → Bool) (xs : List A) (x : A) → first test xs ≡ some x → test x ≡ true
first-test test [] x h = cc
first-test test (y ∷ ys) x h = ground (arith, first-test test ys x)

-- The row that `find_payment` finds, its identifier, and its order.
find_payment_parts :
    (db : Db) (k : ℕ) (p : PaymentRow) (o : OrderRow)
    → find_payment db k ≡ some (p, o)
    → (first (λ q. q.id == k) db.payments ≡ some p)
      × (first (λ q. q.id == p.order_id) db.orders ≡ some o)
      × (p.id ≡ k)
unfolding find_payment
find_payment_parts db k p o h =
    let (a, b) = split _ refl h in
    (a, b, ground (arith, first-test (λ q. q.id == k) db.payments p a))
  where
    split :
        (found : Option PaymentRow)
        → first (λ q. q.id == k) db.payments ≡ found
        → with_order db found ≡ some (p, o)
        → (first (λ q. q.id == k) db.payments ≡ some p)
          × (first (λ q. q.id == p.order_id) db.orders ≡ some o)
    split none e h = cc
    split (some q) e h = elim (Option-cases (order_of db q)) [
      | inl n ↦ absurd (ground arith)
      | inr (o', f) ↦ (ground arith, ground arith)
    ]

-- What a verification needs and what it writes, in terms of the rows that it finds.
pub verify_parts :
    (call : Call) (actor_id k : ℕ) (role : Actor) (db db' : Db)
    → verify call actor_id k role db ≡ ok db'
    → (p : PaymentRow) × (o : OrderRow) × (first (λ q. q.id == k) db.payments ≡ some p)
      × (first (λ q. q.id == p.order_id) db.orders ≡ some o)
      × (p.id ≡ k)
      × (p.status ≡ submitted)
      × (o.status ≡ Order.payment_submitted)
      × ((role ≡ staff) ⊎ (role ≡ admin))
      × (db' ≡ verify_writes call actor_id p db)
unfolding verify
verify_parts call a k role db db' h =
    let (p, o, found, submitted_before, order_before, human, writes) =
      verify_found_ok call a role db db' (find_payment db k) h in
    let (found_payment, found_order, same_id) = find_payment_parts db k p o found in
    (p, o, found_payment, found_order, same_id, submitted_before, order_before, human, writes)

pub found_again :
    (db : Db) (k : ℕ) (p : PaymentRow) (o : OrderRow)
    → first (λ q. q.id == k) db.payments ≡ some p
    → first (λ q. q.id == p.order_id) db.orders ≡ some o
    → find_payment db k ≡ some (p, o)
unfolding find_payment
found_again db k p o hp ho = rw hp (ground (arith, ho))

-- The rows that a verification leaves.
written :
    (call : Call) (a : ℕ) (db : Db) (p : PaymentRow) (o : OrderRow)
    → first (λ q. q.id == p.id) db.payments ≡ some p
    → first (λ q. q.id == p.order_id) db.orders ≡ some o
    → find_payment (verify_writes call a p db) p.id
      ≡ some
          (record p { status = verified; verified_by = some a }, record o { status = Order.paid })
unfolding activate_packages
written call a db p o hp ho =
    let pay : PaymentRow → PaymentRow = λ q. record q { status = verified; verified_by = some a } in
    let settle : OrderRow → OrderRow = λ q. record q { status = Order.paid } in
    let (same_payments, same_orders) =
      activate_loop_rest call p.order_id a 1 (keep (to_activate p.order_id) db.packages)
        (verify_marks a p db) in
    found_again (verify_writes call a p db) p.id (pay p) (settle o)
      (rw same_payments
        (first-update (λ (q : PaymentRow). q.id) pay p.id db.payments p (λ _. refl) hp))
      (rw same_orders
        (first-update (λ (q : OrderRow). q.id) settle p.order_id db.orders o (λ _. refl) ho))

verify_rows :
    (call : Call) (actor_id k : ℕ) (role : Actor) (db db' : Db)
    → verify call actor_id k role db ≡ ok db'
    → (p : PaymentRow) × (o : OrderRow) × (find_payment db' k ≡ some (p, o))
      × (p.status ≡ verified)
      × (o.status ≡ Order.paid)
verify_rows call a k role db db' h =
    let (p, o, hp, ho, same, _, _, _, writes) = verify_parts call a k role db db' h in
    (
      record p { status = verified; verified_by = some a },
      record o { status = Order.paid },
      subst
          (λ i.
            find_payment db' i
            ≡ some (
              record p { status = verified; verified_by = some a },
              record o { status = Order.paid },
            ))
          same
          (rw writes (
            written call a db p o
              (subst (λ i. first (λ q. q.id == i) db.payments ≡ some p) (sym same) hp) ho)),
      refl,
      refl,
    )

-- A payment is verified at most once: after a verification, another one of the same payment is
-- refused, whoever asks for it and when.
pub verify_twice :
    (call : Call) (actor_id payment_id : ℕ) (role : Actor) (db db' : Db)
    → verify call actor_id payment_id role db ≡ ok db'
    → (again : Call) (other_id : ℕ) (other_role : Actor)
    → verify again other_id payment_id other_role db' ≡ err not_awaiting_proof
unfolding verify
verify_twice call a k role db db' h again b role' =
    let (p, o, found, status, _) = verify_rows call a k role db db' h in rw (found, status) refl
