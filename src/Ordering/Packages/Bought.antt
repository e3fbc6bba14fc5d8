-- ===== src/Ordering/Packages/Bought.antt =====
-- What the purchase of a package leaves.
use Prim.Native.String.{String}
use evermore.Base.{
  refl, ◌&&◌, List, first, Option-cases, inl, inr, ℕ, ◌+◌, ◌<◌, ◌==◌, ◌≡◌, sym, subst, ◌∙◌, ap,
  arith, [], ◌∷◌, ◌++◌, none, some, ok, >>=-eq-ok,
}
use evermore.Int64.{pos, half}
use evermore.Money.{TaxSplit, split_inclusive}
use evermore.Order
use evermore.Credit
use evermore.Pricing.{scope_for_customer_type, scope_default}
use evermore.Payments.Rows.{pending}
use evermore.Ordering.Suffixes.{Claimed, claim_suffix}
use evermore.Ordering.Suffixes.Distinct.{Draws, Granted, claim_suffix-Granted}
use evermore.Ordering.Orders.{
  Call, Db, Placed, OrderRow, OrderLine, CustomerPackage, package_order, of_split, pass,
  first_order, existing, with_amount, insert_order, open_payment,
}
use evermore.Ordering.Orders.Keys.{insert_order-parts, insert_order-found, open_payment-parts}
use evermore.Ordering.Packages.{
  Shop, PackageDef, PackageForSale, in_force, price_in, resolve_package, package_order_of,
  package_line_of, pending_package, order_package, buy_package,
}

price_in-catalogue :
    (shop : Shop) (d : PackageDef) (today : ℕ) (scopes : List String) (p : PackageForSale)
    → price_in shop d today scopes ≡ ok p
    → (p.id ≡ d.id) × (p.credits ≡ d.meal_credits) × (p.validity_days ≡ d.validity_days)
unfolding price_in
price_in-catalogue shop d today [] p h = cc
price_in-catalogue shop d today (scope ∷ scopes) p h =
    elim (Option-cases (first (in_force d.id scope today) shop.normal_prices)) [
      | inl n ↦ price_in-catalogue shop d today scopes p (ground (arith, n, h))
      | inr (n, e) ↦ elim (Option-cases (first (in_force d.id scope today) shop.promo_prices)) [
        | inl none_there ↦ (
          ground (arith, e, none_there, h),
          ground (arith, e, none_there, h),
          ground (arith, e, none_there, h),
        )
        | inr (promo, f) ↦
            (ground (arith, e, f, h), ground (arith, e, f, h), ground (arith, e, f, h))
      ]
    ]

-- A package for sale is the active one of the catalogue with its identifier.
resolve_package-catalogue :
    (shop : Shop) (today package_id : ℕ) (p : PackageForSale)
    → resolve_package shop today package_id ≡ ok p
    → (d : PackageDef) × (first (λ d. d.id == package_id && d.is_active) shop.packages ≡ some d)
      × (p.id ≡ d.id)
      × (p.credits ≡ d.meal_credits)
      × (p.validity_days ≡ d.validity_days)
unfolding resolve_package
resolve_package-catalogue shop today package_id p h =
    elim (Option-cases (first (λ d. d.id == package_id && d.is_active) shop.packages)) [
      | inl n ↦ absurd (ground (arith, n, h))
      | inr (d, e) ↦
          let (id, credits, days) =
            price_in-catalogue shop d today
              (scope_for_customer_type shop.show shop.customer_type_id ∷ scope_default ∷ []) p
              (ground (arith, e, h)) in
          (d, e, id, credits, days)
    ]

-- What a package that was bought leaves, at the price t: the order, which awaits payment of the amount
-- of its suffix, a pending payment of that amount, and the package of the catalogue, which is pending.
pub record IsBought (call : Call) (shop : Shop) (customer_id package_id t : ℕ) (db db' : Db)
    : Type 0 where
  pub claimed : Claimed
  pub granted : Granted call.order_id call.today t db.claims claimed
  pub order : OrderRow
  pub order_found : first_order (λ o. o.id == call.order_id) db'.orders ≡ some order
  pub awaits :
      (order.status ≡ Order.awaiting_payment)
      × (order.order_type ≡ package_order)
      × (order.customer_id ≡ customer_id)
      × (order.payment_deadline_at ≡ some call.deadline)
      × (order.total_idr ≡ pos t)
      × (order.payment_amount_idr ≡ claimed.amount)
  pub in_catalogue : PackageDef
  pub offered : first (λ d. d.id == package_id && d.is_active) shop.packages ≡ some in_catalogue
  pub bundle : CustomerPackage
  pub package_kept : db'.packages ≡ db.packages ++ bundle ∷ []
  pub package_pending :
      (bundle.row.status ≡ Credit.pending)
      × (bundle.row.order_id ≡ call.order_id)
      × (bundle.row.customer_id ≡ customer_id)
      × (bundle.row.meal_credits ≡ in_catalogue.meal_credits)
      × (bundle.row.validity_days ≡ in_catalogue.validity_days)
      × (bundle.row.activated_at ≡ none)
      × (bundle.row.expires_at ≡ none)
      × (bundle.package_id ≡ in_catalogue.id)
      × (bundle.price_paid_idr ≡ pos t)
  pub line : OrderLine
  pub line_kept : db'.order_lines ≡ db.order_lines ++ line ∷ []
  pub line_written :
      (line.order_id ≡ call.order_id)
      × (line.package_id ≡ some in_catalogue.id)
      × (line.qty ≡ pos 1)
      × (line.line_total_idr ≡ pos t)
  pub bank : ℕ
  pub payment_due :
      db'.payments
      ≡ db.payments
        ++ record {
          id = call.payment_id;
          order_id = call.order_id;
          bank_account_id = bank;
          status = pending;
          expected_amount_idr = claimed.amount;
        }
          ∷ []
  pub no_credit_yet : db'.ledger ≡ db.ledger
  pub nothing_reserved : db'.tables ≡ db.tables

-- The writes of the purchase, one after the other.
assemble :
    (call : Call) (shop : Shop) (customer_id package_id : ℕ) (key : String) (p : PackageForSale)
    (split : TaxSplit) (t : ℕ) (db db1 db3 : Db) (c : Claimed)
    → Draws call.draw
    → resolve_package shop call.today package_id ≡ ok p
    → p.price ≡ pos t
    → t + 1000 < half
    → insert_order call (package_order_of call shop customer_id key p split) db ≡ ok (c, db1)
    → open_payment call call.order_id c.amount "package order placed" (record db1 {
      order_lines = db1.order_lines ++ package_line_of call p split ∷ [];
      packages = db1.packages ++ pending_package call shop customer_id p ∷ [];
    })
      ≡ ok db3
    → IsBought call shop customer_id package_id t db db3
assemble call shop customer_id package_id key p split t db db1 db3 c digits sale price low inserted
      opened =
    let (d, offered, id, credits, days) =
      resolve_package-catalogue shop call.today package_id p sale in
    let o = package_order_of call shop customer_id key p split in
    let db2 = record db1 {
      order_lines = db1.order_lines ++ package_line_of call p split ∷ [];
      packages = db1.packages ++ pending_package call shop customer_id p ∷ [];
    } in
    let (claim, _, wrote) = insert_order-parts call o db c db1 inserted in
    let found = insert_order-found call o db c db1 inserted in
    let (bank, paid) =
      open_payment-parts call call.order_id c.amount "package order placed" db2 db3 opened in
    let orders : db3.orders ≡ db1.orders = ap (λ d. d.orders) paid in
    record {
      claimed = c;
      granted = claim_suffix-Granted call.draw call.order_id call.today t db.claims c digits low (
          subst (λ x. claim_suffix call.draw call.order_id call.today x db.claims ≡ ok c) price
            claim);
      order = with_amount c o;
      awaits = (refl, refl, refl, refl, price, refl);
      in_catalogue = d;
      offered = offered;
      bundle = pending_package call shop customer_id p;
      package_pending = (refl, refl, refl, credits, days, refl, refl, id, price);
      line = package_line_of call p split;
      line_written = (refl, ap some id, refl, price);
      order_found =
          subst (λ os. first_order (λ o. o.id == call.order_id) os ≡ some (with_amount c o))
            (sym orders) found;
      package_kept =
          ap (λ d. d.packages) paid
          ∙ ap (λ d. d.packages ++ pending_package call shop customer_id p ∷ []) wrote;
      line_kept =
          ap (λ d. d.order_lines) paid
          ∙ ap (λ d. d.order_lines ++ package_line_of call p split ∷ []) wrote;
      bank = bank;
      payment_due =
          ap (λ d. d.payments) paid
          ∙ ap
              (λ d.
                d.payments
                ++ record {
                  id = call.payment_id;
                  order_id = call.order_id;
                  bank_account_id = bank;
                  status = pending;
                  expected_amount_idr = c.amount;
                }
                  ∷ [])
              wrote;
      no_credit_yet = ap (λ d. d.ledger) paid ∙ ap (λ d. d.ledger) wrote;
      nothing_reserved = ap (λ d. d.tables) paid ∙ ap (λ d. d.tables) wrote;
    }

-- A purchase whose key has no order yet and that succeeds sells the package at the price t that is
-- resolved for the customer that day, not at one that the client sends: the customer's order awaits
-- payment until the deadline of an amount that ends in a suffix no live claim of the day holds, covers
-- t and exceeds it by less than 1000; a pending payment expects that very amount; one package, with
-- the credits and the validity that the catalogue has for it, is written as pending, of that order and
-- that customer, not activated and without an expiry; and no credit is given and nothing reserved yet.
-- The source draws below 1000, and t + 1000 < 2 ^ 63.
pub buy_package_sells :
    (call : Call) (shop : Shop) (customer_id package_id : ℕ) (key : String) (p : PackageForSale)
    (t : ℕ) (db : Db) (r : Placed)
    → Draws call.draw
    → resolve_package shop call.today package_id ≡ ok p
    → p.price ≡ pos t
    → t + 1000 < half
    → existing customer_id key db.orders ≡ none
    → buy_package call shop customer_id package_id key db ≡ ok r
    → IsBought call shop customer_id package_id t db r.db
unfolding buy_package order_package
buy_package_sells call shop customer_id package_id key p t db r digits sale price low n h =
    let start : order_package call shop customer_id package_id key db ≡ ok r =
      ground (arith, n, h) in
    let (p', sale', h1) = >>=-eq-ok (resolve_package shop call.today package_id) _ start in
    let same : p' ≡ p = ground (arith, sale, sale') in
    let (split, _, h2) = >>=-eq-ok (pass of_split (split_inclusive p'.price shop.tax_bps)) _ h1 in
    let ((c, db1), inserted, h3) =
      >>=-eq-ok (insert_order call (package_order_of call shop customer_id key p' split) db) _ h2 in
    let (db3, opened, h4) =
      >>=-eq-ok
        (open_payment call call.order_id c.amount "package order placed" (record db1 {
          order_lines = db1.order_lines ++ package_line_of call p' split ∷ [];
          packages = db1.packages ++ pending_package call shop customer_id p' ∷ [];
        }))
        _ h3 in
    let left : db3 ≡ r.db = ground (arith, h4) in
    subst (λ d. IsBought call shop customer_id package_id t db d) left
      (assemble call shop customer_id package_id key p' split t db db1 db3 c digits sale'
        (ap (λ q. q.price) same ∙ price) low inserted opened)
