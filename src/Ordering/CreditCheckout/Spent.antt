-- ===== src/Ordering/CreditCheckout/Spent.antt =====
-- What a checkout with credits that places an order leaves.
use mathlib.Core.List.{Perm}
use evermore.Base.{
  suc, ◌≤◌, ◌<◌, tally, tally-perm, tally_le, sum_by, Each, Option, ℕ, ◌+◌, ◌==◌, ◌≡◌, refl, sym,
  subst, ap, ◌∙◌, ◌⊎◌, inl, inr, arith, true, ◌&&◌, List, [], ◌∷◌, ◌++◌, none, map, Result, ok,
  >>=-eq-ok, >>-eq-ok, refuse-eq-ok, All, All-perm, All-map, length, Bool-cases, Option-cases,
}
use evermore.Int64.{pos}
use evermore.Credit.{Entry, balance}
use evermore.Credit
use evermore.Ordering.Spending.{CreditPackage, SpendError, spend_credits}
use evermore.Ordering.Spending
use evermore.Order
use evermore.Ordering.Spending.Rounds.{up, AllActive, IsRedeemed, funds}
use evermore.Ordering.Spending.Ledgers.{of_package, Keyed, IsOf, spend_credits-Tied}
use evermore.Ordering.Spending.Conservation.{Paid, Refused, demand, spend_credits_cases}
use evermore.Ordering.Orders.{
  Call, OrderRow, meal_order, CustomerPackage, Db, Placed, of_spend, pass, existing, place_lines,
  CutOff, basket_empty, check_cut_off,
}
use evermore.Ordering.Orders.Lines.{
  NotOversold, Written, Fills, Serves, Fills-Serves, pass-eq-ok, place_lines-LinesPlaced,
}
use evermore.Ordering.Checkout.{CheckoutInput, address}
use evermore.Ordering.CreditCheckout.{
  MealRow, credit_lines, credit_quote, checkout_with_credits, CreditCall, CreditLine, is_active,
  spendable, lock_spendable_packages, write_ledger, credit_order_of, credit_lines_from, demand_of,
  spending_order, place_paid, credit_tx, mark_exhausted, credit_line_of, credit_placement_of,
}
use evermore.Ordering.CreditCheckout.Lines.{
  SmallItem, credit_lines-IsMeal, IsMeal, credit_lines_from-Small, arranged-IsLine,
}
use evermore.Ordering.CreditCheckout.Exhaustion.{marked}
use evermore.Ordering.CreditCheckout.Holdings.{counts, held, live_rows, tally-spendable}
use evermore.Ordering.CreditCheckout.Marks.{
  KeptOrExhausted, funds-held, funds-held_after, exhausted_rows, marked_rows,
}

active_iff : (s : Credit.Status) → is_active s ≡ true → s ≡ Credit.active
active_iff Credit.pending h = cc
active_iff Credit.active h = refl
active_iff Credit.exhausted h = cc
active_iff Credit.lapsed h = cc
active_iff Credit.cancelled h = cc

spendable-active :
    (u : ℕ) (ledger : List Entry) (cs : List CustomerPackage)
    → All (λ cp. is_active cp.pkg.status ≡ true) (spendable u ledger cs)
unfolding spendable
spendable-active u ledger [] = tt
spendable-active u ledger (c ∷ cs) =
    let rest = spendable-active u ledger cs in
    elim (Bool-cases (c.row.customer_id == u && is_active c.row.status)) [
      | inl e ↦ elim (Option-cases c.row.expires_at) [
        | inl n ↦ rw (e, n) rest
        | inr (at, x) ↦ rw (e, x) (ground (arith, e), rest)
      ]
      | inr e ↦ rw e rest
    ]

-- The packages that are locked are active ones.
locked-AllActive :
    (c : CreditCall) (u : ℕ) (db : Db)
    → ((xs : List CreditPackage) → Perm (c.by_expiry xs) xs)
    → AllActive (lock_spendable_packages c u db)
unfolding lock_spendable_packages
locked-AllActive c u db p =
    let packs = spendable u db.ledger db.packages in
    All-map (λ cp. active_iff cp.pkg.status) (c.by_expiry packs)
      (All-perm (λ cp. is_active cp.pkg.status) (p packs)
        (spendable-active u db.ledger db.packages))

-- The locked packages have one identifier each, as the rows have.
locked-Keyed :
    (c : CreditCall) (u : ℕ) (db : Db)
    → ((xs : List CreditPackage) → Perm (c.by_expiry xs) xs)
    → ((id : ℕ) → tally (λ p. p.row.id == id) db.packages ≤ 1)
    → Keyed (lock_spendable_packages c u db)
unfolding lock_spendable_packages
locked-Keyed c u db p keyed id = omega (
  arith,
  tally-perm (λ cp. cp.pkg.id == id) (p (spendable u db.ledger db.packages)),
  tally-spendable u id db.ledger db.packages,
  tally_le (λ x. x.row.id == id && counts u x) (λ x. x.row.id == id) db.packages
      (λ x h. ground (arith, h)),
  keyed id,
)

-- An entry of a locked package is of one that the customer can spend.
locked-row :
    (c : CreditCall) (u : ℕ) (db : Db) (es : List Entry)
    → ((xs : List CreditPackage) → Perm (c.by_expiry xs) xs)
    → All (IsOf (lock_spendable_packages c u db)) es
    → All (λ e. 0 < tally (λ p. p.row.id == e.customer_package_id && counts u p) db.packages) es
unfolding lock_spendable_packages
locked-row c u db es p all =
    All-map
      (λ e h. omega (
        arith,
        h,
        tally-perm (λ cp. cp.pkg.id == e.customer_package_id)
            (p (spendable u db.ledger db.packages)),
        tally-spendable u e.customer_package_id db.ledger db.packages,
      ))
      es all

-- The meals that the lines ask for.
abbrev pub meals_of : List CreditLine → ℕ
meals_of = sum_by (λ l. up l.qty)

demand-meals_of : (lines : List CreditLine) → demand (map demand_of lines) ≡ meals_of lines
demand-meals_of [] = refl
demand-meals_of (l ∷ ls) = omega (arith, demand-meals_of ls)

-- The rows of a line, which costs nothing.
abbrev pub Gives : ℕ → ℕ → ℕ → CreditLine → Written → Type 0
Gives order_id customer_id address_id l (o, d, dl) =
    Serves order_id customer_id address_id l.scheduled_meal_id l.service_date l.slot_id l.qty
      (o, d, dl)
    × (o.unit_price_idr ≡ pos 0)
    × (o.line_total_idr ≡ pos 0)

credit_lines_from-Gives :
    (call : Call) (i : CheckoutInput) (a n : ℕ) (ls : List CreditLine) (ws : List Written)
    → Each Fills (credit_lines_from call i a n ls) ws
    → Each (Gives call.order_id i.customer_id a) ls ws
credit_lines_from-Gives call i a n [] [] h = tt
credit_lines_from-Gives call i a n [] (w ∷ ws) h = elim h [ ]
credit_lines_from-Gives call i a n (l ∷ ls) [] h = elim h [ ]
credit_lines_from-Gives call i a n (l ∷ ls) ((o, d, dl) ∷ ws) (f, h) =
    let e : o ≡ credit_line_of call n l = f.0 in
    (
      (
        Fills-Serves (credit_line_of call n l) (credit_placement_of call i a n l) (o, d, dl) refl
            refl refl refl f,
        ap (λ x. x.unit_price_idr) e,
        ap (λ x. x.line_total_idr) e,
      ),
      credit_lines_from-Gives call i a (suc n) ls ws h,
    )

-- What an order that is paid with credits leaves.
pub record IsSpent (c : CreditCall) (i : CheckoutInput) (a : ℕ) (lines : List CreditLine)
    (db db' : Db) : Type 0 where
  pub order : OrderRow
  pub order_kept : db'.orders ≡ db.orders ++ order ∷ []
  pub order_paid :
      (order.status ≡ Order.paid)
      × (order.id ≡ c.call.order_id)
      × (order.order_type ≡ meal_order)
      × (order.customer_id ≡ i.customer_id)
  pub nothing_owed :
      (order.subtotal_idr ≡ pos 0)
      × (order.delivery_fee_idr ≡ pos 0)
      × (order.total_idr ≡ pos 0)
      × (order.payment_amount_idr ≡ pos 0)
      × (order.payment_deadline_at ≡ none)
      × (db'.payments ≡ db.payments)
      × (db'.claims ≡ db.claims)
  pub entries : List Entry
  pub ledger_grown : db'.ledger ≡ db.ledger ++ entries
  pub one_each : length entries ≡ meals_of lines
  pub all_redeemed : All IsRedeemed entries
  pub drawn :
      All
        (λ e.
          0 < tally (λ p. p.row.id == e.customer_package_id && counts i.customer_id p) db.packages)
        entries
  pub moved :
      held i.customer_id (db.ledger ++ entries) db.packages + meals_of lines
      ≡ held i.customer_id db.ledger db.packages
  pub exhausted :
      All
        (λ p.
          counts i.customer_id p ≡ true
          → balance (of_package p.row.id (db.ledger ++ entries)) ≡ pos 0
          → live_rows p.row.id db'.packages ≡ 0)
        db.packages
  pub packages_kept : Each (KeptOrExhausted (db.ledger ++ entries)) db.packages db'.packages
  pub rows : List Written
  pub served : Each (Gives c.call.order_id i.customer_id a) lines rows
  pub lines_written : db'.order_lines ≡ db.order_lines ++ map (λ w. w.0) rows
  pub delivered : db'.tables.deliveries ≡ db.tables.deliveries ++ map (λ w. w.1) rows
  pub portioned : db'.tables.delivery_lines ≡ db.tables.delivery_lines ++ map (λ w. w.2) rows
  pub not_oversold : NotOversold db'.tables

spend_outcome :
    (packs : List CreditPackage) (lines : List Spending.CreditLine)
    (r : Result SpendError (List CreditPackage × List Entry)) (after : List CreditPackage)
    (entries : List Entry)
    → Paid packs lines r ⊎ Refused r
    → r ≡ ok (after, entries)
    → (length entries ≡ demand lines)
      × All IsRedeemed entries
      × (funds after + demand lines ≡ funds packs)
spend_outcome packs lines r after entries (inl p) e =
    let same : p.entries ≡ entries = ground (arith, p.result, e) in
    let same' : p.after ≡ after = ground (arith, p.result, e) in
    (
      ap length (sym same) ∙ p.counted,
      subst (λ es. All IsRedeemed es) same p.all_redeemed,
      subst (λ ps. funds ps + demand lines ≡ funds packs) same' p.moved,
    )
spend_outcome packs lines r after entries (inr (short, date, x)) e = absurd (ground (arith, x, e))

-- The transaction, where the key has no order yet.
credit_tx-IsSpent :
    (c : CreditCall) (i : CheckoutInput) (a : ℕ) (lines : List CreditLine) (db : Db) (r : Placed)
    → ((xs : List Spending.CreditLine) → Perm (c.arrange xs) xs)
    → ((xs : List CreditPackage) → Perm (c.by_expiry xs) xs)
    → All IsMeal lines
    → ((id : ℕ) → tally (λ p. p.row.id == id) db.packages ≤ 1)
    → NotOversold db.tables
    → existing i.customer_id i.idempotency_key db.orders ≡ none
    → credit_tx c i a lines db ≡ ok r
    → IsSpent c i a lines db r.db
unfolding credit_tx place_paid write_ledger lock_spendable_packages
credit_tx-IsSpent c i a lines db r sorts orders meals keyed fine n h =
    let db1 = record db { orders = db.orders ++ credit_order_of c.call i ∷ [] } in
    let locked = lock_spendable_packages c i.customer_id db in
    let demands = map demand_of lines in
    let start : place_paid c i a lines db ≡ ok r = ground (arith, n, h) in
    let ((packs, entries), spent, h1) =
      >>=-eq-ok (pass of_spend (spend_credits c.arrange (spending_order c) locked demands)) _
        start in
    let (db2, placed, h2) =
      >>=-eq-ok (place_lines c.call (credit_lines_from c.call i a 0 lines) db1) _ h1 in
    let l =
      place_lines-LinesPlaced c.call (credit_lines_from c.call i a 0 lines) db1 db2
        (credit_lines_from-Small c.call i a 0 lines meals) fine placed in
    let paid =
      pass-eq-ok of_spend (spend_credits c.arrange (spending_order c) locked demands) spent in
    let (count, redeemed, funds_moved) =
      spend_outcome locked demands (spend_credits c.arrange (spending_order c) locked demands) packs
        entries
        (spend_credits_cases c.arrange (spending_order c) locked demands (sorts demands)
          (locked-AllActive c i.customer_id db orders)
          (arranged-IsLine c.arrange lines (sorts demands) meals))
        paid in
    let order = orders (spendable i.customer_id db.ledger db.packages) in
    let (tied, of_locked) =
      spend_credits-Tied c.arrange (spending_order c) locked demands packs entries
        (locked-Keyed c i.customer_id db orders keyed) paid in
    let before = funds-held i.customer_id db.ledger db.packages locked order in
    let after =
      funds-held_after i.customer_id db.ledger entries db.packages locked packs order tied in
    let meals_paid = demand-meals_of lines in
    let final : write_ledger entries packs db2 ≡ r.db = ground (arith, h2) in
    subst (λ d. IsSpent c i a lines db d) final
      (record {
        order = credit_order_of c.call i;
        order_kept = l.same_orders;
        order_paid = (refl, refl, refl, refl);
        nothing_owed = (refl, refl, refl, refl, refl, l.same_payments, l.same_claims);
        entries = entries;
        ledger_grown = ap (λ es. es ++ entries) l.same_ledger;
        one_each = count ∙ meals_paid;
        all_redeemed = redeemed;
        drawn = locked-row c i.customer_id db entries orders of_locked;
        moved = omega (arith, funds_moved, before, after, meals_paid);
        exhausted =
            exhausted_rows i.customer_id db.ledger entries db.packages
              (mark_exhausted packs db2.packages) locked packs order tied
              (marked packs db2.packages);
        packages_kept =
            subst
              (λ ps.
                Each (KeptOrExhausted (db.ledger ++ entries)) db.packages (mark_exhausted packs ps))
              (sym l.same_packages)
              (marked_rows i.customer_id db.ledger entries db.packages locked packs order tied);
        rows = l.rows;
        served = credit_lines_from-Gives c.call i a 0 lines l.rows l.filled;
        lines_written = l.lines_written;
        delivered = l.delivered;
        portioned = l.portioned;
        not_oversold = l.not_oversold;
      })

-- A checkout with credits whose key has no order yet and that succeeds places one, for the customer's
-- own address: the customer's order is paid from the start, its amounts are zero and no payment is
-- opened; the ledger grows by one REDEEM entry of one credit for each meal, each of an active package
-- of the customer, and by the ledger these packages hold that many credits less than before; a package
-- that holds nothing more has no active row, and no row changes but to be exhausted in this case; each
-- line of the quote has its row, at no price, and a scheduled delivery of the customer at the address
-- on the line's day and in its slot, whose own line has the meal and the quantity; nothing else is
-- delivered, and no slot is oversold. The packages have distinct identifiers, the quota rows are
-- distinct and within their quotas before, each item asks for fewer than 2 ^ 62 meals, and the two
-- sorts only reorder.
pub credit_checkout_spends :
    (published : ℕ → Option MealRow) (cut_off : CutOff) (addresses : List (ℕ × ℕ)) (c : CreditCall)
    (i : CheckoutInput) (db : Db) (r : Placed)
    → ((xs : List Spending.CreditLine) → Perm (c.arrange xs) xs)
    → ((xs : List CreditPackage) → Perm (c.by_expiry xs) xs)
    → All SmallItem i.items
    → ((id : ℕ) → tally (λ p. p.row.id == id) db.packages ≤ 1)
    → NotOversold db.tables
    → existing i.customer_id i.idempotency_key db.orders ≡ none
    → checkout_with_credits published cut_off addresses c i db ≡ ok r
    → (a : ℕ) × (address addresses i.customer_id i.address_id ≡ ok a)
      × IsSpent c i a (credit_quote published db.ledger i.customer_id i.items).lines db r.db
unfolding checkout_with_credits credit_quote
credit_checkout_spends published cut_off addresses c i db r sorts orders small keyed fine n h =
    let lines = credit_lines published i.items in
    let (_, h1) = refuse-eq-ok (length lines == 0) basket_empty h in
    let (_, h2) =
      >>-eq-ok (check_cut_off cut_off c.call.now (map (λ l. l.service_date) lines)) h1 in
    let (a, own, h3) = >>=-eq-ok (address addresses i.customer_id i.address_id) _ h2 in
    (
      a,
      own,
      credit_tx-IsSpent c i a lines db r sorts orders (credit_lines-IsMeal published i.items small)
          keyed fine n h3,
    )
