-- ===== src/Ordering/Orders/Lines.antt =====
-- What the loop over the lines does: a line and a delivery for each, and no slot oversold.
use evermore.Base.{
  ap, Each, Option-cases, inl, inr, some, ℕ, ◌+◌, ◌<◌, ◌≡◌, refl, sym, subst, ◌∙◌, arith, List, [],
  ◌∷◌, ◌++◌, map, Result, ok, err, >>=-eq-ok, All,
}
use mathlib.Core.List.{append_assoc, append-nil}
use evermore.Int64.{ℤ, pos, half}
use evermore.Order.{scheduled}
use evermore.Routing.{Candidate, Assignment, rank}
use evermore.Ordering.Reservation.{
  Placement, Tables, Delivery, DeliveryLine, delivery_of, delivery_line_of, routed, request, walk,
  reserve_and_route,
}
use evermore.Ordering.Reservation.Capacity.{Within, DistinctIds, reserve-Within}
use evermore.Ordering.Reservation.Identifiers.{reserve-DistinctIds}
use evermore.Ordering.Orders.{OrderLine, Db, Call, OrderingError, pass, of_reserve, place_lines}

-- The line asks for fewer than 2 ^ 62 portions.
abbrev pub Small : OrderLine × Placement → Type 0
Small (l, p) = (k : ℕ) × (p.qty ≡ pos k) × (k + k < half)

-- Every slot is within its quota, and the quota rows have distinct identifiers.
abbrev pub NotOversold : Tables → Type 0
NotOversold t = DistinctIds t.capacities × All Within t.capacities

-- A line of an order with its delivery and the delivery's own line.
abbrev pub Written : Type 0
Written = OrderLine × Delivery × DeliveryLine

-- The rows that a line and its placement ask for.
abbrev pub Fills : OrderLine × Placement → Written → Type 0
Fills (line, p) (o, d, dl) =
    (o ≡ line)
    × (d.order_id ≡ p.order_id)
    × (d.customer_id ≡ p.customer_id)
    × (d.address_id ≡ p.address_id)
    × (d.service_date ≡ p.service_date)
    × (d.slot_id ≡ p.slot_id)
    × (d.status ≡ scheduled)
    × (dl.delivery_id ≡ d.id)
    × (dl.order_line_id ≡ p.line_id)
    × (dl.scheduled_meal_id ≡ p.scheduled_meal_id)
    × (dl.qty ≡ p.qty)

-- The rows of `qty` portions of a meal, for a customer of an order, at an address, on a day in a slot:
-- the order's line, a delivery that is scheduled, and the delivery's line for the order's.
abbrev pub Serves : ℕ → ℕ → ℕ → ℕ → ℕ → ℕ → ℤ → Written → Type 0
Serves order_id customer_id address_id meal_id date slot_id qty (o, d, dl) =
    (o.order_id ≡ order_id)
    × (o.scheduled_meal_id ≡ some meal_id)
    × (o.qty ≡ qty)
    × (d.order_id ≡ order_id)
    × (d.customer_id ≡ customer_id)
    × (d.address_id ≡ address_id)
    × (d.service_date ≡ date)
    × (d.slot_id ≡ slot_id)
    × (d.status ≡ scheduled)
    × (dl.delivery_id ≡ d.id)
    × (dl.order_line_id ≡ o.id)
    × (dl.scheduled_meal_id ≡ meal_id)
    × (dl.qty ≡ qty)

-- The rows of a line and a placement that name the same order, meal and quantity.
pub Fills-Serves :
    (line : OrderLine) (p : Placement) (w : Written)
    → line.order_id ≡ p.order_id
    → line.id ≡ p.line_id
    → line.scheduled_meal_id ≡ some p.scheduled_meal_id
    → line.qty ≡ p.qty
    → Fills (line, p) w
    → Serves p.order_id p.customer_id p.address_id p.scheduled_meal_id p.service_date p.slot_id
        p.qty w
Fills-Serves line p (o, d, dl) order id meal qty (e, f1, f2, f3, f4, f5, f6, f7, f8, f9, f10) = (
  ap (λ x. x.order_id) e ∙ order,
  ap (λ x. x.scheduled_meal_id) e ∙ meal,
  ap (λ x. x.qty) e ∙ qty,
  f1,
  f2,
  f3,
  f4,
  f5,
  f6,
  f7,
  f8 ∙ sym (ap (λ x. x.id) e ∙ id),
  f9,
  f10,
)

-- What a reservation that succeeds writes.
reserve_and_route-parts :
    (p : Placement) (cs : List Candidate) (t t' : Tables)
    → reserve_and_route p cs t ≡ ok t'
    → (cand : Assignment) × (t'.deliveries ≡ t.deliveries ++ delivery_of p cand ∷ [])
      × (t'.delivery_lines ≡ t.delivery_lines ++ delivery_line_of p ∷ [])
unfolding reserve_and_route
reserve_and_route-parts p cs t t' h =
    let (ranked, _, h1) = >>=-eq-ok (routed (rank (request p cs))) _ h in
    elim (Option-cases (walk p t.capacities ranked)) [
      | inl n ↦ absurd (ground (arith, n, h1))
      | inr ((cand, cs'), e) ↦ (cand, ground (arith, e, h1), ground (arith, e, h1))
    ]

-- What the loop leaves alone, and what it adds.
pub record LinesPlaced (lines : List (OrderLine × Placement)) (db db' : Db) : Type 0 where
  pub rows : List Written
  pub filled : Each Fills lines rows
  pub lines_written : db'.order_lines ≡ db.order_lines ++ map (λ w. w.0) rows
  pub delivered : db'.tables.deliveries ≡ db.tables.deliveries ++ map (λ w. w.1) rows
  pub portioned : db'.tables.delivery_lines ≡ db.tables.delivery_lines ++ map (λ w. w.2) rows
  pub not_oversold : NotOversold db'.tables
  pub same_orders : db'.orders ≡ db.orders
  pub same_claims : db'.claims ≡ db.claims
  pub same_payments : db'.payments ≡ db.payments
  pub same_events : db'.events ≡ db.events
  pub same_packages : db'.packages ≡ db.packages
  pub same_ledger : db'.ledger ≡ db.ledger

pub pass-eq-ok {κ} :
    {E : Type κ} {A : Type 0} (f : E → OrderingError) (r : Result E A) {a : A}
    → pass f r ≡ ok a
    → r ≡ ok a
pass-eq-ok f (ok a) h = ground (arith, h)
pass-eq-ok f (err e) h = cc

-- The loop changes no order, whatever the lines are.
pub place_lines-orders :
    (call : Call) (lines : List (OrderLine × Placement)) (db db' : Db)
    → place_lines call lines db ≡ ok db'
    → db'.orders ≡ db.orders
unfolding place_lines
place_lines-orders call [] db db' h = ground arith
place_lines-orders call ((l, p) ∷ lines) db db' h =
    let (t, _, rest) =
      >>=-eq-ok (pass of_reserve (reserve_and_route p (call.candidates p db.tables) db.tables)) _
        h in
    place_lines-orders call lines _ db' rest

pub place_lines-LinesPlaced :
    (call : Call) (lines : List (OrderLine × Placement)) (db db' : Db)
    → All Small lines
    → NotOversold db.tables
    → place_lines call lines db ≡ ok db'
    → LinesPlaced lines db db'
unfolding place_lines
place_lines-LinesPlaced call [] db db' small fine h =
    let e : db ≡ db' = ground arith in
    subst (λ d. LinesPlaced [] db d) e
      (record {
        rows = [];
        filled = tt;
        lines_written = sym (append-nil db.order_lines);
        delivered = sym (append-nil db.tables.deliveries);
        portioned = sym (append-nil db.tables.delivery_lines);
        not_oversold = fine;
        same_orders = refl;
        same_claims = refl;
        same_payments = refl;
        same_events = refl;
        same_packages = refl;
        same_ledger = refl;
      })
place_lines-LinesPlaced call ((l, p) ∷ lines) db db' ((k, eq, less), small) (keys, within) h =
    let (t, one, rest) =
      >>=-eq-ok (pass of_reserve (reserve_and_route p (call.candidates p db.tables) db.tables)) _
        h in
    let taken =
      pass-eq-ok of_reserve (reserve_and_route p (call.candidates p db.tables) db.tables) one in
    let (cand, one_more, one_line) =
      reserve_and_route-parts p (call.candidates p db.tables) db.tables t taken in
    let (within', _, _) =
      reserve-Within p (call.candidates p db.tables) db.tables t k eq less keys within taken in
    let keys' = reserve-DistinctIds p (call.candidates p db.tables) db.tables t keys taken in
    let r = place_lines-LinesPlaced call lines _ db' small (keys', within') rest in
    record {
      rows = (l, delivery_of p cand, delivery_line_of p) ∷ r.rows;
      filled = ((refl, refl, refl, refl, refl, refl, refl, refl, refl, refl, refl), r.filled);
      lines_written =
          r.lines_written ∙ append_assoc db.order_lines (l ∷ []) (map (λ w. w.0) r.rows);
      delivered =
          r.delivered
          ∙ (ap (λ ds. ds ++ map (λ w. w.1) r.rows) one_more
              ∙ append_assoc db.tables.deliveries (delivery_of p cand ∷ [])
                  (map (λ w. w.1) r.rows));
      portioned =
          r.portioned
          ∙ (ap (λ ds. ds ++ map (λ w. w.2) r.rows) one_line
              ∙ append_assoc db.tables.delivery_lines (delivery_line_of p ∷ [])
                  (map (λ w. w.2) r.rows));
      not_oversold = r.not_oversold;
      same_orders = r.same_orders;
      same_claims = r.same_claims;
      same_payments = r.same_payments;
      same_events = r.same_events;
      same_packages = r.same_packages;
      same_ledger = r.same_ledger;
    }
