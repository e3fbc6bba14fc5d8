-- ===== src/Ordering/Reservation.antt =====
-- `reserveAndRoute` of internal/app/ordering/ordering.go, in the transaction of a checkout: a line
-- takes its portions from the first ranked kitchen that has room, and gets its delivery. The
-- candidates are those that the database gave, and `new_id` and `number` the identifiers and the
-- delivery number that the call draws. The log of an address that no kitchen serves is written in
-- the transaction that the error then undoes, so it leaves no trace here. Snapshots of addresses
-- and meals, which are stored as they were read, are left out.
pub mod Capacity
pub mod Identifiers
use Prim.Native.String.{String}
use evermore.Base.{
  ℕ, ◌==◌, Bool, true, false, ◌&&◌, List, [], ◌∷◌, ◌++◌, Option, none, some, if◌then◌else◌, map,
  Result, ok, err, ◌>>=◌,
}
use evermore.Int64.{ℤ, ◌+ℤ◌, ◌<ℤ◌}
use evermore.Routing.{Candidate, Assignment, RoutingError, Mode, auto, rank}
use evermore.Routing
use evermore.Order.{DeliveryStatus, scheduled}

pub record CapacityRow : Type 0 where
  pub id : ℕ
  pub kitchen_id : ℕ
  pub service_date : ℕ
  pub slot_id : ℕ
  pub reserved_portions : ℤ
  pub max_portions : ℤ

pub record Delivery : Type 0 where
  pub id : ℕ
  pub delivery_number : String
  pub order_id : ℕ
  pub customer_id : ℕ
  pub service_date : ℕ
  pub slot_id : ℕ
  pub diet_type_id : ℕ
  pub kitchen_id : ℕ
  pub address_id : ℕ
  pub assigned_distance_m : ℤ
  pub assignment_mode : Mode
  pub assignment_reason : String
  pub status : DeliveryStatus

pub record DeliveryLine : Type 0 where
  pub id : ℕ
  pub delivery_id : ℕ
  pub scheduled_meal_id : ℕ
  pub order_line_id : ℕ
  pub qty : ℤ

pub record Tables : Type 0 where
  pub capacities : List CapacityRow
  pub deliveries : List Delivery
  pub delivery_lines : List DeliveryLine

-- The arguments of the call: the order, its line, the address, and what the call draws.
pub record Placement : Type 0 where
  pub order_id : ℕ
  pub line_id : ℕ
  pub customer_id : ℕ
  pub address_id : ℕ
  pub scheduled_meal_id : ℕ
  pub service_date : ℕ
  pub slot_id : ℕ
  pub diet_type_id : ℕ
  pub qty : ℤ
  pub new_id : ℕ → ℕ
  pub number : String

pub data ReserveError : Type 0 where
  of_routing : RoutingError → ReserveError
  capacity_full : ReserveError

-- `WHERE kitchen_id = $1 AND service_date = $2 AND slot_id = $3`
abbrev pub is_slot_of : Placement → Assignment → CapacityRow → Bool
is_slot_of p cand c =
    c.kitchen_id == cand.kitchen_id && c.service_date == p.service_date && c.slot_id == p.slot_id

abbrev pub find_row : (CapacityRow → Bool) → List CapacityRow → Option CapacityRow
find_row test [] = none
find_row test (c ∷ cs) = if test c then some c else find_row test cs

-- The portions do not fit: `reserved + qty > max`.
abbrev pub is_full : Placement → CapacityRow → Bool
is_full p c = c.max_portions <ℤ (c.reserved_portions +ℤ p.qty)

-- The row of a kitchen, if it has one and the portions fit.
unfoldable pub room : Placement → List CapacityRow → Assignment → Option CapacityRow
room p cs cand = elim (find_row (is_slot_of p cand) cs) [
  | none ↦ none
  | some c ↦ if is_full p c then none else some c
]

-- `UPDATE … SET reserved_portions = reserved_portions + $2 WHERE id = $1`
unfoldable pub take : Placement → CapacityRow → List CapacityRow → List CapacityRow
take p row = map (λ c.
    if c.id == row.id then record c { reserved_portions = c.reserved_portions +ℤ p.qty } else c)

-- The walk over the ranked kitchens.
unfoldable pub walk :
    Placement → List CapacityRow → List Assignment → Option (Assignment × List CapacityRow)
walk p cs [] = none
walk p cs (cand ∷ ranked) = elim (room p cs cand) [
  | none ↦ walk p cs ranked
  | some row ↦ some (cand, take p row cs)
]

abbrev pub request : Placement → List Candidate → Routing.Request
request p candidates = record {
  candidates = candidates;
  portions_needed = p.qty;
  is_reroute = false;
  existing_mode = auto;
  existing_kitchen = 0;
  after_cut_off = false;
}

-- The rows of the last two INSERT statements.
abbrev pub delivery_of : Placement → Assignment → Delivery
delivery_of p cand = record {
  id = p.new_id 0;
  delivery_number = p.number;
  order_id = p.order_id;
  customer_id = p.customer_id;
  service_date = p.service_date;
  slot_id = p.slot_id;
  diet_type_id = p.diet_type_id;
  kitchen_id = cand.kitchen_id;
  address_id = p.address_id;
  assigned_distance_m = cand.distance_m;
  assignment_mode = auto;
  assignment_reason = cand.reason;
  status = scheduled;
}

abbrev pub delivery_line_of : Placement → DeliveryLine
delivery_line_of p = record {
  id = p.new_id 1;
  delivery_id = p.new_id 0;
  scheduled_meal_id = p.scheduled_meal_id;
  order_line_id = p.line_id;
  qty = p.qty;
}

abbrev deliver :
    Placement → Tables → Option (Assignment × List CapacityRow) → Result ReserveError Tables
deliver p t none = err capacity_full
deliver p t (some (cand, cs)) = ok (record {
  capacities = cs;
  deliveries = t.deliveries ++ delivery_of p cand ∷ [];
  delivery_lines = t.delivery_lines ++ delivery_line_of p ∷ [];
})

abbrev pub routed : Result RoutingError (List Assignment) → Result ReserveError (List Assignment)
routed (ok ranked) = ok ranked
routed (err e) = err (of_routing e)

unfoldable pub reserve_and_route : Placement → List Candidate → Tables → Result ReserveError Tables
reserve_and_route p candidates t = do
  ranked ← routed (rank (request p candidates))
  deliver p t (walk p t.capacities ranked)
