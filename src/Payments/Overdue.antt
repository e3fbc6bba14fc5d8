-- ===== src/Payments/Overdue.antt =====
-- `ExpireOverdue`: the job that lets unpaid orders past their deadline lapse. An UPDATE with a FROM
-- clause changes a row at most once, with one of the joined rows, and the database says not which:
-- `pick` is that choice, from the quantities of the joined rows. Quantities are not negative, by the
-- tables' CHECK constraints.
pub mod Lapse
use evermore.Base.{
  ℕ, zero, suc, ◌+◌, ◌-◌, ltb, ◌==◌, Bool, true, false, ◌&&◌, ◌||◌, List, [], ◌∷◌, ◌++◌, Option,
  none, some, if◌then◌else◌, map, keep, length,
}
use evermore.Order
use evermore.Payments.Rows.{
  PaymentRow, OrderRow, PayStatus, pending, submitted, update, set_order_status, same_order_status,
}
use evermore.Payments.Rows

pub record CapacityRow : Type 0 where
  pub kitchen_id : ℕ
  pub service_date : ℕ
  pub slot_id : ℕ
  pub reserved_portions : ℕ

pub record DeliveryRow : Type 0 where
  pub id : ℕ
  pub order_id : ℕ
  pub kitchen_id : ℕ
  pub service_date : ℕ
  pub slot_id : ℕ
  pub status : Order.DeliveryStatus

pub record LineRow : Type 0 where
  pub delivery_id : ℕ
  pub qty : ℕ

pub record ClaimRow : Type 0 where
  pub order_id : ℕ
  pub suffix : ℕ
  pub released_at : Option ℕ

pub record Tables : Type 0 where
  pub orders : List OrderRow
  pub payments : List PaymentRow
  pub capacities : List CapacityRow
  pub deliveries : List DeliveryRow
  pub lines : List LineRow
  pub claims : List ClaimRow

abbrev pub past : ℕ → Option ℕ → Bool
past now none = false
past now (some deadline) = ltb deadline now

-- The rows of the SELECT.
abbrev pub is_overdue : ℕ → OrderRow → Bool
is_overdue now o =
    (same_order_status o.status Order.awaiting_payment
      || same_order_status o.status Order.payment_submitted)
    && past now o.payment_deadline_at

-- `kc.kitchen_id = d.kitchen_id AND kc.service_date = d.service_date AND kc.slot_id = d.slot_id`
abbrev same_slot : CapacityRow → DeliveryRow → Bool
same_slot c d =
    c.kitchen_id == d.kitchen_id && c.service_date == d.service_date && c.slot_id == d.slot_id

-- The quantities that the FROM clause joins to a capacity row.
unfoldable pub joined : List LineRow → ℕ → CapacityRow → List DeliveryRow → List ℕ
joined lines order_id c [] = []
joined lines order_id c (d ∷ ds) =
    let rest = joined lines order_id c ds in
    if d.order_id == order_id && same_slot c d
    then map (λ l. l.qty) (keep (λ l. l.delivery_id == d.id) lines) ++ rest
    else rest

-- `GREATEST(0, kc.reserved_portions - dl.qty)`
abbrev release : Option ℕ → CapacityRow → CapacityRow
release none c = c
release (some qty) c = record c { reserved_portions = c.reserved_portions - qty }

abbrev is_scheduled : Order.DeliveryStatus → Bool
is_scheduled Order.scheduled = true
is_scheduled _ = false

abbrev is_open : PayStatus → Bool
is_open pending = true
is_open submitted = true
is_open _ = false

abbrev is_claimed : Option ℕ → Bool
is_claimed none = true
is_claimed (some _) = false

-- The body of the loop: the statements for one order.
unfoldable pub lapse : (List ℕ → Option ℕ) → ℕ → ℕ → Tables → Tables
lapse pick now oid t = record {
  capacities = map (λ c. release (pick (joined t.lines oid c t.deliveries)) c) t.capacities;
  deliveries =
      update (λ d. d.order_id == oid && is_scheduled d.status)
        (λ d. record d { status = Order.called_off }) t.deliveries;
  claims =
      update (λ c. c.order_id == oid && is_claimed c.released_at)
        (λ c. record c { released_at = some now }) t.claims;
  payments =
      update (λ p. p.order_id == oid && is_open p.status) (λ p. record p { status = Rows.expired })
        t.payments;
  orders = set_order_status oid Order.expired t.orders;
  lines = t.lines;
}

unfoldable pub lapse_loop : (List ℕ → Option ℕ) → ℕ → List ℕ → Tables → Tables
lapse_loop pick now [] t = t
lapse_loop pick now (oid ∷ ids) t = lapse_loop pick now ids (lapse pick now oid t)

-- The number of orders that lapsed, and the tables.
unfoldable pub expire_overdue : (List ℕ → Option ℕ) → ℕ → Tables → ℕ × Tables
expire_overdue pick now t =
    let ids = map (λ o. o.id) (keep (is_overdue now) t.orders) in
    (length ids, lapse_loop pick now ids t)
