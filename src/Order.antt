-- ===== src/Order.antt =====
-- internal/domain/order/order.go: the order and delivery state machines, the derived fulfilment
-- status, and the payment amount with its matching suffix.
pub mod Machine
pub mod History
pub mod Fulfilment
pub mod PaymentAmount
mod Examples
use Prim.Native.String.{String}
use mathlib.Core.Option.{none, some}
use evermore.Base.{
  ℕ, suc, ◌+◌, ◌-◌, ◌==◌, ◌≡◌, Bool, true, false, not, ◌&&◌, ◌||◌, List, [], ◌∷◌, Option, ltb, leb,
  if◌then◌else◌, Result, ok, err, refuse, ◌>>=◌, ◌>>◌, length, tally,
}
use evermore.Int64.{ℤ, pos, ◌+ℤ◌, ◌-ℤ◌, ◌*ℤ◌, ◌/ℤ◌, ◌<ℤ◌, ◌≤ℤ◌}
use evermore.Text.{is_empty}
use evermore.Money.{Idr}

pub data Status : Type 0 where
  draft awaiting_payment payment_submitted paid completed cancelled expired refunded : Status

pub data DeliveryStatus : Type 0 where
  scheduled preparing out_for_delivery delivered failed skipped called_off : DeliveryStatus

pub data Actor : Type 0 where
  customer staff admin system : Actor

pub data OrderError : Type 0 where
  illegal_transition actor_not_permitted reason_required : OrderError
  negative_total suffix_out_of_range : OrderError

abbrev same_actor : Actor → Actor → Bool
same_actor customer customer = true
same_actor staff staff = true
same_actor admin admin = true
same_actor system system = true
same_actor _ _ = false

-- slices.Contains
abbrev pub contains : List Actor → Actor → Bool
contains [] a = false
contains (x ∷ xs) a = same_actor x a || contains xs a

pub record Rule : Type 0 where
  pub actors : List Actor
  pub requires_reason : Bool

abbrev rule : List Actor → Bool → Option Rule
rule actors requires_reason = some (record { actors = actors; requires_reason = requires_reason })

-- The table of edges: a row for each edge, `none` where the map has no key.
unfoldable pub transitions : Status → Status → Option Rule
transitions draft awaiting_payment = rule (customer ∷ staff ∷ []) false
transitions awaiting_payment payment_submitted = rule (customer ∷ staff ∷ []) false
transitions awaiting_payment expired = rule (system ∷ []) false
transitions awaiting_payment cancelled = rule (customer ∷ staff ∷ []) true
transitions payment_submitted paid = rule (staff ∷ admin ∷ []) false
transitions payment_submitted awaiting_payment = rule (staff ∷ admin ∷ []) true
transitions payment_submitted expired = rule (system ∷ []) false
transitions paid completed = rule (system ∷ staff ∷ []) false
transitions paid cancelled = rule (staff ∷ admin ∷ []) true
transitions paid refunded = rule (admin ∷ []) true
transitions _ _ = none

unfoldable can_transition : Status → Status → Bool
unfolding transitions
can_transition from to = elim (transitions from to) [ none ↦ false | some r ↦ true ]

-- Whether a rule lets an actor take its edge: an admin may take what staff may.
abbrev permits : Rule → Actor → Bool
permits r actor = contains r.actors actor || (same_actor actor admin && contains r.actors staff)

-- The checks of `Transition` once the edge is found.
abbrev check_rule : Option Rule → Actor → String → Result OrderError (Unit {0})
check_rule none actor reason = err illegal_transition
check_rule (some r) actor reason = do
  refuse (not (permits r actor)) actor_not_permitted
  refuse (r.requires_reason && is_empty reason) reason_required
  ok tt

unfoldable pub transition : Status → Status → Actor → String → Result OrderError (Unit {0})
unfolding transitions
transition from to actor reason = check_rule (transitions from to) actor reason

unfoldable pub is_terminal : Status → Bool
is_terminal completed = true
is_terminal expired = true
is_terminal refunded = true
is_terminal cancelled = true
is_terminal _ = false

abbrev pub same_delivery : DeliveryStatus → DeliveryStatus → Bool
same_delivery scheduled scheduled = true
same_delivery preparing preparing = true
same_delivery out_for_delivery out_for_delivery = true
same_delivery delivered delivered = true
same_delivery failed failed = true
same_delivery skipped skipped = true
same_delivery called_off called_off = true
same_delivery _ _ = false

-- counts[d], after the counting loop of `FulfilmentStatus`.
abbrev pub count : DeliveryStatus → List DeliveryStatus → ℕ
count d ds = tally (same_delivery d) ds

-- The derived status; `none` is the empty text, for an order with no delivery.
unfoldable pub fulfilment_status : List DeliveryStatus → Option DeliveryStatus
fulfilment_status [] = none
fulfilment_status (d ∷ ds) =
    let all = d ∷ ds in
    let live = length all - count called_off all - count skipped all in
    if live == 0
    then some called_off
    else if count delivered all == live
    then some delivered
    else if ltb 0 (count out_for_delivery all)
    then some out_for_delivery
    else if ltb 0 (count preparing all)
    then some preparing
    else some scheduled

unfoldable delivery_transitions : DeliveryStatus → DeliveryStatus → Bool
delivery_transitions scheduled preparing = true
delivery_transitions scheduled skipped = true
delivery_transitions scheduled called_off = true
delivery_transitions scheduled scheduled = true
delivery_transitions preparing out_for_delivery = true
delivery_transitions out_for_delivery delivered = true
delivery_transitions out_for_delivery failed = true
delivery_transitions failed scheduled = true
delivery_transitions _ _ = false

unfoldable transition_delivery : DeliveryStatus → DeliveryStatus → Result OrderError (Unit {0})
unfolding delivery_transitions
transition_delivery from to = do
  refuse (not (delivery_transitions from to)) illegal_transition
  ok tt

abbrev max_suffix : ℤ
max_suffix = pos 1000

-- The amount to transfer and the rounding that the suffix adds.
unfoldable pub payment_amount : Idr → ℤ → Result OrderError (Idr × Idr)
payment_amount total suffix = do
  refuse (total <ℤ pos 0) negative_total
  refuse ((suffix <ℤ pos 0) || (max_suffix ≤ℤ suffix)) suffix_out_of_range
  let base = (total /ℤ max_suffix) *ℤ max_suffix
  let with_suffix = base +ℤ suffix
  let amount = if with_suffix <ℤ total then with_suffix +ℤ max_suffix else with_suffix
  ok (amount, amount -ℤ total)
