-- ===== src/Payments/Examples.antt =====
-- One order of one package: its receipt is uploaded and verified, and an order that lapses.
use Prim.Native.String.{String}
use evermore.Base.{
  ℕ, ◌+◌, ◌≡◌, refl, ◌≢◌, ◌↔◌, List, [], ◌∷◌, Option, none, some, ok, err, tally, length,
}
use evermore.Int64.{pos}
use evermore.Order
use evermore.Order.{staff, admin, transition, transitions}
use evermore.Credit
use evermore.Payments.Rows.{
  Db, OrderRow, PackageRow, pending, submitted, not_awaiting_proof, find_payment,
}
use evermore.Payments.Decisions.{Call, verify, verify_marks, activate_loop, activate_packages}
use evermore.Payments.Decisions.Effects.{verify_twice}
use evermore.Payments.Proofs.{
  Deps, Upload, submit_proof, find_owned, sniff, Mime, proof_writes, to_move,
}
use evermore.Payments.Proofs.Uploads.{submit_proof_iff, submit_proof_moves, Acceptable, is_moved}
use evermore.Payments.Overdue.{Tables, CapacityRow, expire_overdue, lapse_loop, lapse, joined}

abbrev day : ℕ → ℕ
day now = now

abbrev ids : ℕ → ℕ
ids i = 100 + i

abbrev call : Call
call = record { now = 8; day_of = day; new_id = ids }

abbrev bought_order : Order.Status → OrderRow
bought_order status = record {
  id = 5;
  customer_id = 1;
  status = status;
  payment_amount_idr = pos 450123;
  payment_deadline_at = some 10;
}

abbrev one_package : PackageRow
one_package = record {
  id = 7;
  customer_id = 1;
  order_id = 5;
  meal_credits = pos 10;
  validity_days = 30;
  status = Credit.pending;
  activated_at = none;
  expires_at = none;
}

abbrev start : Db
start = record {
  payments =
      record {
        id = 9;
        order_id = 5;
        status = pending;
        declared_amount = none;
        sender_name = none;
        verified_by = none;
        rejected_reason = "";
      }
      ∷ [];
  orders = bought_order Order.awaiting_payment ∷ [];
  packages = one_package ∷ [];
  events = [];
  proofs = [];
  ledger = [];
}

abbrev no_digest : List ℕ → String
no_digest bytes = ""

abbrev deps : Deps
deps = record { now = 8; digest = no_digest; prefix = λ s. s; put = none }

abbrev receipt : Upload
receipt = record {
  customer_id = 1;
  order_id = 5;
  bytes = 255 ∷ 216 ∷ 255 ∷ 224 ∷ [];
  declared = pos 450123;
  sender = "Sari";
}

abbrev uploaded : Db
uploaded =
    proof_writes deps receipt Mime.jpeg
      (record {
        id = 9;
        order_id = 5;
        status = pending;
        declared_amount = none;
        sender_name = none;
        verified_by = none;
        rejected_reason = "";
      })
      start

upload_accepted : submit_proof deps receipt start start ≡ ok uploaded
unfolding submit_proof sniff find_owned transition transitions
upload_accepted = refl

submit_proof_iff_example :
    ((db' : Db) × (submit_proof deps receipt start start ≡ ok db'))
    ↔ Acceptable deps receipt start start
submit_proof_iff_example = submit_proof_iff deps receipt start start

submit_proof_moves_example :
    (tally (is_moved 5) uploaded.orders ≡ 1)
    × (tally (to_move 5) uploaded.orders ≡ 0)
    × (length uploaded.proofs ≡ 1)
    × (length uploaded.events ≡ 1)
    × ((v : Upload) (later : Db) (more : Db)
        → v.order_id ≡ 5
        → submit_proof deps v later uploaded ≢ ok more)
submit_proof_moves_example = submit_proof_moves deps receipt start start uploaded upload_accepted

abbrev settled : Db
settled =
    unfold activate_packages activate_loop in
    activate_packages call 5 2 (
      verify_marks 2
        (record {
          id = 9;
          order_id = 5;
          status = submitted;
          declared_amount = some (pos 450123);
          sender_name = some "Sari";
          verified_by = none;
          rejected_reason = "";
        })
        uploaded)

verify_accepted : verify call 2 9 staff uploaded ≡ ok settled
unfolding verify find_payment transition transitions activate_packages activate_loop
verify_accepted = refl

verify_twice_example : verify call 3 9 admin settled ≡ err not_awaiting_proof
verify_twice_example = verify_twice call 2 9 staff uploaded settled verify_accepted call 3 admin

-- An order of two deliveries in one slot of one kitchen, of 3 and of 4 portions.
abbrev pick : List ℕ → Option ℕ
pick [] = none
pick (x ∷ xs) = some x

abbrev slot_with : ℕ → CapacityRow
slot_with n = record { kitchen_id = 1; service_date = 20; slot_id = 2; reserved_portions = n }

abbrev booked : Tables
booked = record {
  orders = bought_order Order.awaiting_payment ∷ [];
  payments = start.payments;
  capacities = slot_with 7 ∷ [];
  deliveries =
      record {
        id = 31;
        order_id = 5;
        kitchen_id = 1;
        service_date = 20;
        slot_id = 2;
        status = Order.scheduled;
      }
      ∷ record {
        id = 32;
        order_id = 5;
        kitchen_id = 1;
        service_date = 20;
        slot_id = 2;
        status = Order.scheduled;
      }
      ∷ [];
  lines = record { delivery_id = 31; qty = 3 } ∷ record { delivery_id = 32; qty = 4 } ∷ [];
  claims = record { order_id = 5; suffix = 123; released_at = none } ∷ [];
}

abbrev lapsed : Tables
lapsed = unfold lapse lapse_loop joined in lapse_loop pick 11 (5 ∷ []) booked

-- Both portions were reserved in the slot, and only those of one delivery are given back.
part_released : (expire_overdue pick 11 booked).1.capacities ≡ slot_with 4 ∷ []
unfolding expire_overdue lapse lapse_loop joined
part_released = refl
