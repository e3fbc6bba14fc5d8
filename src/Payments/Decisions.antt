-- ===== src/Payments/Decisions.antt =====
-- `Verify`, with `activatePackages`, and `Reject`: finance decides on a transfer. `day_of` is the
-- day of an instant in the operating timezone, numbered so that AddDate adds days, and `new_id` the
-- identifiers that a call draws.
pub mod Effects
pub mod Activation
use Prim.Native.String.{String}
use evermore.Base.{
  ℕ, zero, suc, ◌+◌, ◌==◌, ◌≡◌, Bool, true, false, not, ◌&&◌, List, [], ◌∷◌, ◌++◌, Option, none,
  some, if◌then◌else◌, map, keep, Result, ok, err, refuse, ◌>>=◌, ◌>>◌,
}
use evermore.Int64.{ℤ}
use evermore.Text.{is_empty}
use evermore.Order
use evermore.Order.{Actor, transition}
use evermore.Credit.{Entry, purchase}
use evermore.Credit
use evermore.Payments.Rows.{
  Db, PaymentRow, OrderRow, PackageRow, EventRow, PaymentError, payment_not_found,
  not_awaiting_proof, reason_required, submitted, verified, rejected, update, find_payment,
  is_submitted, set_order_status, domain,
}

-- The clock and the identifiers of a call.
pub record Call : Type 0 where
  pub now : ℕ
  pub day_of : ℕ → ℕ
  pub new_id : ℕ → ℕ

abbrev is_pending : Credit.Status → Bool
is_pending Credit.pending = true
is_pending _ = false

-- `order_id = $1 AND status = 'PENDING'`
abbrev pub to_activate : ℕ → PackageRow → Bool
to_activate order_id p = p.order_id == order_id && is_pending p.status

-- The expiry date of a package that is activated now.
abbrev pub expiry : Call → PackageRow → ℕ
expiry call p = call.day_of call.now + p.validity_days

-- A row after the UPDATE for the package p that was read.
abbrev pub activate : Call → PackageRow → PackageRow → PackageRow
activate call p q = record q {
  status = Credit.active;
  activated_at = some call.now;
  expires_at = some (expiry call p);
}

abbrev pub purchase_entry : Call → ℕ → ℕ → PackageRow → ℕ → Entry
purchase_entry call order_id actor_id p new = record {
  id = new;
  customer_id = p.customer_id;
  customer_package_id = p.id;
  entry_type = purchase;
  qty = p.meal_credits;
  reference_type = "customer_order";
  reference_id = some order_id;
  occurred_at = call.now;
  created_by = some actor_id;
  note = "pembelian paket terverifikasi";
}

-- The loop of `activatePackages`: one UPDATE by identifier and one INSERT for each package read.
-- `drawn` is the number of identifiers drawn so far.
unfoldable pub activate_loop : Call → ℕ → ℕ → ℕ → List PackageRow → Db → Db
activate_loop call order_id actor_id drawn [] db = db
activate_loop call order_id actor_id drawn (p ∷ ps) db =
    activate_loop call order_id actor_id (suc drawn) ps (record db {
      packages = update (λ q. q.id == p.id) (activate call p) db.packages;
      ledger = db.ledger ++ purchase_entry call order_id actor_id p (call.new_id drawn) ∷ [];
    })

unfoldable pub activate_packages : Call → ℕ → ℕ → Db → Db
unfolding activate_loop
activate_packages call order_id actor_id db =
    activate_loop call order_id actor_id 1 (keep (to_activate order_id) db.packages) db

-- What `Verify` writes itself, once its checks have passed.
abbrev pub verify_marks : ℕ → PaymentRow → Db → Db
verify_marks actor_id p db = record db {
  payments =
      update (λ q. q.id == p.id) (λ q. record q { status = verified; verified_by = some actor_id })
        db.payments;
  events =
      db.events
      ++ record {
        payment_id = p.id;
        from_status = p.status;
        to_status = verified;
        actor_id = some actor_id;
        reason = "finance verified the transfer";
      }
        ∷ [];
  orders = set_order_status p.order_id Order.paid db.orders;
}

abbrev pub verify_writes : Call → ℕ → PaymentRow → Db → Db
verify_writes call actor_id p db =
    activate_packages call p.order_id actor_id (verify_marks actor_id p db)

abbrev pub verify_found :
    Call → ℕ → Actor → Db → Option (PaymentRow × OrderRow) → Result PaymentError Db
verify_found call actor_id role db none = err payment_not_found
verify_found call actor_id role db (some (p, o)) = do
  refuse (not (is_submitted p.status)) not_awaiting_proof
  domain (transition o.status Order.paid role "")
  ok (verify_writes call actor_id p db)

unfoldable pub verify : Call → ℕ → ℕ → Actor → Db → Result PaymentError Db
verify call actor_id payment_id role db =
    verify_found call actor_id role db (find_payment db payment_id)

-- What `Reject` writes, once its checks have passed.
abbrev reject_writes : ℕ → PaymentRow → String → Db → Db
reject_writes actor_id p reason db = record db {
  payments =
      update (λ q. q.id == p.id) (λ q. record q { status = rejected; rejected_reason = reason })
        db.payments;
  events =
      db.events
      ++ record {
        payment_id = p.id;
        from_status = p.status;
        to_status = rejected;
        actor_id = some actor_id;
        reason = reason;
      }
        ∷ [];
  orders = set_order_status p.order_id Order.awaiting_payment db.orders;
}

abbrev reject_found :
    ℕ → Actor → String → Db → Option (PaymentRow × OrderRow) → Result PaymentError Db
reject_found actor_id role reason db none = err payment_not_found
reject_found actor_id role reason db (some (p, o)) = do
  refuse (not (is_submitted p.status)) not_awaiting_proof
  domain (transition o.status Order.awaiting_payment role reason)
  ok (reject_writes actor_id p reason db)

unfoldable pub reject : ℕ → ℕ → Actor → String → Db → Result PaymentError Db
reject actor_id payment_id role reason db = do
  refuse (is_empty reason) reason_required
  reject_found actor_id role reason db (find_payment db payment_id)
