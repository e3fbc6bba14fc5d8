-- ===== src/Payments/Rows.antt =====
-- The tables of internal/app/payments/payments.go, and the statements that it shares.
pub use evermore.Base.{update, first}
use Prim.Native.String.{String}
use evermore.Base.{ℕ, ◌==◌, Bool, true, false, List, Option, none, some, Result, ok, err}
use evermore.Int64.{ℤ}
use evermore.Money.{Idr}
use evermore.Order
use evermore.Order.{OrderError}
use evermore.Credit.{Entry}
use evermore.Credit

pub data PayStatus : Type 0 where
  pending submitted verified rejected expired : PayStatus

pub data PaymentError : Type 0 where
  payment_not_found not_awaiting_proof deadline_passed proof_too_large : PaymentError
  proof_wrong_type reason_required storage_failed : PaymentError
  transition_refused : OrderError → PaymentError

pub record PaymentRow : Type 0 where
  pub id : ℕ
  pub order_id : ℕ
  pub status : PayStatus
  pub declared_amount : Option Idr
  pub sender_name : Option String
  pub verified_by : Option ℕ
  pub rejected_reason : String

pub record OrderRow : Type 0 where
  pub id : ℕ
  pub customer_id : ℕ
  pub status : Order.Status
  pub payment_amount_idr : Idr
  pub payment_deadline_at : Option ℕ

pub record PackageRow : Type 0 where
  pub id : ℕ
  pub customer_id : ℕ
  pub order_id : ℕ
  pub meal_credits : ℤ
  pub validity_days : ℕ
  pub status : Credit.Status
  pub activated_at : Option ℕ
  pub expires_at : Option ℕ

pub record EventRow : Type 0 where
  pub payment_id : ℕ
  pub from_status : PayStatus
  pub to_status : PayStatus
  pub actor_id : Option ℕ
  pub reason : String

-- `payment-proof/<order>/<digest prefix><ext>`
pub record ObjectKey : Type 0 where
  pub order_id : ℕ
  pub digest_prefix : String
  pub ext : String

pub record ProofRow : Type 0 where
  pub payment_id : ℕ
  pub object_key : ObjectKey
  pub mime_type : String
  pub size_bytes : ℕ
  pub sha256 : String

pub record Db : Type 0 where
  pub payments : List PaymentRow
  pub orders : List OrderRow
  pub packages : List PackageRow
  pub events : List EventRow
  pub proofs : List ProofRow
  pub ledger : List Entry

-- The payment and its order, `payment p JOIN customer_order o ON o.id = p.order_id`.
abbrev pub order_of : Db → PaymentRow → Option OrderRow
order_of db p = first (λ o. o.id == p.order_id) db.orders

abbrev pub with_order : Db → Option PaymentRow → Option (PaymentRow × OrderRow)
with_order db none = none
with_order db (some p) = elim (order_of db p) [ none ↦ none | some o ↦ some (p, o) ]

unfoldable pub find_payment : Db → ℕ → Option (PaymentRow × OrderRow)
find_payment db payment_id = with_order db (first (λ p. p.id == payment_id) db.payments)

abbrev pub is_submitted : PayStatus → Bool
is_submitted submitted = true
is_submitted _ = false

abbrev pub same_order_status : Order.Status → Order.Status → Bool
same_order_status Order.draft Order.draft = true
same_order_status Order.awaiting_payment Order.awaiting_payment = true
same_order_status Order.payment_submitted Order.payment_submitted = true
same_order_status Order.paid Order.paid = true
same_order_status Order.completed Order.completed = true
same_order_status Order.cancelled Order.cancelled = true
same_order_status Order.expired Order.expired = true
same_order_status Order.refunded Order.refunded = true
same_order_status _ _ = false

-- `UPDATE customer_order SET status = … WHERE id = …`
abbrev pub set_order_status : ℕ → Order.Status → List OrderRow → List OrderRow
set_order_status id status = update (λ o. o.id == id) (λ o. record o { status = status })

-- An error of the domain's `Transition`, passed on.
abbrev pub domain {ℓ} : {A : Type ℓ} → Result OrderError A → Result PaymentError A
domain (ok a) = ok a
domain (err e) = err (transition_refused e)
