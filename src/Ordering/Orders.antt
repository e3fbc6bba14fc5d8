-- ===== src/Ordering/Orders.antt =====
-- The tables of internal/app/ordering, and what the ways to place an order share: the order that
-- an idempotency key already has, the matching suffix, the lines with their deliveries, and the
-- cut-off of queries.go. The documents that are stored with an order, its trace and the snapshots
-- of its lines, are left out.
pub mod Keys
pub mod Lines
use Prim.Native.String.{String}
use evermore.Base.{
  ℕ, zero, suc, ◌+◌, ◌-◌, ltb, ◌==◌, Bool, true, false, not, ◌&&◌, ◌||◌, List, [], ◌∷◌, ◌++◌,
  Option, none, some, if◌then◌else◌, map, tally, Result, ok, err, refuse, ◌>>=◌, ◌>>◌,
}
use evermore.Int64.{ℤ, pos, ◌<ℤ◌}
use evermore.Text.{is_empty, text_eq}
use evermore.Money.{Idr, MoneyError}
use evermore.Pricing.{Table}
use evermore.Order
use evermore.Credit.{Entry}
use evermore.Routing.{Candidate}
use evermore.Payments.Rows.{PayStatus, PackageRow, pending, update}
use evermore.Ordering.Quotes.{QuoteError}
use evermore.Ordering.Spending.{SpendError}
use evermore.Ordering.Suffixes.{Claim, Claimed, ClaimError, claim_suffix}
use evermore.Ordering.Reservation.{Tables, Placement, ReserveError, reserve_and_route}

pub data OrderType : Type 0 where
  meal_order package_order : OrderType

pub record OrderRow : Type 0 where
  pub id : ℕ
  pub order_number : String
  pub customer_id : ℕ
  pub order_type : OrderType
  pub status : Order.Status
  pub subtotal_idr : Idr
  pub delivery_fee_idr : Idr
  pub discount_idr : Idr
  pub total_idr : Idr
  pub tax_base_idr : Idr
  pub tax_idr : Idr
  pub tax_rate_bps : ℤ
  pub payment_amount_idr : Idr
  pub payment_rounding_idr : Idr
  pub payment_deadline_at : Option ℕ
  pub idempotency_key : Option String
  pub notes : String

pub record OrderLine : Type 0 where
  pub id : ℕ
  pub order_id : ℕ
  pub scheduled_meal_id : Option ℕ
  pub package_id : Option ℕ
  pub qty : ℤ
  pub unit_price_idr : Idr
  pub normal_price_idr : Idr
  pub line_total_idr : Idr
  pub line_tax_base_idr : Idr
  pub line_tax_idr : Idr
  pub is_promo : Bool
  pub price_row_id : Option ℕ
  pub price_table : Option Table

pub record PaymentRow : Type 0 where
  pub id : ℕ
  pub order_id : ℕ
  pub bank_account_id : ℕ
  pub status : PayStatus
  pub expected_amount_idr : Idr

pub record PaymentEvent : Type 0 where
  pub payment_id : ℕ
  pub to_status : PayStatus
  pub reason : String

-- A row of customer_package, with the columns that the payments do not read.
pub record CustomerPackage : Type 0 where
  pub row : PackageRow
  pub package_id : ℕ
  pub package_number : String
  pub price_paid_idr : Idr

pub record Db : Type 0 where
  pub orders : List OrderRow
  pub order_lines : List OrderLine
  pub claims : List Claim
  pub tables : Tables
  pub payments : List PaymentRow
  pub events : List PaymentEvent
  pub packages : List CustomerPackage
  pub ledger : List Entry

-- The order that a call answers with, and the tables that it leaves.
pub record Placed : Type 0 where
  pub order_id : ℕ
  pub order_number : String
  pub db : Db

pub data OrderingError : Type 0 where
  of_quote : QuoteError → OrderingError
  of_claim : ClaimError → OrderingError
  of_reserve : ReserveError → OrderingError
  of_spend : SpendError → OrderingError
  of_split : MoneyError → OrderingError
  past_cut_off : ℕ → OrderingError
  cut_off_not_hhmm address_not_found suffix_not_attached no_bank_account : OrderingError
  basket_empty package_not_for_sale no_package_price : OrderingError

-- What a call takes from outside: the clock, the identifiers and the numbers that it draws, the
-- random suffixes, the first active bank account, and the candidates that the database gives for a
-- line at the time of its reservation.
pub record Call : Type 0 where
  pub now : ℕ
  pub today : ℕ
  pub deadline : ℕ
  pub order_id : ℕ
  pub order_number : String
  pub line_id : ℕ → ℕ
  pub delivery_id : ℕ → ℕ → ℕ
  pub delivery_number : ℕ → String
  pub payment_id : ℕ
  pub draw : ℕ → Option ℕ
  pub bank : Option ℕ
  pub candidates : Placement → Tables → List Candidate

-- An error that is passed on.
abbrev pub pass {ℓ κ} :
    {E : Type κ} {A : Type ℓ} → (E → OrderingError) → Result E A → Result OrderingError A
pass f (ok a) = ok a
pass f (err e) = err (f e)

-- `nullIfEmpty`
abbrev pub null_if_empty : String → Option String
null_if_empty s = if is_empty s then none else some s

abbrev has_key : String → Option String → Bool
has_key key none = false
has_key key (some k) = text_eq k key

-- `customer_id = $1 AND idempotency_key = $2`
abbrev pub of_key : ℕ → String → OrderRow → Bool
of_key customer_id key o = o.customer_id == customer_id && has_key key o.idempotency_key

abbrev pub first_order : (OrderRow → Bool) → List OrderRow → Option OrderRow
first_order test [] = none
first_order test (o ∷ os) = if test o then some o else first_order test os

-- The order that the customer's key already has.
unfoldable pub existing : ℕ → String → List OrderRow → Option OrderRow
existing customer_id key orders =
    if is_empty key then none else first_order (of_key customer_id key) orders

abbrev pub with_amount : Claimed → OrderRow → OrderRow
with_amount c o = record o { payment_amount_idr = c.amount; payment_rounding_idr = c.rounding }

-- The order's INSERT, the claim of its suffix, and the UPDATE that attaches the amount.
unfoldable pub insert_order : Call → OrderRow → Db → Result OrderingError (Claimed × Db)
insert_order call o db = do
  let orders = db.orders ++ o ∷ []
  c ← pass of_claim (claim_suffix call.draw o.id call.today o.total_idr db.claims)
  refuse (not (tally (λ q. q.id == o.id) orders == 1)) suffix_not_attached
  ok (
    c,
    record db { orders = update (λ q. q.id == o.id) (with_amount c) orders; claims = c.claims },
  )

-- The loop over the lines: the line's INSERT, and its reservation.
unfoldable pub place_lines : Call → List (OrderLine × Placement) → Db → Result OrderingError Db
place_lines call [] db = ok db
place_lines call ((line, p) ∷ lines) db = do
  tables ← pass of_reserve (reserve_and_route p (call.candidates p db.tables) db.tables)
  place_lines call lines (record db { order_lines = db.order_lines ++ line ∷ []; tables = tables })

-- The payment that an order waits for.
unfoldable pub open_payment : Call → ℕ → Idr → String → Db → Result OrderingError Db
open_payment call order_id amount reason db = elim call.bank [
  | none ↦ err no_bank_account
  | some bank ↦ ok (record db {
    payments =
        db.payments
        ++ record {
          id = call.payment_id;
          order_id = order_id;
          bank_account_id = bank;
          status = pending;
          expected_amount_idr = amount;
        }
          ∷ [];
    events =
        db.events
        ++ record { payment_id = call.payment_id; to_status = pending; reason = reason } ∷ [];
  })
]

-- `parseHHMM`, from the two numbers that Sscanf reads, if it reads two.
unfoldable pub parse_hhmm : Option (ℤ × ℤ) → Option (ℤ × ℤ)
parse_hhmm none = none
parse_hhmm (some (hh, mm)) =
    if (hh <ℤ pos 0) || (pos 23 <ℤ hh) || (mm <ℤ pos 0) || (pos 59 <ℤ mm)
    then none
    else some (hh, mm)

-- What `beforeCutOff` takes from outside: the numbers of the parameter, and the instant of a day, an
-- hour and a minute in the operating timezone. Days are numbered, and the day before a day d is d - 1.
pub record CutOff : Type 0 where
  pub scanned : Option (ℤ × ℤ)
  pub instant : ℕ → ℤ → ℤ → ℕ

unfoldable pub before_cut_off : CutOff → ℕ → ℕ → Result OrderingError Bool
before_cut_off c now service_date = elim (parse_hhmm c.scanned) [
  | none ↦ err cut_off_not_hhmm
  | some (hh, mm) ↦ ok (ltb now (c.instant (service_date - 1) hh mm))
]

-- The loop over the service dates, before anything is written.
unfoldable pub check_cut_off : CutOff → ℕ → List ℕ → Result OrderingError (Unit {0})
check_cut_off c now [] = ok tt
check_cut_off c now (date ∷ dates) = do
  in_time ← before_cut_off c now date
  refuse (not in_time) (past_cut_off date)
  check_cut_off c now dates
