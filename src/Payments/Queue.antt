-- ===== src/Payments/Queue.antt =====
-- `Instructions`, `Queue` and `matchVerdict` of internal/app/payments/payments.go. A row is what the
-- query's joins give; `matches` is the search of order numbers and names, which an empty text passes.
use Prim.Native.String.{String}
use evermore.Base.{
  ℕ, zero, suc, ◌-◌, ◌≤◌, ◌≡◌, refl, ap, Bool, true, false, ◌&&◌, ◌||◌, ltb, ◌==◌, List, [], ◌∷◌,
  map, Option, none, some, if◌then◌else◌, length, keep, Bool-cases, inl, inr, All, All-perm, first,
  arith, Result, ok, err,
}
use evermore.Int64.{ℤ, pos, ◌-ℤ◌, ◌%ℤ◌, ◌<ℤ◌, ◌==ℤ◌}
use evermore.Money.{Idr}
use evermore.Sorting.{sort}
use evermore.Sorting.Laws.{sort-perm}
use evermore.Auth.Sessions.{take}
use evermore.Payments.Rows.{PaymentError, payment_not_found}

pub record TransferRow : Type 0 where
  pub order_id : ℕ
  pub customer_id : ℕ
  pub order_number : String
  pub status : String
  pub amount : Idr
  pub deadline : Option ℕ
  pub bank_name : String
  pub account_number : String
  pub account_holder : String

-- A missing deadline leaves the time that remains at zero.
pub record Instructions : Type 0 where
  pub order_id : ℕ
  pub order_number : String
  pub status : String
  pub amount : Idr
  pub suffix : ℤ
  pub bank_name : String
  pub account_number : String
  pub account_holder : String
  pub deadline : Option ℕ
  pub remaining : ℕ
  pub expired : Bool

abbrev remaining_at : ℕ → Option ℕ → ℕ × Bool
remaining_at now none = (0, false)
remaining_at now (some d) = if ltb d now then (0, true) else (d - now, false)

unfoldable instructions : ℕ → ℕ → ℕ → List TransferRow → Result PaymentError Instructions
instructions now customer_id order_id rows =
    elim (first (λ r. r.order_id == order_id && r.customer_id == customer_id) rows) [
      | none ↦ err payment_not_found
      | some r ↦ ok (record {
        order_id = r.order_id;
        order_number = r.order_number;
        status = r.status;
        amount = r.amount;
        suffix = r.amount %ℤ pos 1000;
        bank_name = r.bank_name;
        account_number = r.account_number;
        account_holder = r.account_holder;
        deadline = r.deadline;
        remaining = (remaining_at now r.deadline).0;
        expired = (remaining_at now r.deadline).1;
      })
    ]

-- A row of the queue's query; a missing sender is an empty text.
pub record QueueRow : Type 0 where
  pub order_id : ℕ
  pub payment_id : ℕ
  pub is_submitted : Bool
  pub order_number : String
  pub customer_name : String
  pub customer_type : String
  pub expected : Idr
  pub declared : Option Idr
  pub sender_name : String
  pub submitted_at : ℕ
  pub proof_key : String

pub data Verdict : Type 0 where
  no_amount matching : Verdict
  over under : Idr → Verdict

pub record QueueItem : Type 0 where
  pub row : QueueRow
  pub waiting_for : ℕ
  pub suffix : ℤ
  pub match : Verdict

unfoldable match_verdict : Option Idr → Idr → Verdict
match_verdict none expected = no_amount
match_verdict (some d) expected =
    if d ==ℤ expected
    then matching
    else if expected <ℤ d
    then over (d -ℤ expected)
    else under (expected -ℤ d)

abbrev item_of : ℕ → QueueRow → QueueItem
item_of now r = record {
  row = r;
  waiting_for = now - r.submitted_at;
  suffix = r.expected %ℤ pos 1000;
  match = match_verdict r.declared r.expected;
}

-- A limit out of 1 to 200 is 50.
abbrev page_limit : ℤ → ℕ
page_limit (pos n) = if n == 0 || ltb 200 n then 50 else n
page_limit _ = 50

abbrev older : QueueRow → QueueRow → Bool
older a b = ltb a.submitted_at b.submitted_at

unfoldable queue : ℕ → (QueueRow → Bool) → ℤ → List QueueRow → List QueueItem
queue now matches limit rows =
    map (item_of now)
      (take (page_limit limit) (sort older (keep (λ r. r.is_submitted && matches r) rows)))

length-map : (f : QueueRow → QueueItem) (rows : List QueueRow) → length (map f rows) ≡ length rows
length-map f [] = refl
length-map f (r ∷ rs) = ap suc (length-map f rs)

length-take : (n : ℕ) (rows : List QueueRow) → length (take n rows) ≤ n
unfolding take
length-take zero rows = omega arith
length-take (suc n) [] = omega arith
length-take (suc n) (r ∷ rs) = omega (arith, length-take n rs)

page_limit_lem : (limit : ℤ) → page_limit limit ≤ 200
page_limit_lem limit = ground arith

kept-submitted :
    (matches : QueueRow → Bool) (rows : List QueueRow)
    → All (λ r. r.is_submitted ≡ true) (keep (λ r. r.is_submitted && matches r) rows)
kept-submitted matches [] = tt
kept-submitted matches (r ∷ rs) = elim (Bool-cases (r.is_submitted && matches r)) [
  | inl e ↦ rw e (ground (arith, e), kept-submitted matches rs)
  | inr e ↦ rw e (kept-submitted matches rs)
]

All-take : (P : QueueRow → Type 0) (n : ℕ) (rows : List QueueRow) → All P rows → All P (take n rows)
unfolding take
All-take P zero rows h = tt
All-take P (suc n) [] h = tt
All-take P (suc n) (r ∷ rs) (h, hs) = (h, All-take P n rs hs)

items-submitted :
    (now : ℕ) (rows : List QueueRow)
    → All (λ r. r.is_submitted ≡ true) rows
    → All (λ i. i.row.is_submitted ≡ true) (map (item_of now) rows)
items-submitted now [] h = tt
items-submitted now (r ∷ rs) (h, hs) = (h, items-submitted now rs hs)

-- The verification queue shows at most 200 payments, whatever limit is asked for, and only payments
-- that were submitted.
queue-submitted :
    (now : ℕ) (matches : QueueRow → Bool) (limit : ℤ) (rows : List QueueRow)
    → (length (queue now matches limit rows) ≤ 200)
      × All (λ i. i.row.is_submitted ≡ true) (queue now matches limit rows)
unfolding queue
queue-submitted now matches limit rows =
    let sorted = sort older (keep (λ r. r.is_submitted && matches r) rows) in
    (
      omega (
        arith,
        length-map (item_of now) (take (page_limit limit) sorted),
        length-take (page_limit limit) sorted,
        page_limit_lem limit,
      ),
      items-submitted now (take (page_limit limit) sorted) (
          All-take (λ r. r.is_submitted ≡ true) (page_limit limit) sorted
            (All-perm (λ r. r.is_submitted)
              (sort-perm older (keep (λ r. r.is_submitted && matches r) rows))
              (kept-submitted matches rows))),
    )
