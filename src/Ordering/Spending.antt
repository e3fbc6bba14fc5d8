-- ===== src/Ordering/Spending.antt =====
-- `spendCredits` of internal/app/ordering/credits.go: a basket is paid from the packages in turn.
-- `arrange` is the result of sort.Slice by service date, which may order equal dates in any way, and
-- `new_id i` the i-th identifier that the call draws.
pub mod Rounds
pub mod Ledgers
pub mod Conservation
use evermore.Base.{
  ℕ, zero, suc, ◌+◌, ltb, ◌≡◌, Bool, true, false, List, [], ◌∷◌, ◌++◌, Option, none, some,
  if◌then◌else◌, Result, ok, err, refuse, ◌>>=◌, ◌>>◌, length,
}
use evermore.Int64.{ℤ, pos, ◌-ℤ◌, ◌<ℤ◌, ◌≤ℤ◌, ◌==ℤ◌}
use evermore.Credit.{Entry, Package, CreditError, RedeemRequest, balance, redeem}

pub record CreditPackage : Type 0 where
  pub pkg : Package
  pub entries : List Entry

-- The fields of a basket line that the payment reads.
pub record CreditLine : Type 0 where
  pub service_date : ℕ
  pub qty : ℤ

pub data SpendError : Type 0 where
  refused : CreditError → SpendError
  no_credits : ℤ → ℕ → SpendError

-- `return nil, err` of an error that `Redeem` returned.
abbrev lift : Result CreditError (List Entry) → Result SpendError (List Entry)
lift (ok es) = ok es
lift (err e) = err (refused e)

-- What the loops share: the order that is placed.
pub record Order : Type 0 where
  pub order_id : ℕ
  pub now : ℕ
  pub actor : Option ℕ
  pub new_id : ℕ → ℕ

abbrev pub request_of : Order → CreditPackage → CreditLine → ℤ → RedeemRequest
request_of o cp l meals = record {
  pkg = cp.pkg;
  entries = cp.entries;
  meals = meals;
  service_date = l.service_date;
  occurred_at = o.now;
  reference_id = o.order_id;
  reference_typ = "customer_order";
  actor_id = o.actor;
}

-- The package is passed over: it holds nothing, or it expires before the delivery.
unfoldable pub unusable : CreditPackage → CreditLine → Bool
unusable cp l = if balance cp.entries ≤ℤ pos 0 then true else ltb cp.pkg.expires_at l.service_date

-- The end of a round: the credits are redeemed, and the package and what remains change.
-- `drawn` is the number of identifiers drawn so far.
unfoldable pub pay :
    Order
    → ℕ
    → CreditPackage
    → CreditLine
    → ℤ
    → ℤ
    → Result SpendError (CreditPackage × List Entry × ℤ)
pay o drawn cp l remaining take = do
  entries ← lift (redeem (λ i. o.new_id (drawn + i)) (request_of o cp l take))
  ok (record cp { entries = cp.entries ++ entries }, entries, remaining -ℤ take)

-- One round of the loop over the packages: the package after it, the entries, and what remains.
unfoldable pub spend_one :
    Order → ℕ → CreditPackage → CreditLine → ℤ → Result SpendError (CreditPackage × List Entry × ℤ)
spend_one o drawn cp l remaining =
    if unusable cp l
    then ok (cp, [], remaining)
    else let avail = balance cp.entries in
      pay o drawn cp l remaining (if avail <ℤ remaining then avail else remaining)

-- The loop over the packages, for one line.
unfoldable pub spend_line :
    Order
    → ℕ
    → List CreditPackage
    → CreditLine
    → ℤ
    → Result SpendError (List CreditPackage × List Entry × ℤ)
spend_line o drawn [] l remaining = ok ([], [], remaining)
spend_line o drawn (cp ∷ packs) l remaining = elim (remaining ==ℤ pos 0) [
  | true ↦ ok (cp ∷ packs, [], remaining)
  | false ↦ do
    (cp', entries, remaining') ← spend_one o drawn cp l remaining
    (packs', more, left) ← spend_line o (drawn + length entries) packs l remaining'
    ok (cp' ∷ packs', entries ++ more, left)
]

-- The loop over the lines. The packages are the shared objects that the caller reads afterwards.
unfoldable pub spend_lines :
    Order
    → ℕ
    → List CreditPackage
    → List CreditLine
    → Result SpendError (List CreditPackage × List Entry)
spend_lines o drawn packs [] = ok (packs, [])
spend_lines o drawn packs (l ∷ lines) = do
  (packs', entries, left) ← spend_line o drawn packs l l.qty
  refuse (pos 0 <ℤ left) (no_credits left l.service_date)
  (packs'', more) ← spend_lines o (drawn + length entries) packs' lines
  ok (packs'', entries ++ more)

unfoldable pub spend_credits :
    (List CreditLine → List CreditLine)
    → Order
    → List CreditPackage
    → List CreditLine
    → Result SpendError (List CreditPackage × List Entry)
spend_credits arrange o packs lines = spend_lines o 0 packs (arrange lines)
