-- ===== src/Ordering/CreditCheckout/Holdings.antt =====
-- What the packages of a customer hold in a ledger, and how the locked packages show it.
use evermore.Base.{
  ℕ, ◌==◌, ◌≡◌, refl, inl, inr, arith, Bool, true, false, ◌&&◌, List, [], ◌∷◌, Option, none, some,
  if◌then◌else◌, tally, sum_by, All, Bool-cases, Option-cases,
}
use evermore.Credit.{Entry, balance}
use evermore.Credit
use evermore.Payments.Rows.{PackageRow}
use evermore.Ordering.Orders.{CustomerPackage}
use evermore.Ordering.Spending.{CreditPackage}
use evermore.Ordering.Spending.Rounds.{up}
use evermore.Ordering.Spending.Ledgers.{of_package}
use evermore.Ordering.CreditCheckout.{is_active, package_of, spendable}

abbrev pub is_live : Credit.Status → Bool
is_live Credit.pending = false
is_live Credit.active = true
is_live Credit.exhausted = false
is_live Credit.lapsed = false
is_live Credit.cancelled = false

abbrev pub has_expiry : Option ℕ → Bool
has_expiry none = false
has_expiry (some at) = true

-- A package that a customer can spend: an active one of the customer, with an expiry.
abbrev pub counts : ℕ → CustomerPackage → Bool
counts u c = c.row.customer_id == u && (is_live c.row.status && has_expiry c.row.expires_at)

-- The credits that the customer's packages hold together, by the entries of a ledger.
abbrev pub held : ℕ → List Entry → List CustomerPackage → ℕ
held u ledger = sum_by (λ c. if counts u c then up (balance (of_package c.row.id ledger)) else 0)

-- How many rows of a package are active.
abbrev pub live_rows : ℕ → List CustomerPackage → ℕ
live_rows id = tally (λ c. c.row.id == id && is_live c.row.status)

pub is_live_lem : (s : Credit.Status) → is_live s ≡ is_active s
is_live_lem Credit.pending = refl
is_live_lem Credit.active = refl
is_live_lem Credit.exhausted = refl
is_live_lem Credit.lapsed = refl
is_live_lem Credit.cancelled = refl

pub held-spendable :
    (u : ℕ) (ledger ledger' : List Entry) (g : CreditPackage → ℕ) (rows : List CustomerPackage)
    → ((p : PackageRow) (at : ℕ)
        → g (package_of ledger p at) ≡ up (balance (of_package p.id ledger')))
    → sum_by g (spendable u ledger rows) ≡ held u ledger' rows
unfolding spendable
held-spendable u ledger ledger' g [] same = refl
held-spendable u ledger ledger' g (c ∷ cs) same =
    let rest = held-spendable u ledger ledger' g cs same in
    let live = is_live_lem c.row.status in
    elim (Bool-cases (c.row.customer_id == u && is_active c.row.status)) [
      | inl e ↦ elim (Option-cases c.row.expires_at) [
        | inl n ↦ ground (arith, e, n, rest, live)
        | inr (at, x) ↦ ground (arith, e, x, rest, live, same c.row at)
      ]
      | inr e ↦ ground (arith, e, rest, live)
    ]

pub tally-spendable :
    (u id : ℕ) (ledger : List Entry) (rows : List CustomerPackage)
    → tally (λ cp. cp.pkg.id == id) (spendable u ledger rows)
      ≡ tally (λ c. c.row.id == id && counts u c) rows
unfolding spendable
tally-spendable u id ledger [] = refl
tally-spendable u id ledger (c ∷ cs) =
    let rest = tally-spendable u id ledger cs in
    let live = is_live_lem c.row.status in
    elim (Bool-cases (c.row.customer_id == u && is_active c.row.status)) [
      | inl e ↦ elim (Option-cases c.row.expires_at) [
        | inl n ↦ ground (arith, e, n, rest, live)
        | inr (at, x) ↦ ground (arith, e, x, rest, live)
      ]
      | inr e ↦ ground (arith, e, rest, live)
    ]

-- A test that the locked form of every such row passes.
pub spendable-All :
    (u : ℕ) (ledger : List Entry) (test : CreditPackage → Bool) (rows : List CustomerPackage)
    → ((p : PackageRow) (at : ℕ) → test (package_of ledger p at) ≡ true)
    → All (λ cp. test cp ≡ true) (spendable u ledger rows)
unfolding spendable
spendable-All u ledger test [] h = tt
spendable-All u ledger test (c ∷ cs) h =
    let rest = spendable-All u ledger test cs h in
    elim (Bool-cases (c.row.customer_id == u && is_active c.row.status)) [
      | inl e ↦ elim (Option-cases c.row.expires_at) [
        | inl n ↦ rw (e, n) rest
        | inr (at, x) ↦ rw (e, x) (h c.row at, rest)
      ]
      | inr e ↦ rw e rest
    ]

-- A test that the locked form of every such row passed.
pub rows-All :
    (u : ℕ) (ledger : List Entry) (test : CreditPackage → Bool) (Q : ℕ → Type 0)
    (rows : List CustomerPackage)
    → ((p : PackageRow) (at : ℕ) → test (package_of ledger p at) ≡ true → Q p.id)
    → All (λ cp. test cp ≡ true) (spendable u ledger rows)
    → All (λ c. counts u c ≡ true → Q c.row.id) rows
unfolding spendable
rows-All u ledger test Q [] f h = tt
rows-All u ledger test Q (c ∷ cs) f h =
    let live = is_live_lem c.row.status in
    elim (Bool-cases (c.row.customer_id == u && is_active c.row.status)) [
      | inl e ↦ elim (Option-cases c.row.expires_at) [
        | inl n ↦ (
          (λ k. absurd (ground (arith, n, k))),
          rows-All u ledger test Q cs f (rw (spendable, e, n) at h),
        )
        | inr (at, x) ↦
            let (one, rest) : (test (package_of ledger c.row at) ≡ true)
                × All (λ cp. test cp ≡ true) (spendable u ledger cs) =
              rw (spendable, e, x) at h in
            ((λ k. f c.row at one), rows-All u ledger test Q cs f rest)
      ]
      | inr e ↦ (
        (λ k. absurd (ground (arith, e, k, live))),
        rows-All u ledger test Q cs f (rw (spendable, e) at h),
      )
    ]
