-- ===== src/Ordering/CreditCheckout/Marks.antt =====
-- What a spending leaves of the packages: their holdings, and which of them are marked as exhausted.
use mathlib.Core.List.{Perm}
use mathlib.Core.List.Perm
use evermore.Base.{
  ℕ, ◌==◌, ◌≡◌, refl, sym, subst, ap, ◌∙◌, ◌⊎◌, inl, inr, arith, Bool, true, not, ◌&&◌, ◌||◌, List,
  [], ◌∷◌, ◌++◌, keep-append, sum_by, sum_by-perm, All, All-perm, Each, update, Bool-cases,
}
use evermore.Int64.{ℤ, pos, ◌==ℤ◌}
use evermore.Int64.Laws.{==ℤ→eq}
use evermore.Credit.{Entry, Package, balance}
use evermore.Credit
use evermore.Ordering.Orders.{CustomerPackage}
use evermore.Ordering.Spending.{CreditPackage}
use evermore.Ordering.Spending.Rounds.{up, available, funds}
use evermore.Ordering.Spending.Ledgers.{of_package, Tied}
use evermore.Ordering.CreditCheckout.{is_active, package_of, spendable, exhaust, mark_exhausted}
use evermore.Ordering.CreditCheckout.Exhaustion.{Inactive}
use evermore.Ordering.CreditCheckout.Holdings.{
  is_live_lem, counts, held, live_rows, held-spendable, spendable-All, rows-All,
}

abbrev after_entries : List Entry → CreditPackage → ℤ
after_entries es cp = balance (cp.entries ++ of_package cp.pkg.id es)

funds-Tied :
    (es : List Entry) (packs packs' : List CreditPackage)
    → Each (Tied es) packs packs'
    → funds packs' ≡ sum_by (λ cp. up (after_entries es cp)) packs
funds-Tied es [] [] h = refl
funds-Tied es [] (y ∷ ys) h = elim h [ ]
funds-Tied es (x ∷ xs) [] h = elim h [ ]
funds-Tied es (x ∷ xs) (y ∷ ys) ((p, e), h) =
    omega (arith, ap (λ w. up (balance w)) e, funds-Tied es xs ys h)

-- The funds of the locked packages are what the customer's packages hold.
pub funds-held :
    (u : ℕ) (ledger : List Entry) (rows : List CustomerPackage) (locked : List CreditPackage)
    → Perm locked (spendable u ledger rows)
    → funds locked ≡ held u ledger rows
funds-held u ledger rows locked order =
    sum_by-perm available order ∙ held-spendable u ledger ledger available rows (λ p at. refl)

-- After a spending they are what the packages hold by the grown ledger.
pub funds-held_after :
    (u : ℕ) (ledger es : List Entry) (rows : List CustomerPackage)
    (locked packs' : List CreditPackage)
    → Perm locked (spendable u ledger rows)
    → Each (Tied es) locked packs'
    → funds packs' ≡ held u (ledger ++ es) rows
funds-held_after u ledger es rows locked packs' order tied =
    funds-Tied es locked packs' tied
    ∙ (sum_by-perm (λ cp. up (after_entries es cp)) order
        ∙ held-spendable u ledger (ledger ++ es) (λ cp. up (after_entries es cp)) rows
            (λ p at.
              ap (λ w. up (balance w))
                (sym (keep-append (λ e. e.customer_package_id == p.id) ledger es))))

Inactive-live_rows :
    (id : ℕ) (rows : List CustomerPackage) → Inactive id rows → live_rows id rows ≡ 0
Inactive-live_rows id [] all = refl
Inactive-live_rows id (c ∷ cs) (h, all) =
    let rest = Inactive-live_rows id cs all in
    let live = is_live_lem c.row.status in
    elim (Bool-cases (c.row.id == id)) [
      | inl e ↦ let off = h (ground (arith, e)) in ground (arith, rest, live, off)
      | inr e ↦ ground (arith, e, rest)
    ]

-- A package that holds nothing after the spending has no active row.
abbrev is_marked : List Entry → List CustomerPackage → CreditPackage → Bool
is_marked es rows cp = not (after_entries es cp ==ℤ pos 0) || (live_rows cp.pkg.id rows == 0)

Tied-marked :
    (es : List Entry) (rows : List CustomerPackage) (packs packs' : List CreditPackage)
    → Each (Tied es) packs packs'
    → All (λ cp. balance cp.entries ≡ pos 0 → Inactive cp.pkg.id rows) packs'
    → All (λ cp. is_marked es rows cp ≡ true) packs
Tied-marked es rows [] packs' h all = tt
Tied-marked es rows (x ∷ xs) [] h all = elim h [ ]
Tied-marked es rows (x ∷ xs) (y ∷ ys) ((p, e), h) (f, all) = (
  elim (Bool-cases (after_entries es x ==ℤ pos 0)) [
    | inl z ↦
        let off = f (ap balance e ∙ ==ℤ→eq (after_entries es x) (pos 0) z) in
        let gone =
          Inactive-live_rows x.pkg.id rows (subst (λ (k : Package). Inactive k.id rows) p off) in
        ground (arith, gone)
    | inr z ↦ ground (arith, z)
  ],
  Tied-marked es rows xs ys h all,
)

pub exhausted_rows :
    (u : ℕ) (ledger es : List Entry) (rows rows' : List CustomerPackage)
    (locked packs' : List CreditPackage)
    → Perm locked (spendable u ledger rows)
    → Each (Tied es) locked packs'
    → All (λ cp. balance cp.entries ≡ pos 0 → Inactive cp.pkg.id rows') packs'
    → All
        (λ c.
          counts u c ≡ true
          → balance (of_package c.row.id (ledger ++ es)) ≡ pos 0
          → live_rows c.row.id rows' ≡ 0)
        rows
exhausted_rows u ledger es rows rows' locked packs' order tied all =
    rows-All u ledger (is_marked es rows')
      (λ id. balance (of_package id (ledger ++ es)) ≡ pos 0 → live_rows id rows' ≡ 0) rows
      (λ p at h z.
        let grown =
          ap balance (keep-append (λ (e : Entry). e.customer_package_id == p.id) ledger es) in
        let zero_now : (after_entries es (package_of ledger p at) ==ℤ pos 0) ≡ true =
          ap (λ w. w ==ℤ pos 0) (sym grown ∙ z) in
        ground (arith, h, zero_now))
      (All-perm (is_marked es rows') (Perm.symm order)
        (Tied-marked es rows' locked packs' tied all))

-- A row is as it was, or is exhausted, and its package holds nothing by a ledger.
abbrev pub KeptOrExhausted : List Entry → CustomerPackage → CustomerPackage → Type 0
KeptOrExhausted ledger c c' =
    (c' ≡ c)
    ⊎ ((c' ≡ record c { row = record c.row { status = Credit.exhausted } })
        × (balance (of_package c.row.id ledger) ≡ pos 0))

KeptOrExhausted-trans :
    (ledger : List Entry) (xs ys zs : List CustomerPackage)
    → Each (KeptOrExhausted ledger) xs ys
    → Each (KeptOrExhausted ledger) ys zs
    → Each (KeptOrExhausted ledger) xs zs
KeptOrExhausted-trans ledger [] [] [] h k = tt
KeptOrExhausted-trans ledger [] [] (z ∷ zs) h k = elim k [ ]
KeptOrExhausted-trans ledger [] (y ∷ ys) zs h k = elim h [ ]
KeptOrExhausted-trans ledger (x ∷ xs) [] zs h k = elim h [ ]
KeptOrExhausted-trans ledger (x ∷ xs) (y ∷ ys) [] h k = elim k [ ]
KeptOrExhausted-trans ledger (x ∷ xs) (y ∷ ys) (z ∷ zs) (a, h) (b, k) =
    (step x y z a b, KeptOrExhausted-trans ledger xs ys zs h k)
  where
    step :
        (x y z : CustomerPackage)
        → KeptOrExhausted ledger x y
        → KeptOrExhausted ledger y z
        → KeptOrExhausted ledger x z
    step x y z (inl e) b = subst (λ w. KeptOrExhausted ledger w z) e b
    step x y z (inr (e, empty)) (inl f) = inr (f ∙ e, empty)
    step x y z (inr (e, empty)) (inr (f, _)) = inr (f ∙ ap exhaust e, empty)

KeptOrExhausted-refl :
    (ledger : List Entry) (xs : List CustomerPackage) → Each (KeptOrExhausted ledger) xs xs
KeptOrExhausted-refl ledger [] = tt
KeptOrExhausted-refl ledger (x ∷ xs) = (inl refl, KeptOrExhausted-refl ledger xs)

exhaust_step :
    (ledger : List Entry) (id : ℕ) (rows : List CustomerPackage)
    → balance (of_package id ledger) ≡ pos 0
    → Each
        (KeptOrExhausted ledger)
        rows
        (update (λ c. c.row.id == id && is_active c.row.status) exhaust rows)
exhaust_step ledger id [] empty = tt
exhaust_step ledger id (c ∷ cs) empty =
    let rest = exhaust_step ledger id cs empty in
    elim (Bool-cases (c.row.id == id && is_active c.row.status)) [
      | inl e ↦
          let same : id ≡ c.row.id = ground (arith, e) in
          rw e (inr (refl, subst (λ k. balance (of_package k ledger) ≡ pos 0) same empty), rest)
      | inr e ↦ rw e (inl refl, rest)
    ]

marks :
    (ledger : List Entry) (packs : List CreditPackage) (rows : List CustomerPackage)
    → All (λ cp. balance cp.entries ≡ balance (of_package cp.pkg.id ledger)) packs
    → Each (KeptOrExhausted ledger) rows (mark_exhausted packs rows)
unfolding mark_exhausted
marks ledger [] rows all = KeptOrExhausted-refl ledger rows
marks ledger (cp ∷ packs) rows (h, all) = elim (Bool-cases (balance cp.entries ==ℤ pos 0)) [
  | inl e ↦
      let rows1 = update (λ c. c.row.id == cp.pkg.id && is_active c.row.status) exhaust rows in
      rw e (
        KeptOrExhausted-trans ledger rows rows1 (mark_exhausted packs rows1)
          (exhaust_step ledger cp.pkg.id rows (sym h ∙ ==ℤ→eq (balance cp.entries) (pos 0) e))
          (marks ledger packs rows1 all))
  | inr e ↦ rw e (marks ledger packs rows all)
]

same_refl : (a : ℤ) → (a ==ℤ a) ≡ true
same_refl a = ground arith

abbrev agrees : List Entry → List Entry → CreditPackage → Bool
agrees ledger es cp = after_entries es cp ==ℤ balance (of_package cp.pkg.id (ledger ++ es))

Tied-agrees :
    (ledger es : List Entry) (packs packs' : List CreditPackage)
    → Each (Tied es) packs packs'
    → All (λ cp. agrees ledger es cp ≡ true) packs
    → All (λ cp. balance cp.entries ≡ balance (of_package cp.pkg.id (ledger ++ es))) packs'
Tied-agrees ledger es [] [] h all = tt
Tied-agrees ledger es [] (y ∷ ys) h all = elim h [ ]
Tied-agrees ledger es (x ∷ xs) [] h all = elim h [ ]
Tied-agrees ledger es (x ∷ xs) (y ∷ ys) ((p, e), h) (a, all) = (
  ap balance e
      ∙ (==ℤ→eq (after_entries es x) (balance (of_package x.pkg.id (ledger ++ es))) a
          ∙ ap (λ (k : Package). balance (of_package k.id (ledger ++ es))) (sym p)),
  Tied-agrees ledger es xs ys h all,
)

-- The marks change nothing but the status of packages that hold nothing more.
pub marked_rows :
    (u : ℕ) (ledger es : List Entry) (rows : List CustomerPackage)
    (locked packs' : List CreditPackage)
    → Perm locked (spendable u ledger rows)
    → Each (Tied es) locked packs'
    → Each (KeptOrExhausted (ledger ++ es)) rows (mark_exhausted packs' rows)
marked_rows u ledger es rows locked packs' order tied = marks (ledger ++ es) packs' rows (
    Tied-agrees ledger es locked packs' tied (
      All-perm (agrees ledger es) order (
        spendable-All u ledger (agrees ledger es) rows (λ p at.
          subst (λ w. (balance (of_package p.id ledger ++ of_package p.id es) ==ℤ balance w) ≡ true)
            (sym (keep-append (λ (e : Entry). e.customer_package_id == p.id) ledger es))
            (same_refl (balance (of_package p.id ledger ++ of_package p.id es)))))))
