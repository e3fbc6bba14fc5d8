-- ===== src/Ordering/CreditCheckout/Exhaustion.antt =====
-- The packages that have run out are marked: `writeLedger` of internal/app/ordering/credits.go.
use evermore.Base.{
  ℕ, ◌==◌, ◌≡◌, refl, subst, inl, inr, arith, false, ◌&&◌, List, [], ◌∷◌, All, update, Bool-cases,
}
use evermore.Int64.{pos, ◌==ℤ◌}
use evermore.Credit.{balance}
use evermore.Ordering.Spending.{CreditPackage}
use evermore.Ordering.Orders.{CustomerPackage}
use evermore.Ordering.CreditCheckout.{is_active, exhaust, mark_exhausted}

-- No row of the package is active.
abbrev pub Inactive : ℕ → List CustomerPackage → Type 0
Inactive id rows = All (λ r. r.row.id ≡ id → is_active r.row.status ≡ false) rows

exhaust-Inactive :
    (id key : ℕ) (rows : List CustomerPackage)
    → Inactive id rows
    → Inactive id (update (λ c. c.row.id == key && is_active c.row.status) exhaust rows)
exhaust-Inactive id key [] all = tt
exhaust-Inactive id key (r ∷ rs) (h, all) =
    let rest = exhaust-Inactive id key rs all in
    elim (Bool-cases (r.row.id == key && is_active r.row.status)) [
      | inl e ↦ rw e ((λ _. refl), rest)
      | inr e ↦ rw e (h, rest)
    ]

exhausted-Inactive :
    (id : ℕ) (rows : List CustomerPackage)
    → Inactive id (update (λ c. c.row.id == id && is_active c.row.status) exhaust rows)
exhausted-Inactive id [] = tt
exhausted-Inactive id (r ∷ rs) =
    let rest = exhausted-Inactive id rs in
    elim (Bool-cases (r.row.id == id && is_active r.row.status)) [
      | inl e ↦ rw e ((λ _. refl), rest)
      | inr e ↦ rw e ((λ same. ground (arith, same, e)), rest)
    ]

mark_exhausted-Inactive :
    (id : ℕ) (packs : List CreditPackage) (rows : List CustomerPackage)
    → Inactive id rows
    → Inactive id (mark_exhausted packs rows)
unfolding mark_exhausted
mark_exhausted-Inactive id [] rows all = all
mark_exhausted-Inactive id (cp ∷ packs) rows all =
    elim (Bool-cases (balance cp.entries ==ℤ pos 0)) [
      | inl e ↦ rw e (mark_exhausted-Inactive id packs _ (exhaust-Inactive id cp.pkg.id rows all))
      | inr e ↦ rw e (mark_exhausted-Inactive id packs rows all)
    ]

-- Every package that holds nothing more is marked.
pub marked :
    (packs : List CreditPackage) (rows : List CustomerPackage)
    → All (λ cp. balance cp.entries ≡ pos 0 → Inactive cp.pkg.id (mark_exhausted packs rows)) packs
unfolding mark_exhausted
marked [] rows = tt
marked (cp ∷ packs) rows = elim (Bool-cases (balance cp.entries ==ℤ pos 0)) [
  | inl e ↦
      let rows' = update (λ c. c.row.id == cp.pkg.id && is_active c.row.status) exhaust rows in
      let same : mark_exhausted packs rows' ≡ mark_exhausted (cp ∷ packs) rows =
        ground (arith, e) in
      subst (λ rs. All (λ p. balance p.entries ≡ pos 0 → Inactive p.pkg.id rs) (cp ∷ packs)) same
        (
          (λ _. mark_exhausted-Inactive cp.pkg.id packs rows' (exhausted-Inactive cp.pkg.id rows)),
          marked packs rows',
        )
  | inr e ↦
      let same : mark_exhausted packs rows ≡ mark_exhausted (cp ∷ packs) rows = ground (arith, e) in
      subst (λ rs. All (λ p. balance p.entries ≡ pos 0 → Inactive p.pkg.id rs) (cp ∷ packs)) same
        ((λ z. absurd (ground (arith, z, e))), marked packs rows)
]
