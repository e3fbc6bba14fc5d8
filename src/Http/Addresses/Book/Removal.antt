-- ===== src/Http/Addresses/Book/Removal.antt =====
-- `RemoveAddress`: the address goes, and the oldest of the others takes its place.
use evermore.Base.{
  ℕ, ◌≤◌, ◌<◌, Bool, true, false, not, ◌&&◌, leb, ◌==◌, ==_iff, ◌≡◌, refl, sym, subst, ◌∙◌, inl,
  inr, ◌⊎◌, List, [], ◌∷◌, Option, none, some, tally, update, arith, ok, >>=-eq-ok, refuse-eq-ok,
  tally_le, tally_split, Bool-cases,
}
use evermore.Http.Addresses.{
  AddressRow, is_live, is_main, is_target, set_default, elder, oldest, promote_row, promote,
  remove_address,
}
use evermore.Http.Addresses.Book.{foreign, Settled, Keyed}
use evermore.Http.Addresses.Book.Statements.{
  Own, Kept, indexed-eq-ok, Own-update, Keyed-update, none_foreign,
}
use evermore.Http.Addresses.Book.Switching.{target_own}

module _ {ℓ} {F : Type ℓ} where
  some_inj : (a b : AddressRow F) → some a ≡ some b → a ≡ b
  some_inj a b h = cc

  -- The oldest address is one of the customer's, and is missing only when there is none.
  oldest-none :
      (c : ℕ) (rows : List (AddressRow F)) → oldest c rows ≡ none → tally (is_live c) rows ≡ 0
  unfolding oldest
  oldest-none c [] h = refl
  oldest-none c (r ∷ rs) h = ground (arith, oldest-none c rs)

  elder-eq-some :
      (b : Bool) (x r : AddressRow F) (o : Option (AddressRow F))
      → elder b x o ≡ some r
      → ((b ≡ true) × (x ≡ r)) ⊎ (o ≡ some r)
  elder-eq-some false x r o h = inr h
  elder-eq-some true x r none h = inl (refl, some_inj x r h)
  elder-eq-some true x r (some s) h = elim (Bool-cases (leb x.created_at s.created_at)) [
    | inl e ↦ inl (refl, some_inj x r (rw e at h))
    | inr e ↦ inr (rw e at h)
  ]

  same_id :
      (c : ℕ) (x r : AddressRow F)
      → is_live c x ≡ true
      → x ≡ r
      → (is_live c x && x.id == r.id) ≡ true
  same_id c x r live e = rw (live, sym e) ((==_iff x.id x.id).1 refl)

  oldest-live :
      (c : ℕ) (rows : List (AddressRow F)) (r : AddressRow F)
      → oldest c rows ≡ some r
      → 0 < tally (λ x. is_live c x && x.id == r.id) rows
  unfolding oldest
  oldest-live c [] r h = cc
  oldest-live c (x ∷ xs) r h = elim (elder-eq-some (is_live c x) x r (oldest c xs) h) [
    | inl (live, e) ↦ ground (arith, same_id c x r live e)
    | inr o ↦ ground (arith, oldest-live c xs r o)
  ]

  abbrev removed : ℕ → ℕ → List (AddressRow F) → List (AddressRow F)
  removed c a rows =
      update (is_target c a) (λ r. record r { is_default = false; is_active = false }) rows

  removed-main :
      (c a : ℕ) (rows : List (AddressRow F))
      → tally (is_main c) (removed c a rows) ≤ tally (is_main c) rows
  removed-main c a [] = omega arith
  removed-main c a (r ∷ rs) = ground (arith, removed-main c a rs)

  -- The statement that promotes a row.
  abbrev promoted : AddressRow F → List (AddressRow F) → List (AddressRow F)
  promoted r rows = update (λ x. x.id == r.id) (set_default true) rows

  promoted-main :
      (c : ℕ) (r : AddressRow F) (rows : List (AddressRow F))
      → tally (is_main c) rows ≡ 0
      → tally (is_main c) (promoted r rows) ≡ tally (λ x. is_live c x && x.id == r.id) rows
  promoted-main c r [] h = refl
  promoted-main c r (x ∷ xs) h = ground (arith, promoted-main c r xs)

  promoted-live :
      (c : ℕ) (r : AddressRow F) (rows : List (AddressRow F))
      → tally (is_live c) (promoted r rows) ≡ tally (is_live c) rows
  promoted-live c r [] = refl
  promoted-live c r (x ∷ xs) = ground (arith, promoted-live c r xs)

  -- The id of one of the customer's rows is not that of a foreign one.
  promoted_own :
      (c : ℕ) (r : AddressRow F) (rows : List (AddressRow F))
      → Keyed rows
      → 0 < tally (λ x. is_live c x && x.id == r.id) rows
      → tally (λ x. x.id == r.id && foreign c x) rows ≡ 0
  promoted_own c r rows keyed live = omega (
    arith,
    keyed r.id,
    tally_split (λ x. x.id == r.id) (foreign c) rows,
    live,
    tally_le (λ x. is_live c x && x.id == r.id) (λ x. x.id == r.id && not (foreign c x)) rows
        (λ x h. ground arith),
  )

  promoted-Kept :
      (c : ℕ) (r : AddressRow F) (rows : List (AddressRow F))
      → Keyed rows
      → tally (is_main c) rows ≡ 0
      → 0 < tally (λ x. is_live c x && x.id == r.id) rows
      → Kept c rows (promoted r rows)
  promoted-Kept c r rows keyed no_main live = (
    Own-update c (λ x. x.id == r.id) (set_default true) rows (λ x. refl)
        (promoted_own c r rows keyed live),
    Keyed-update (λ x. x.id == r.id) (set_default true) rows (λ x. refl) keyed,
    grind (
      arith,
      promoted-main c r rows no_main,
      promoted-live c r rows,
      live,
      keyed r.id,
      tally_le (λ x. is_live c x && x.id == r.id) (λ x. x.id == r.id) rows (λ x h. ground arith),
      tally_le (λ x. is_live c x && x.id == r.id) (is_live c) rows (λ x h. ground arith),
    ),
  )

  promoted_row :
      (c : ℕ) (o : Option (AddressRow F)) (rows rows' : List (AddressRow F))
      → Keyed rows
      → tally (is_main c) rows ≡ 0
      → oldest c rows ≡ o
      → promote_row o rows ≡ ok rows'
      → Kept c rows rows'
  promoted_row c none rows rows' keyed no_main o h =
      subst (Kept c rows) (sym (indexed-eq-ok rows rows' h))
        (refl, keyed, grind (arith, no_main, oldest-none c rows o))
  promoted_row c (some r) rows rows' keyed no_main o h =
      subst (Kept c rows) (sym (indexed-eq-ok (promoted r rows) rows' h))
        (promoted-Kept c r rows keyed no_main (oldest-live c rows r o))

  promote-Kept :
      (c : ℕ) (rows rows' : List (AddressRow F))
      → Keyed rows
      → tally (is_main c) rows ≤ 1
      → promote c rows ≡ ok rows'
      → Kept c rows rows'
  unfolding promote
  promote-Kept c rows rows' keyed few h = elim (Bool-cases (tally (is_main c) rows == 0)) [
    | inl z ↦ promoted_row c (oldest c rows) rows rows' keyed ((==_iff _ 0).0 z) refl (rw z at h)
    | inr p ↦ subst (Kept c rows) (sym (indexed-eq-ok rows rows' (rw p at h))) (
      refl,
      keyed,
      grind (arith, p, few, tally_le (is_main c) (is_live c) rows (λ r h. ground arith)),
    )
  ]

  removed-Kept :
      (c a : ℕ) (rows : List (AddressRow F))
      → Keyed rows
      → Settled c rows
      → Own c rows (removed c a rows)
        × Keyed (removed c a rows)
        × (tally (is_main c) (removed c a rows) ≤ 1)
  removed-Kept c a rows keyed settled = (
    Own-update c (is_target c a) _ rows (λ r. refl)
        (none_foreign c (is_target c a) rows (target_own c a)),
    Keyed-update (is_target c a) _ rows (λ r. refl) keyed,
    grind (arith, removed-main c a rows, settled),
  )

  pub remove_address-Kept :
      (c a : ℕ) (rows rows' : List (AddressRow F))
      → Keyed rows
      → Settled c rows
      → remove_address c a rows ≡ ok rows'
      → Kept c rows rows'
  unfolding remove_address
  remove_address-Kept c a rows rows' keyed settled h =
      let (v, first, rest) = >>=-eq-ok _ _ h in
      let (found, last) = refuse-eq-ok _ _ rest in
      let (own, keyed', few) =
        subst (λ w. Own c rows w × Keyed w × (tally (is_main c) w ≤ 1))
          (sym (indexed-eq-ok (removed c a rows) v first)) (removed-Kept c a rows keyed settled) in
      let (own', keyed'', settled') = promote-Kept c v rows' keyed' few last in
      (own' ∙ own, keyed'', settled')
