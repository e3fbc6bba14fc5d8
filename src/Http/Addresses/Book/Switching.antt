-- ===== src/Http/Addresses/Book/Switching.antt =====
-- `setDefaultAddress` and the UPDATE of `EditAddress`.
use evermore.Base.{
  ℕ, ◌+◌, ◌≤◌, ◌<◌, true, false, not, ◌&&◌, ◌==◌, ==_iff, ◌≡◌, refl, sym, ap, subst, ◌∙◌, List, [],
  ◌∷◌, tally, update, arith, ok, err, >>=-eq-ok, refuse-eq-ok, tally_le, tally_split,
}
use evermore.Platform.Errors.{driver}
use evermore.Http.Addresses.{
  AddressFields, AddressRow, is_live, is_main, is_target, set_default, clash, indexed, exec,
  set_default_address, edit_address,
}
use evermore.Http.Addresses.Book.{foreign, one_if_any, Settled, Keyed}
use evermore.Http.Addresses.Book.Statements.{
  Kept, indexed-eq-ok, Own-update, Keyed-update, none_foreign,
}

module _ {ℓ} {F : Type ℓ} where
  pub target_own : (c a : ℕ) (r : AddressRow F) → is_target c a r ≡ true → foreign c r ≡ false
  target_own c a r h = ground arith

  rest_own :
      (c a : ℕ) (r : AddressRow F)
      → (r.customer_id == c && not (r.id == a)) ≡ true
      → foreign c r ≡ false
  rest_own c a r h = ground arith

  marked : ℕ → ℕ → List (AddressRow F) → List (AddressRow F)
  marked c a rows = update (is_target c a) (set_default true) rows

  switched : ℕ → ℕ → List (AddressRow F) → List (AddressRow F)
  unfolding marked
  switched c a rows =
      update (λ r. r.customer_id == c && not (r.id == a)) (set_default false) (marked c a rows)

  -- After the two statements the target is the only default address.
  switched-main :
      (c a : ℕ) (rows : List (AddressRow F))
      → tally (is_main c) (switched c a rows) ≡ tally (is_target c a) rows
  unfolding switched marked
  switched-main c a [] = refl
  switched-main c a (r ∷ rs) = ground (arith, switched-main c a rs)

  switched-live :
      (c a : ℕ) (rows : List (AddressRow F))
      → tally (is_live c) (switched c a rows) ≡ tally (is_live c) rows
  unfolding switched marked
  switched-live c a [] = refl
  switched-live c a (r ∷ rs) = ground (arith, switched-live c a rs)

  -- An id is one address.
  pub target_once :
      (c a : ℕ) (rows : List (AddressRow F))
      → Keyed rows
      → (tally (is_target c a) rows ≤ 1) × (tally (is_target c a) rows ≤ tally (is_live c) rows)
  target_once c a rows keyed = (
    omega (arith, keyed a, tally_le (is_target c a) (λ r. r.id == a) rows (λ r h. ground arith)),
    tally_le (is_target c a) (is_live c) rows (λ r h. ground arith),
  )

  switched-Kept :
      (c a : ℕ) (rows : List (AddressRow F))
      → Keyed rows
      → tally (is_target c a) rows == 0 ≡ false
      → Kept c rows (switched c a rows)
  unfolding switched marked
  switched-Kept c a rows keyed found = (
    Own-update c _ (set_default false) (marked c a rows) (λ r. refl)
          (none_foreign c _ (marked c a rows) (rest_own c a))
        ∙ Own-update c (is_target c a) (set_default true) rows (λ r. refl)
            (none_foreign c (is_target c a) rows (target_own c a)),
    Keyed-update _ (set_default false) (marked c a rows) (λ r. refl)
        (Keyed-update (is_target c a) (set_default true) rows (λ r. refl) keyed),
    grind (
      arith,
      switched-main c a rows,
      switched-live c a rows,
      (target_once c a rows keyed).0,
      (target_once c a rows keyed).1,
      found,
    ),
  )

  switched-eq :
      (c a : ℕ) (rows v rows' : List (AddressRow F))
      → exec (is_target c a) (set_default true) rows ≡ ok v
      → exec (λ r. r.customer_id == c && not (r.id == a)) (set_default false) v ≡ ok rows'
      → rows' ≡ switched c a rows
  unfolding switched marked
  switched-eq c a rows v rows' first second =
      indexed-eq-ok (update (λ r. r.customer_id == c && not (r.id == a)) (set_default false) v)
        rows' second
      ∙ ap (update (λ r. r.customer_id == c && not (r.id == a)) (set_default false))
          (indexed-eq-ok (marked c a rows) v first)

  pub set_default-Kept :
      (c a : ℕ) (rows rows' : List (AddressRow F))
      → Keyed rows
      → set_default_address c a rows ≡ ok rows'
      → Kept c rows rows'
  unfolding set_default_address
  set_default-Kept c a rows rows' keyed h =
      let (v, first, rest) = >>=-eq-ok _ _ h in
      let (found, second) = refuse-eq-ok _ _ rest in
      subst (Kept c rows) (sym (switched-eq c a rows v rows' first second))
        (switched-Kept c a rows keyed found)

  edited-main :
      (c a : ℕ) (f : AddressFields F) (rows : List (AddressRow F))
      → tally (is_main c) (update (is_target c a) (λ r. record r { fields = f }) rows)
        ≡ tally (is_main c) rows
  edited-main c a f [] = refl
  edited-main c a f (r ∷ rs) = ground (arith, edited-main c a f rs)

  edited-live :
      (c a : ℕ) (f : AddressFields F) (rows : List (AddressRow F))
      → tally (is_live c) (update (is_target c a) (λ r. record r { fields = f }) rows)
        ≡ tally (is_live c) rows
  edited-live c a f [] = refl
  edited-live c a f (r ∷ rs) = ground (arith, edited-live c a f rs)

  edited-Kept :
      (c a : ℕ) (f : AddressFields F) (rows : List (AddressRow F))
      → Keyed rows
      → Settled c rows
      → Kept c rows (update (is_target c a) (λ r. record r { fields = f }) rows)
  edited-Kept c a f rows keyed settled = (
    Own-update c (is_target c a) (λ r. record r { fields = f }) rows (λ r. refl)
        (none_foreign c (is_target c a) rows (target_own c a)),
    Keyed-update (is_target c a) (λ r. record r { fields = f }) rows (λ r. refl) keyed,
    edited-main c a f rows ∙ (settled ∙ ap one_if_any (sym (edited-live c a f rows))),
  )

  pub edit_address-Kept :
      (c a : ℕ) (f : AddressFields F) (rows rows' : List (AddressRow F))
      → Keyed rows
      → Settled c rows
      → edit_address c a f rows ≡ ok rows'
      → Kept c rows rows'
  unfolding edit_address
  edit_address-Kept c a f rows rows' keyed settled h =
      subst (Kept c rows)
        (sym (indexed-eq-ok (update (is_target c a) (λ r. record r { fields = f }) rows) rows' h))
        (edited-Kept c a f rows keyed settled)

  -- Two default addresses of one customer are seen by the index.
  clash_seen :
      (c : ℕ) (all rows : List (AddressRow F))
      → 1 < tally (is_main c) all
      → 0 < tally (is_main c) rows
      → clash all rows ≡ true
  unfolding clash
  clash_seen c all [] two some_main = elim some_main [ ]
  clash_seen c all (r ∷ rs) two some_main =
      grind (arith, clash_seen c all rs two, ==_iff r.customer_id c)

  marked-main :
      (c a : ℕ) (rows : List (AddressRow F))
      → tally (is_main c) (marked c a rows)
        ≡ tally (is_target c a) rows + tally (λ r. is_main c r && not (r.id == a)) rows
  unfolding marked
  marked-main c a [] = refl
  marked-main c a (r ∷ rs) = ground (arith, marked-main c a rs)

-- A settled book refuses to make another of its addresses the default one: the first statement
-- leaves two default addresses for a moment, and the index does not wait for the second one.
pub set_default-refused {ℓ} :
    {F : Type ℓ} (c a : ℕ) (rows : List (AddressRow F))
    → Settled c rows
    → 0 < tally (is_target c a) rows
    → tally (λ r. is_main c r && r.id == a) rows ≡ 0
    → set_default_address c a rows ≡ err (driver "customer_address_one_default_uk")
unfolding set_default_address indexed marked
set_default-refused c a rows settled found other =
    let two : 1 < tally (is_main c) (marked c a rows) = grind (
      arith,
      marked-main c a rows,
      settled,
      found,
      other,
      tally_split (is_main c) (λ r. r.id == a) rows,
      tally_le (is_target c a) (is_live c) rows (λ r h. ground arith),
    ) in
    rw (clash_seen c (marked c a rows) (marked c a rows) two (omega arith)) refl
