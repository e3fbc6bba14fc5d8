-- ===== src/Http/Addresses/Book/Statements.antt =====
-- The transactions of the address screens, on one customer's rows and on those of the others.
use mathlib.Core.List.{append-nil}
use evermore.Base.{
  ℕ, ◌+◌, ◌≤◌, Bool, true, false, ◌&&◌, ◌||◌, ◌==◌, ==_iff, ◌≡◌, refl, sym, ap, subst, ◌∙◌, inl,
  inr, List, [], ◌∷◌, ◌++◌, if◌then◌else◌, tally, keep, update, arith, ok, >>=-eq-ok, ok_inj,
  Bool-cases, tally-append, keep-append, tally-update, keep-update, tally-keep,
}
use evermore.Http.Addresses.{
  AddressFields, AddressRow, is_live, is_main, set_default, indexed, exec, insert_address,
  add_address,
}
use evermore.Http.Addresses.Book.{foreign, Settled, Keyed}

module _ {ℓ} {F : Type ℓ} where
  -- A statement on a customer's rows that succeeds.
  pub indexed-eq-ok : (rows rows' : List (AddressRow F)) → indexed rows ≡ ok rows' → rows' ≡ rows
  unfolding indexed
  indexed-eq-ok rows rows' h = ground arith

  -- What a statement of customer `c` may do: nothing to the others' rows, and nothing to the ids.
  abbrev pub Own : ℕ → List (AddressRow F) → List (AddressRow F) → Type ℓ
  Own c rows rows' = keep (foreign c) rows' ≡ keep (foreign c) rows

  main-foreign :
      (c d : ℕ) → (d == c) ≡ false → (r : AddressRow F) → foreign c r ≡ false → is_main d r ≡ false
  main-foreign c d e r h = ground arith

  live-foreign :
      (c d : ℕ) → (d == c) ≡ false → (r : AddressRow F) → foreign c r ≡ false → is_live d r ≡ false
  live-foreign c d e r h = ground arith

  -- The books of the others stay settled.
  pub Own-Settled :
      (c d : ℕ) (rows rows' : List (AddressRow F))
      → (d == c) ≡ false
      → Own c rows rows'
      → Settled d rows
      → Settled d rows'
  Own-Settled c d rows rows' e own h = grind (
    arith,
    tally-keep (is_main d) (foreign c) rows (main-foreign c d e),
    tally-keep (is_main d) (foreign c) rows' (main-foreign c d e),
    tally-keep (is_live d) (foreign c) rows (live-foreign c d e),
    tally-keep (is_live d) (foreign c) rows' (live-foreign c d e),
    ap (tally (is_main d)) own,
    ap (tally (is_live d)) own,
    h,
  )

  -- An UPDATE of rows of the customer that keeps their ids and their owner.
  pub Own-update :
      (c : ℕ) (test : AddressRow F → Bool) (change : AddressRow F → AddressRow F)
      (rows : List (AddressRow F))
      → ((r : AddressRow F) → (change r).customer_id ≡ r.customer_id)
      → tally (λ r. test r && foreign c r) rows ≡ 0
      → Own c rows (update test change rows)
  Own-update c test change rows owner h =
      keep-update (foreign c) test change rows (λ r f. rw owner f) h

  pub Keyed-update :
      (test : AddressRow F → Bool) (change : AddressRow F → AddressRow F)
      (rows : List (AddressRow F))
      → ((r : AddressRow F) → (change r).id ≡ r.id)
      → Keyed rows
      → Keyed (update test change rows)
  Keyed-update test change rows same h i =
      subst (λ n. n ≤ 1)
        (sym (
          tally-update (λ r. r.id == i) test (λ r. r.id == i) change rows
            (λ r _. ap (λ n. n == i) (same r)) (λ r _. refl)))
        (h i)

  pub none_foreign :
      (c : ℕ) (test : AddressRow F → Bool) (rows : List (AddressRow F))
      → ((r : AddressRow F) → test r ≡ true → foreign c r ≡ false)
      → tally (λ r. test r && foreign c r) rows ≡ 0
  none_foreign c test [] h = refl
  none_foreign c test (r ∷ rs) h = ground (arith, h r, none_foreign c test rs h)

  -- What a transaction of customer `c` does.
  abbrev pub Kept : ℕ → List (AddressRow F) → List (AddressRow F) → Type ℓ
  Kept c rows rows' = Own c rows rows' × Keyed rows' × Settled c rows'

  insert-eq-ok :
      (r : AddressRow F) (rows rows' : List (AddressRow F))
      → insert_address r rows ≡ ok rows'
      → (tally (λ x. x.id == r.id) rows ≡ 0) × (rows' ≡ rows ++ r ∷ [])
  unfolding insert_address indexed
  insert-eq-ok r rows rows' h = ground arith

  Keyed-append_one :
      (r : AddressRow F) (rows : List (AddressRow F))
      → Keyed rows
      → tally (λ x. x.id == r.id) rows ≡ 0
      → Keyed (rows ++ r ∷ [])
  Keyed-append_one r rows h fresh i = elim (Bool-cases (r.id == i)) [
    | inl e ↦
        let same = (==_iff r.id i).0 e in
        ground (
          arith,
          tally-append (λ x. x.id == i) rows (r ∷ []),
          e,
          subst (λ j. tally (λ x. x.id == j) rows ≡ 0) same fresh,
        )
    | inr e ↦ ground (arith, tally-append (λ x. x.id == i) rows (r ∷ []), h i, e)
  ]

  Own-append_one :
      (c : ℕ) (r : AddressRow F) (rows : List (AddressRow F))
      → r.customer_id ≡ c
      → keep (foreign c) (rows ++ r ∷ []) ≡ keep (foreign c) rows
  Own-append_one c r rows e =
      ground (arith, keep-append (foreign c) rows (r ∷ []), append-nil (keep (foreign c) rows))

  -- `UPDATE … SET is_default = false WHERE customer_id = $1`
  cleared : (c : ℕ) → List (AddressRow F) → List (AddressRow F)
  cleared c rows = update (λ r. r.customer_id == c) (set_default false) rows

  cleared-main : (c : ℕ) (rows : List (AddressRow F)) → tally (is_main c) (cleared c rows) ≡ 0
  unfolding cleared
  cleared-main c [] = refl
  cleared-main c (r ∷ rs) = ground (arith, cleared-main c rs)

  cleared-live :
      (c : ℕ) (rows : List (AddressRow F))
      → tally (is_live c) (cleared c rows) ≡ tally (is_live c) rows
  unfolding cleared
  cleared-live c [] = refl
  cleared-live c (r ∷ rs) = ground (arith, cleared-live c rs)

  pub own_rows : (c : ℕ) (r : AddressRow F) → (r.customer_id == c) ≡ true → foreign c r ≡ false
  own_rows c r h = ground arith

  cleared-Own : (c : ℕ) (rows : List (AddressRow F)) → Own c rows (cleared c rows)
  unfolding cleared
  cleared-Own c rows =
      Own-update c (λ r. r.customer_id == c) (set_default false) rows (λ r. refl)
        (none_foreign c (λ r. r.customer_id == c) rows (own_rows c))

  cleared-Keyed : (c : ℕ) (rows : List (AddressRow F)) → Keyed rows → Keyed (cleared c rows)
  unfolding cleared
  cleared-Keyed c rows = Keyed-update (λ r. r.customer_id == c) (set_default false) rows (λ r. refl)

  -- A row is appended to rows whose default address was cleared when the row takes its place.
  appended :
      (c : ℕ) (r : AddressRow F) (rows before : List (AddressRow F))
      → r.customer_id ≡ c
      → r.is_active ≡ true
      → Own c before rows
      → Keyed rows
      → tally (λ x. x.id == r.id) rows ≡ 0
      → tally (is_main c) rows + (if r.is_default then 1 else 0) ≡ 1
      → Kept c before (rows ++ r ∷ [])
  appended c r rows before owner live own keyed fresh one = (
    Own-append_one c r rows owner ∙ own,
    Keyed-append_one r rows keyed fresh,
    ground (arith, tally-append (is_main c) rows (r ∷ []), tally-append (is_live c) rows (r ∷ [])),
  )

  inserted :
      (c : ℕ) (r : AddressRow F) (before v rows' : List (AddressRow F))
      → r.customer_id ≡ c
      → r.is_active ≡ true
      → Own c before v
      → Keyed v
      → tally (is_main c) v + (if r.is_default then 1 else 0) ≡ 1
      → insert_address r v ≡ ok rows'
      → Kept c before rows'
  inserted c r before v rows' owner live own keyed one h =
      let (fresh, same) = insert-eq-ok r v rows' h in
      subst (Kept c before) (sym same) (appended c r v before owner live own keyed fresh one)

  cleared-eq :
      (c : ℕ) (rows v : List (AddressRow F))
      → exec (λ r. r.customer_id == c) (set_default false) rows ≡ ok v
      → v ≡ cleared c rows
  unfolding cleared
  cleared-eq c rows v h = indexed-eq-ok (cleared c rows) v h

  -- Whether the default addresses are cleared, what is inserted next is the only one.
  prepared :
      (c : ℕ) (rows v : List (AddressRow F)) (m : Bool)
      → Keyed rows
      → (m ≡ false → tally (is_main c) rows ≡ 1)
      → (if m then exec (λ r. r.customer_id == c) (set_default false) rows else ok rows) ≡ ok v
      → Own c rows v × Keyed v × (tally (is_main c) v + (if m then 1 else 0) ≡ 1)
  prepared c rows v true keyed one h =
      subst (λ w. Own c rows w × Keyed w × (tally (is_main c) w + 1 ≡ 1))
        (sym (cleared-eq c rows v h))
        (cleared-Own c rows, cleared-Keyed c rows keyed, omega (arith, cleared-main c rows))
  prepared c rows v false keyed one h =
      subst (λ w. Own c rows w × Keyed w × (tally (is_main c) w + 0 ≡ 1)) (ok_inj rows v h)
        (refl, keyed, omega (arith, one refl))

  pub add_address-Kept :
      (new_id now c : ℕ) (f : AddressFields F) (asked : Bool) (rows rows' : List (AddressRow F))
      → Keyed rows
      → Settled c rows
      → add_address new_id now c f asked rows ≡ ok rows'
      → Kept c rows rows'
  unfolding add_address
  add_address-Kept new_id now c f asked rows rows' keyed settled h =
      let (v, e, i) = >>=-eq-ok _ _ h in
      let (own, keyed', one) =
        prepared c rows v (asked || tally (is_live c) rows == 0) keyed
          (λ m. ground (arith, settled, m)) e in
      inserted c _ rows v rows' refl refl own keyed' one i
