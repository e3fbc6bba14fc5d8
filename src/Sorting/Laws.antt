-- ===== src/Sorting/Laws.antt =====
-- The sorted list is a permutation in order, and filtering before and after is the same.
use mathlib.Core.List.{Perm}
use mathlib.Core.List.Perm
use evermore.Base.{
  ◌≡◌, refl, inl, inr, arith, Bool, true, false, List, [], ◌∷◌, if◌then◌else◌, keep, All, Any,
  Bool-cases,
}
use evermore.Sorting.{insert, sort}

moved :
    {A : Type 0} (P : A → Type 0) (x y : A) (ys zs : List A)
    → (Any P zs → Any P (x ∷ ys))
    → Any P (y ∷ zs)
    → Any P (x ∷ y ∷ ys)
moved P x y ys zs f (inl h) = inr (inl h)
moved P x y ys zs f (inr m) = elim (f m) [ inl h ↦ inl h | inr t ↦ inr (inr t) ]

module _ {A : Type 0} (less : A → A → Bool) where
  insert-perm : (x : A) (xs : List A) → Perm (insert less x xs) (x ∷ xs)
  unfolding insert
  insert-perm x [] = Perm.refl (x ∷ [])
  insert-perm x (y ∷ ys) = elim (Bool-cases (less y x)) [
    | inl t ↦ rw t (Perm.trans (Perm.cons y (insert-perm x ys)) (Perm.swap x y ys))
    | inr f ↦ rw f (Perm.refl (x ∷ y ∷ ys))
  ]

  pub sort-perm : (xs : List A) → Perm (sort less xs) xs
  unfolding sort
  sort-perm [] = Perm.refl []
  sort-perm (x ∷ xs) = Perm.trans (insert-perm x (sort less xs)) (Perm.cons x (sort-perm xs))

  insert-Any : (P : A → Type 0) (x : A) (xs : List A) → Any P (insert less x xs) → Any P (x ∷ xs)
  unfolding insert
  insert-Any P x [] m = m
  insert-Any P x (y ∷ ys) m = elim (Bool-cases (less y x)) [
    | inl t ↦ moved P x y ys (insert less x ys) (insert-Any P x ys) (rw t at m)
    | inr f ↦ rw f at m
  ]

  -- What the sorted list holds, the list holds.
  pub sort-Any : (P : A → Type 0) (xs : List A) → Any P (sort less xs) → Any P xs
  unfolding sort
  sort-Any P (x ∷ xs) m = elim (insert-Any P x (sort less xs) m) [
    | inl h ↦ inl h
    | inr t ↦ inr (sort-Any P xs t)
  ]
  sort-Any P [] m = m

  All-insert : (P : A → Type 0) (x : A) (xs : List A) → All P (insert less x xs) → P x × All P xs
  unfolding insert
  All-insert P x [] all = all
  All-insert P x (y ∷ ys) all = elim (Bool-cases (less y x)) [
    | inl t ↦
        let (q, rest) : P y × All P (insert less x ys) = rw t at all in
        let (h, tl) = All-insert P x ys rest in (h, (q, tl))
    | inr f ↦ rw f at all
  ]

  pub All-sort : (P : A → Type 0) (xs : List A) → All P (sort less xs) → All P xs
  unfolding sort
  All-sort P [] all = all
  All-sort P (x ∷ xs) all = let (h, t) = All-insert P x (sort less xs) all in (h, All-sort P xs t)

  -- No element comes before one that is less.
  abbrev pub IsSorted : List A → Type 0
  IsSorted [] = Unit {0}
  IsSorted (x ∷ xs) = All (λ y. less y x ≡ false) xs × IsSorted xs

  module _ (trans : (x y z : A) → less z y ≡ false → less y x ≡ false → less z x ≡ false)
      (asym : (x y : A) → less x y ≡ true → less y x ≡ false) where
    weaken :
        (x y : A) (zs : List A)
        → less y x ≡ false
        → All (λ z. less z y ≡ false) zs
        → All (λ z. less z x ≡ false) zs
    weaken x y [] h all = tt
    weaken x y (z ∷ zs) h (a, all) = (trans x y z a h, weaken x y zs h all)

    insert-All : (P : A → Type 0) (x : A) (xs : List A) → P x → All P xs → All P (insert less x xs)
    unfolding insert
    insert-All P x [] p all = (p, tt)
    insert-All P x (y ∷ ys) p (q, all) = elim (Bool-cases (less y x)) [
      | inl t ↦ rw t (q, insert-All P x ys p all)
      | inr f ↦ rw f (p, (q, all))
    ]

    insert-IsSorted : (x : A) (xs : List A) → IsSorted xs → IsSorted (insert less x xs)
    unfolding insert
    insert-IsSorted x [] s = (tt, tt)
    insert-IsSorted x (y ∷ ys) (all, s) = elim (Bool-cases (less y x)) [
      | inl t ↦
          rw t (insert-All (λ z. less z y ≡ false) x ys (asym y x t) all, insert-IsSorted x ys s)
      | inr f ↦ rw f ((f, weaken x y ys f all), (all, s))
    ]

    pub sort-IsSorted : (xs : List A) → IsSorted (sort less xs)
    unfolding sort
    sort-IsSorted [] = tt
    sort-IsSorted (x ∷ xs) = insert-IsSorted x (sort less xs) (sort-IsSorted xs)

    insert_first :
        (x : A) (xs : List A) → All (λ z. less z x ≡ false) xs → insert less x xs ≡ x ∷ xs
    unfolding insert
    insert_first x [] all = refl
    insert_first x (z ∷ zs) (h, all) = rw h

    keep-All : (P : A → Type 0) (p : A → Bool) (xs : List A) → All P xs → All P (keep p xs)
    keep-All P p [] all = tt
    keep-All P p (x ∷ xs) (h, all) = elim (Bool-cases (p x)) [
      | inl t ↦ rw t (h, keep-All P p xs all)
      | inr f ↦ rw f (keep-All P p xs all)
    ]

    keep-insert :
        (p : A → Bool) (x : A) (xs : List A)
        → IsSorted xs
        → keep p (insert less x xs) ≡ (if p x then insert less x (keep p xs) else keep p xs)
    unfolding insert
    keep-insert p x [] s = refl
    keep-insert p x (y ∷ ys) (all, s) = ground (
      arith,
      keep-insert p x ys s,
      insert_first x (keep p ys),
      λ (f : less y x ≡ false). keep-All (λ z. less z x ≡ false) p ys (weaken x y ys f all),
    )

    -- To sort the elements that pass a test is to pass them from the sorted list.
    pub keep-sort : (p : A → Bool) (xs : List A) → keep p (sort less xs) ≡ sort less (keep p xs)
    unfolding sort
    keep-sort p [] = refl
    keep-sort p (x ∷ xs) =
        ground (arith, keep-insert p x (sort less xs) (sort-IsSorted xs), keep-sort p xs)
