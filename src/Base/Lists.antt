-- ===== src/Base/Lists.antt =====
-- Lists measured by native numbers, and predicates on lists by recursion.
use Prim.Native.Nat.{ℕ, zero, suc, ◌+◌}
use mathlib.Core.Path.{◌≡◌, refl, ap}
use mathlib.Core.Logic.{◌⊎◌, inl, inr}
use mathlib.Core.Bool.{Bool, true, ◌&&◌}
use mathlib.Core.List.{List, [], ◌∷◌, ◌++◌}
use native.Mathlib.Omega.{arith}
use evermore.Base.Tests.{if◌then◌else◌, Bool-cases}

module _ {ℓ} {A : Type ℓ} where
  abbrev pub length : List A → ℕ
  length [] = 0
  length (x ∷ xs) = suc (length xs)

  abbrev pub replicate : ℕ → A → List A
  replicate zero a = []
  replicate (suc n) a = a ∷ replicate n a

  pub length-append : (xs ys : List A) → length (xs ++ ys) ≡ length xs + length ys
  length-append [] ys = omega arith
  length-append (x ∷ xs) ys = omega (arith, length-append xs ys)

  pub length-replicate : (n : ℕ) (a : A) → length (replicate n a) ≡ n
  length-replicate zero a = refl
  length-replicate (suc n) a = ap suc (length-replicate n a)

  -- A loop that keeps the elements that pass a test.
  abbrev pub keep : (A → Bool) → List A → List A
  keep p [] = []
  keep p (x ∷ xs) = let rest = keep p xs in if p x then x ∷ rest else rest

  -- How many elements pass a test.
  abbrev pub tally : (A → Bool) → List A → ℕ
  tally p [] = 0
  tally p (x ∷ xs) = (if p x then 1 else 0) + tally p xs

  abbrev pub sum_by : (A → ℕ) → List A → ℕ
  sum_by f [] = 0
  sum_by f (x ∷ xs) = f x + sum_by f xs

  abbrev pub All : (A → Type 0) → List A → Type 0
  All P [] = Unit
  All P (x ∷ xs) = P x × All P xs

  -- An occurrence of a value that satisfies `P`.
  abbrev pub Any : (A → Type 0) → List A → Type 0
  Any P [] = ⊥
  Any P (x ∷ xs) = P x ⊎ Any P xs

  -- What is kept passes the test, and stood in the list.
  pub keep-Any :
      (Q : A → Type 0) (p : A → Bool) (xs : List A)
      → Any Q (keep p xs)
      → Any (λ x. Q x × (p x ≡ true)) xs
  keep-Any Q p [] m = m
  keep-Any Q p (x ∷ xs) m = elim (Bool-cases (p x)) [
    | inl t ↦ kept Q p x xs t (keep-Any Q p xs) (rw t at m)
    | inr f ↦ inr (keep-Any Q p xs (rw f at m))
  ]
    where
      kept :
          (Q : A → Type 0) (p : A → Bool) (x : A) (xs : List A)
          → p x ≡ true
          → (Any Q (keep p xs) → Any (λ x. Q x × (p x ≡ true)) xs)
          → Any Q (x ∷ keep p xs)
          → Any (λ x. Q x × (p x ≡ true)) (x ∷ xs)
      kept Q p x xs t f (inl q) = inl (q, t)
      kept Q p x xs t f (inr n) = inr (f n)

  pub keep-All :
      (P : A → Type 0) (p : A → Bool) (xs : List A)
      → All P (keep p xs)
      → All (λ x. p x ≡ true → P x) xs
  keep-All P p [] all = tt
  keep-All P p (x ∷ xs) all = elim (Bool-cases (p x)) [
    | inl t ↦
        let (h, rest) : P x × All P (keep p xs) = rw t at all in ((λ _. h), keep-All P p xs rest)
    | inr f ↦ ((λ t. cc), keep-All P p xs (rw f at all))
  ]

  -- Two tests in a row are their conjunction.
  pub keep-keep : (p q : A → Bool) (xs : List A) → keep p (keep q xs) ≡ keep (λ x. q x && p x) xs
  keep-keep p q [] = refl
  keep-keep p q (x ∷ xs) = ground (arith, keep-keep p q xs)

  pub All-append : (P : A → Type 0) (xs ys : List A) → All P xs → All P ys → All P (xs ++ ys)
  All-append P [] ys hx hy = hy
  All-append P (x ∷ xs) ys (h, hx) hy = (h, All-append P xs ys hx hy)

-- Two lists of one length whose elements are related in their order.
abbrev pub Each {ℓ κ} : {A : Type ℓ} {B : Type κ} → (A → B → Type 0) → List A → List B → Type 0
Each R [] [] = Unit
Each R [] (y ∷ ys) = ⊥
Each R (x ∷ xs) [] = ⊥
Each R (x ∷ xs) (y ∷ ys) = R x y × Each R xs ys
