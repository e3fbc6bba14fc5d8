-- ===== src/Base/Counts.antt =====
-- How many rows pass a test after a statement.
use Prim.Native.Nat.{◌+◌, ◌≤◌}
use mathlib.Core.Path.{◌≡◌, refl}
use mathlib.Core.Bool.{Bool, true, false, not, ◌&&◌}
use mathlib.Core.List.{List, [], ◌∷◌, ◌++◌}
use native.Mathlib.Omega.{arith}
use evermore.Base.Lists.{tally, keep}
use evermore.Base.Rows.{update}

module _ {ℓ} {A : Type ℓ} where
  pub tally-append : (p : A → Bool) (xs ys : List A) → tally p (xs ++ ys) ≡ tally p xs + tally p ys
  tally-append p [] ys = omega arith
  tally-append p (x ∷ xs) ys = omega (arith, tally-append p xs ys)

  pub keep-append : (p : A → Bool) (xs ys : List A) → keep p (xs ++ ys) ≡ keep p xs ++ keep p ys
  keep-append p [] ys = refl
  keep-append p (x ∷ xs) ys = ground (arith, keep-append p xs ys)

  -- Two tests that agree on what is counted.
  pub tally_agree : (p q : A → Bool) (xs : List A) → ((x : A) → p x ≡ q x) → tally p xs ≡ tally q xs
  tally_agree p q [] h = refl
  tally_agree p q (x ∷ xs) h = ground (arith, h x, tally_agree p q xs h)

  pub tally_split :
      (p q : A → Bool) (xs : List A)
      → tally p xs ≡ tally (λ x. p x && q x) xs + tally (λ x. p x && not (q x)) xs
  tally_split p q [] = refl
  tally_split p q (x ∷ xs) = ground (arith, tally_split p q xs)

  pub tally_le :
      (p q : A → Bool) (xs : List A) → ((x : A) → p x ≡ true → q x ≡ true) → tally p xs ≤ tally q xs
  tally_le p q [] h = omega arith
  tally_le p q (x ∷ xs) h = ground (arith, h x, tally_le p q xs h)

  -- A test counts the changed rows as `after` counts them before.
  pub tally-update :
      (p key after : A → Bool) (change : A → A) (xs : List A)
      → ((x : A) → key x ≡ true → p (change x) ≡ after x)
      → ((x : A) → key x ≡ false → p x ≡ after x)
      → tally p (update key change xs) ≡ tally after xs
  tally-update p key after change [] hit miss = refl
  tally-update p key after change (x ∷ xs) hit miss =
      ground (arith, hit x, miss x, tally-update p key after change xs hit miss)

  -- An UPDATE of none of the kept rows keeps them.
  pub keep-update :
      (p key : A → Bool) (change : A → A) (xs : List A)
      → ((x : A) → p x ≡ false → p (change x) ≡ false)
      → tally (λ x. key x && p x) xs ≡ 0
      → keep p (update key change xs) ≡ keep p xs
  keep-update p key change [] gone none_hit = refl
  keep-update p key change (x ∷ xs) gone none_hit =
      ground (arith, gone x, keep-update p key change xs gone)

  -- What a test says of the rows is what it says of those that are kept.
  pub tally-keep :
      (p q : A → Bool) (xs : List A)
      → ((x : A) → q x ≡ false → p x ≡ false)
      → tally p (keep q xs) ≡ tally p xs
  tally-keep p q [] h = refl
  tally-keep p q (x ∷ xs) h = ground (arith, h x, tally-keep p q xs h)
