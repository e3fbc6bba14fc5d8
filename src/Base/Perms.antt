-- ===== src/Base/Perms.antt =====
-- Reordered lists: what a count and a length do not see.
use mathlib.Core.List.{Perm, Permᴰ}
use mathlib.Core.Logic.{∥∥₁_elim}
use mathlib.Core.Path.{◌≡◌, refl, ◌∙◌}
use mathlib.Core.Bool.{Bool, true, not}
use mathlib.Core.List.{List, [], ◌∷◌}
use mathlib.Core.Logic.{inl, inr}
use evermore.Base.Tests.{Bool-cases}
use Prim.Native.Nat.{ℕ}
use native.Mathlib.Nat.{ℕ_set}
use native.Mathlib.Omega.{arith}
use evermore.Base.Lists.{length, tally, sum_by, All}

module _ {ℓ} {A : Type ℓ} where
  tally-permᴰ : (p : A → Bool) {xs ys : List A} → Permᴰ xs ys → tally p xs ≡ tally p ys
  tally-permᴰ p Permᴰ.nil = refl
  tally-permᴰ p (Permᴰ.cons e r) = rw (e, tally-permᴰ p r)
  tally-permᴰ p (Permᴰ.swap e f) = rw (e, f) (omega arith)
  tally-permᴰ p (Permᴰ.trans q r) = tally-permᴰ p q ∙ tally-permᴰ p r

  -- How many elements pass a test does not depend on the order.
  pub tally-perm : (p : A → Bool) {xs ys : List A} → Perm xs ys → tally p xs ≡ tally p ys
  tally-perm p h = ∥∥₁_elim h (ℕ_set _ _) (tally-permᴰ p)

  length-permᴰ : {xs ys : List A} → Permᴰ xs ys → length xs ≡ length ys
  length-permᴰ Permᴰ.nil = refl
  length-permᴰ (Permᴰ.cons e r) = rw (length-permᴰ r)
  length-permᴰ (Permᴰ.swap e f) = refl
  length-permᴰ (Permᴰ.trans q r) = length-permᴰ q ∙ length-permᴰ r

  pub length-perm : {xs ys : List A} → Perm xs ys → length xs ≡ length ys
  length-perm h = ∥∥₁_elim h (ℕ_set _ _) length-permᴰ

  sum_by-permᴰ : (f : A → ℕ) {xs ys : List A} → Permᴰ xs ys → sum_by f xs ≡ sum_by f ys
  sum_by-permᴰ f Permᴰ.nil = refl
  sum_by-permᴰ f (Permᴰ.cons e r) = rw (e, sum_by-permᴰ f r)
  sum_by-permᴰ f (Permᴰ.swap e g) = rw (e, g) (omega arith)
  sum_by-permᴰ f (Permᴰ.trans q r) = sum_by-permᴰ f q ∙ sum_by-permᴰ f r

  pub sum_by-perm : (f : A → ℕ) {xs ys : List A} → Perm xs ys → sum_by f xs ≡ sum_by f ys
  sum_by-perm f h = ∥∥₁_elim h (ℕ_set _ _) (sum_by-permᴰ f)

  none_fails :
      (p : A → Bool) (xs : List A) → All (λ x. p x ≡ true) xs → tally (λ x. not (p x)) xs ≡ 0
  none_fails p [] all = refl
  none_fails p (x ∷ xs) (h, all) = ground (arith, h, none_fails p xs all)

  all_pass : (p : A → Bool) (xs : List A) → tally (λ x. not (p x)) xs ≡ 0 → All (λ x. p x ≡ true) xs
  all_pass p [] h = tt
  all_pass p (x ∷ xs) h = elim (Bool-cases (p x)) [
    | inl e ↦ (e, all_pass p xs (ground (arith, e, h)))
    | inr e ↦ absurd (ground (arith, e, h))
  ]

  -- A test that all elements pass is passed by all in any other order.
  pub All-perm :
      (p : A → Bool) {xs ys : List A}
      → Perm xs ys
      → All (λ x. p x ≡ true) ys
      → All (λ x. p x ≡ true) xs
  All-perm p {xs} {ys} h all = all_pass p xs (tally-perm (λ x. not (p x)) h ∙ none_fails p ys all)

  pub All-map : {P Q : A → Type 0} → ((x : A) → P x → Q x) → (xs : List A) → All P xs → All Q xs
  All-map f [] all = tt
  All-map f (x ∷ xs) (h, all) = (f x h, All-map f xs all)
