-- ===== src/Base/Results.antt =====
-- Go's pair of a value and an error, as a value: a call returns one or the other.
use mathlib.Core.Path.{◌≡◌, refl}
use mathlib.Core.Logic.{◌⊎◌, inl, inr}
use mathlib.Core.Bool.{Bool, true, false}

pub data Result {ℓ κ} (E : Type ℓ) (A : Type κ) : Type (ℓ ⊔ κ) where
  ok : A → Result E A
  err : E → Result E A

module _ {ℓ} {E : Type ℓ} where
  -- `if err != nil { return err }` after a call.
  infixl 5 ◌>>=◌ ◌>>◌
  abbrev pub ◌>>=◌ {κ μ} : {A : Type κ} {B : Type μ} → Result E A → (A → Result E B) → Result E B
  ok a >>= f = f a
  err e >>= f = err e

  abbrev pub ◌>>◌ {κ} : {B : Type κ} → Result E (Unit {0}) → Result E B → Result E B
  ok _ >> k = k
  err e >> k = err e

  -- `if test { return e }`
  abbrev pub refuse : Bool → E → Result E (Unit {0})
  refuse true e = err e
  refuse false e = ok tt

  pub Result-cases {κ} :
      {A : Type κ} (r : Result E A) → ((a : A) × (r ≡ ok a)) ⊎ ((e : E) × (r ≡ err e))
  Result-cases (ok a) = inl (a, refl)
  Result-cases (err e) = inr (e, refl)

  -- A chain of calls succeeds only if its first call does.
  pub >>=-eq-ok {κ μ} :
      {A : Type κ} {B : Type μ} (r : Result E A) (f : A → Result E B) {b : B}
      → (r >>= f) ≡ ok b
      → (a : A) × (r ≡ ok a) × (f a ≡ ok b)
  >>=-eq-ok (ok a) f h = (a, refl, h)
  >>=-eq-ok (err e) f h = cc

  -- A chain that goes on after a guard has passed it, and after a call with no value it succeeded.
  pub refuse-eq-ok {κ} :
      {A : Type κ} (b : Bool) (e : E) {k : Result E A} {a : A}
      → (refuse b e >> k) ≡ ok a
      → (b ≡ false) × (k ≡ ok a)
  refuse-eq-ok true e h = cc
  refuse-eq-ok false e h = (refl, h)

  pub >>-eq-ok {κ} :
      {A : Type κ} (r : Result E (Unit {0})) {k : Result E A} {a : A}
      → (r >> k) ≡ ok a
      → (r ≡ ok tt) × (k ≡ ok a)
  >>-eq-ok (ok u) h = (refl, h)
  >>-eq-ok (err e) h = cc

  pub ok_inj {κ} : {A : Type κ} (a b : A) → ◌≡◌ {A = Result E A} (ok a) (ok b) → a ≡ b
  ok_inj a b h = cc
