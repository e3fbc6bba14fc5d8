-- ===== src/Base/Rows.antt =====
-- The rows of a table: the first that passes a test, and the rows after an UPDATE.
use mathlib.Core.Path.{◌≡◌}
use mathlib.Core.Bool.{Bool, true}
use mathlib.Core.Option.{Option, none, some}
use mathlib.Core.List.{List, [], ◌∷◌, map}
use native.Mathlib.Omega.{arith}
use evermore.Base.Tests.{if◌then◌else◌}

-- `UPDATE … WHERE test`.
abbrev pub update {ℓ} : {A : Type ℓ} → (A → Bool) → (A → A) → List A → List A
update test change = map (λ x. if test x then change x else x)

-- `SELECT … WHERE test`, of one row.
abbrev pub first {ℓ} : {A : Type ℓ} → (A → Bool) → List A → Option A
first test [] = none
first test (x ∷ xs) = if test x then some x else first test xs

-- The first row that passes a test which an UPDATE keeps is the same row after it, changed.
pub first_updated {ℓ} :
    {A : Type ℓ} (test key : A → Bool) (change : A → A) (xs : List A) (x : A)
    → ((y : A) → test (change y) ≡ test y)
    → key x ≡ true
    → first test xs ≡ some x
    → first test (update key change xs) ≡ some (change x)
first_updated test key change [] x kept k h = cc
first_updated test key change (y ∷ ys) x kept k h =
    ground (arith, kept y, first_updated test key change ys x kept k)
