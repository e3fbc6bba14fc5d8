-- ===== src/Sorting.antt =====
-- sort.SliceStable, as a stable insertion sort by a test `less`: the order that the test gives, and
-- the order of the input among elements that the test does not tell apart.
pub mod Laws
use evermore.Base.{Bool, true, false, List, [], ◌∷◌, if◌then◌else◌}

module _ {ℓ} {A : Type ℓ} (less : A → A → Bool) where
  unfoldable pub insert : A → List A → List A
  insert x [] = x ∷ []
  insert x (y ∷ ys) = let rest = insert x ys in if less y x then y ∷ rest else x ∷ y ∷ ys

  unfoldable pub sort : List A → List A
  unfolding insert
  sort [] = []
  sort (x ∷ xs) = insert x (sort xs)
