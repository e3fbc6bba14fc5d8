-- ===== src/Routing/Order.antt =====
-- The order of the kitchens: `before` is a strict order in which incomparability is transitive.
use evermore.Base.{ℕ, ◌+◌, ltb, ◌==◌, ◌≡◌, refl, arith, true, false, List, [], ◌∷◌}
use evermore.Int64.{ℤ, pos, negsuc, ◌<ℤ◌, ◌==ℤ◌}
use evermore.Routing.{Candidate, text_less, before}

text_less_trans :
    (xs ys zs : List ℕ)
    → text_less zs ys ≡ false
    → text_less ys xs ≡ false
    → text_less zs xs ≡ false
unfolding text_less
text_less_trans [] [] [] h k = refl
text_less_trans [] [] (z ∷ zs) h k = refl
text_less_trans [] (y ∷ ys) [] h k = refl
text_less_trans [] (y ∷ ys) (z ∷ zs) h k = refl
text_less_trans (x ∷ xs) [] zs h k = cc
text_less_trans (x ∷ xs) (y ∷ ys) [] h k = cc
text_less_trans (x ∷ xs) (y ∷ ys) (z ∷ zs) h k = ground (arith, text_less_trans xs ys zs)

text_less_asym : (xs ys : List ℕ) → text_less xs ys ≡ true → text_less ys xs ≡ false
unfolding text_less
text_less_asym [] [] h = refl
text_less_asym [] (y ∷ ys) h = refl
text_less_asym (x ∷ xs) [] h = cc
text_less_asym (x ∷ xs) (y ∷ ys) h = ground (arith, text_less_asym xs ys)

-- Comparisons of integers by numbers.
abbrev pub up : ℤ → ℕ
up (pos n) = n
up (negsuc n) = 0

abbrev pub down : ℤ → ℕ
down (pos n) = 0
down (negsuc n) = n + 1

pub lt_parts : (a b : ℤ) → (a <ℤ b) ≡ ltb (up a + down b) (up b + down a)
lt_parts (pos a) (pos b) = ground arith
lt_parts (pos a) (negsuc b) = ground arith
lt_parts (negsuc a) (pos b) = ground arith
lt_parts (negsuc a) (negsuc b) = ground arith

pub eq_parts : (a b : ℤ) → (a ==ℤ b) ≡ (up a + down b == up b + down a)
eq_parts (pos a) (pos b) = ground arith
eq_parts (pos a) (negsuc b) = ground arith
eq_parts (negsuc a) (pos b) = ground arith
eq_parts (negsuc a) (negsuc b) = ground arith

pub before_trans :
    (x y z : Candidate) → before z y ≡ false → before y x ≡ false → before z x ≡ false
unfolding before
before_trans x y z h k = ground (
  arith,
  lt_parts z.priority y.priority,
  lt_parts y.priority x.priority,
  lt_parts z.priority x.priority,
  eq_parts z.priority y.priority,
  eq_parts y.priority x.priority,
  eq_parts z.priority x.priority,
  lt_parts z.distance_m y.distance_m,
  lt_parts y.distance_m x.distance_m,
  lt_parts z.distance_m x.distance_m,
  eq_parts z.distance_m y.distance_m,
  eq_parts y.distance_m x.distance_m,
  eq_parts z.distance_m x.distance_m,
  text_less_trans x.code y.code z.code,
)

pub before_asym : (x y : Candidate) → before x y ≡ true → before y x ≡ false
unfolding before
before_asym x y h = ground (
  arith,
  lt_parts x.priority y.priority,
  lt_parts y.priority x.priority,
  eq_parts x.priority y.priority,
  eq_parts y.priority x.priority,
  lt_parts x.distance_m y.distance_m,
  lt_parts y.distance_m x.distance_m,
  eq_parts x.distance_m y.distance_m,
  eq_parts y.distance_m x.distance_m,
  text_less_asym x.code y.code,
)
