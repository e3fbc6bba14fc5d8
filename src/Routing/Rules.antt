-- ===== src/Routing/Rules.antt =====
-- The rules of the routing, said apart from the code that applies them: who may serve a delivery, and
-- who is preferred.
use evermore.Base.{
  ℕ, ◌<◌, ◌≡◌, refl, ◌⊎◌, inl, inr, subst, arith, true, false, ◌&&◌, List, [], ◌∷◌, Bool-cases,
}
use evermore.Int64.{ℤ, pos, ◌<ℤ◌, ◌≤ℤ◌, ◌==ℤ◌}
use evermore.Routing.{
  Candidate, Request, text_less, before, serviceable, eligible, reachable, portions,
}
use evermore.Routing.Order.{lt_parts, eq_parts}

-- The order of texts, byte by byte.
abbrev pub TextBefore : List ℕ → List ℕ → Type 0
TextBefore [] [] = ⊥
TextBefore [] (y ∷ ys) = Unit
TextBefore (x ∷ xs) [] = ⊥
TextBefore (x ∷ xs) (y ∷ ys) = (x < y) ⊎ ((x ≡ y) × TextBefore xs ys)

-- A kitchen is preferred: a smaller priority number, or the same and nearer, or the same again and
-- the smaller code.
abbrev pub Precedes : Candidate → Candidate → Type 0
Precedes a b =
    ((a.priority <ℤ b.priority) ≡ true)
    ⊎ ((a.priority ≡ b.priority)
        × (((a.distance_m <ℤ b.distance_m) ≡ true)
            ⊎ ((a.distance_m ≡ b.distance_m) × TextBefore a.code b.code)))

-- The point is served: the polygon decides where there is one, and the radius otherwise.
abbrev pub Covers : Candidate → Type 0
Covers c =
    ((c.has_polygon ≡ true) × (c.inside_polygon ≡ true))
    ⊎ ((c.has_polygon ≡ false) × (c.inside_radius ≡ true))

-- A kitchen that can serve the delivery, whatever its free portions are.
abbrev pub Serves : Candidate → Type 0
Serves c = (c.is_active ≡ true) × (c.serves_slot ≡ true) × (c.open_that_day ≡ true) × Covers c

abbrev pub HasRoom : ℤ → Candidate → Type 0
HasRoom n c = (n ≤ℤ c.free_portions) ≡ true

-- The portions that a request needs: at least one.
abbrev pub Needs : Request → ℤ → Type 0
Needs req n =
    (((req.portions_needed ≤ℤ pos 0) ≡ true) × (n ≡ pos 1))
    ⊎ (((req.portions_needed ≤ℤ pos 0) ≡ false) × (n ≡ req.portions_needed))

pub portions_lem : (req : Request) (n : ℤ) → Needs req n → portions req ≡ n
portions_lem req n h = ground (arith, h)

text_less_lem : (xs ys : List ℕ) → TextBefore xs ys → text_less xs ys ≡ true
unfolding text_less
text_less_lem [] [] h = elim h [ ]
text_less_lem [] (y ∷ ys) h = refl
text_less_lem (x ∷ xs) [] h = elim h [ ]
text_less_lem (x ∷ xs) (y ∷ ys) (inl h) = ground (arith, h)
text_less_lem (x ∷ xs) (y ∷ ys) (inr (e, h)) = ground (arith, e, text_less_lem xs ys h)

less_apart : (a b : ℤ) → (a <ℤ b) ≡ true → (a ==ℤ b) ≡ false
less_apart a b h = ground (arith, lt_parts a b, eq_parts a b, h)

same_equal : (a b : ℤ) → a ≡ b → (a ==ℤ b) ≡ true
same_equal a b e = subst (λ x. (a ==ℤ x) ≡ true) e (ground (arith, eq_parts a a))

-- The code's test agrees with the rule.
pub Precedes-before : (a b : Candidate) → Precedes a b → before a b ≡ true
unfolding before
Precedes-before a b (inl h) = ground (arith, h, less_apart a.priority b.priority h)
Precedes-before a b (inr (e, inl h)) =
    ground (arith, same_equal a.priority b.priority e, h, less_apart a.distance_m b.distance_m h)
Precedes-before a b (inr (e, inr (d, h))) = ground (
  arith,
  same_equal a.priority b.priority e,
  same_equal a.distance_m b.distance_m d,
  text_less_lem a.code b.code h,
)

pub before-Precedes : (a b : Candidate) → before a b ≡ false → Precedes a b → ⊥
before-Precedes a b h p = absurd (cc (h, Precedes-before a b p))

covers_lem : (c : Candidate) → serviceable c ≡ true → Covers c
unfolding serviceable
covers_lem c h = elim (Bool-cases c.has_polygon) [
  | inl e ↦ inl (e, ground (arith, e, h))
  | inr e ↦ inr (e, ground (arith, e, h))
]

covered : (c : Candidate) → Covers c → serviceable c ≡ true
unfolding serviceable
covered c (inl (e, h)) = ground (arith, e, h)
covered c (inr (e, h)) = ground (arith, e, h)

pub Serves-reachable : (c : Candidate) → Serves c → reachable c ≡ true
unfolding reachable
Serves-reachable c (a, s, o, h) = ground (arith, a, s, o, covered c h)

pub reachable-Serves : (c : Candidate) → reachable c ≡ true → Serves c
unfolding reachable
reachable-Serves c h =
    (ground (arith, h), ground (arith, h), ground (arith, h), covers_lem c (ground (arith, h)))

pub eligible_iff_reachable :
    (c : Candidate) (n : ℤ) → eligible c n ≡ (reachable c && (n ≤ℤ c.free_portions))
unfolding reachable eligible
eligible_iff_reachable c n = ground arith
