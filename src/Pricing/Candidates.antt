-- ===== src/Pricing/Candidates.antt =====
-- `candidates`: the last matching row of each kind.
use Prim.Native.String.{String}
use evermore.Base.{
  ℕ, ◌≤◌, ◌<◌, ◌≡◌, refl, ◌↔◌, ◌⊎◌, inl, inr, arith, Bool, true, false, not, ◌&&◌, List, [], ◌∷◌,
  Option, none, some, if◌then◌else◌, All, Any, Bool-cases,
}
use evermore.Text.{text_eq_iff}
use evermore.Pricing.{Row, Request, passed_over, is_promo_table, candidates_from, candidates}

-- The date is before the end of the validity, if it has one.
abbrev Before : ℕ → Option ℕ → Type 0
Before d none = Unit {0}
Before d (some to) = d < to

-- A row that applies to a request in a scope and a tier: active, for the scope, the diet and the
-- tier, and valid on the order date, from the first day to the day before the end.
pub record Applies (scope : String) (req : Request) (tier_id : ℕ) (r : Row) : Type 0 where
  pub active : r.is_active ≡ true
  pub in_scope : r.scope_key ≡ scope
  pub for_diet : r.diet_type_id ≡ req.diet_type_id
  pub in_tier : r.tier_id ≡ tier_id
  pub begun : r.valid_from ≤ req.order_date
  pub not_ended : Before req.order_date r.valid_to

pub passed_over_iff :
    (scope : String) (req : Request) (tier_id : ℕ) (r : Row)
    → (passed_over scope req tier_id r ≡ false) ↔ Applies scope req tier_id r
unfolding passed_over
passed_over_iff scope req tier_id r = (
  λ h. ground (arith, text_eq_iff r.scope_key scope),
  λ a. ground (arith, text_eq_iff r.scope_key scope, a),
)

-- The last element of a list that passes a test, or the one given.
abbrev pub last_where : (Row → Bool) → Option Row → List Row → Option Row
last_where p found [] = found
last_where p found (x ∷ xs) = last_where p (if p x then some x else found) xs

abbrev pub is_candidate : Bool → String → Request → ℕ → Row → Bool
is_candidate true scope req tier_id r =
    not (passed_over scope req tier_id r) && is_promo_table r.table
is_candidate false scope req tier_id r =
    not (passed_over scope req tier_id r) && not (is_promo_table r.table)

candidates_from_lem :
    (n p : Option Row) (rows : List Row) (scope : String) (req : Request) (tier_id : ℕ)
    → candidates_from (n, p) rows scope req tier_id ≡ (
      last_where (is_candidate false scope req tier_id) n rows,
      last_where (is_candidate true scope req tier_id) p rows,
    )
unfolding candidates_from
candidates_from_lem n p [] scope req tier_id = refl
candidates_from_lem n p (r ∷ rows) scope req tier_id = ground (
  arith,
  candidates_from_lem n p rows scope req tier_id,
  candidates_from_lem n (some r) rows scope req tier_id,
  candidates_from_lem (some r) p rows scope req tier_id,
)

pub candidates_lem :
    (rows : List Row) (scope : String) (req : Request) (tier_id : ℕ)
    → candidates rows scope req tier_id ≡ (
      last_where (is_candidate false scope req tier_id) none rows,
      last_where (is_candidate true scope req tier_id) none rows,
    )
unfolding candidates
candidates_lem rows scope req tier_id = candidates_from_lem none none rows scope req tier_id

pub last_where-some :
    (p : Row → Bool) (found : Option Row) (rows : List Row) (r : Row)
    → last_where p found rows ≡ some r
    → (found ≡ some r) ⊎ (Any (λ x. x ≡ r) rows × (p r ≡ true))
last_where-some p found [] r h = inl h
last_where-some p found (x ∷ rows) r h = elim (last_where-some p _ rows r h) [
  | inl e ↦ elim (Bool-cases (p x)) [ inl t ↦ ground arith | inr f ↦ ground arith ]
  | inr (m, t) ↦ inr (inr m, t)
]

pub last_where-none :
    (p : Row → Bool) (found : Option Row) (rows : List Row)
    → last_where p found rows ≡ none
    → (found ≡ none) × All (λ x. p x ≡ false) rows
last_where-none p found [] h = (h, tt)
last_where-none p found (x ∷ rows) h =
    let (e, all) = last_where-none p (if p x then some x else found) rows h in
    (ground arith, (ground arith, all))
