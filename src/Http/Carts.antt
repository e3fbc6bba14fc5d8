-- ===== src/Http/Carts.antt =====
-- The cart cookie: `readCart`, `writeCart` and `AddToCart` of internal/adapter/http/app.go.
pub mod Lines
pub mod Cookie
use evermore.Base.{
  ℕ, suc, ◌+◌, ◌-◌, ◌*◌, ◌^◌, ◌≤◌, ◌<◌, Bool, true, false, not, ◌&&◌, ◌||◌, ltb, leb, ◌==◌, ==_iff,
  ◌≡◌, refl, List, [], ◌∷◌, ◌++◌, Option, none, some, if◌then◌else◌, tally, keep, All, keep-append,
  tally-append, Bool-cases, inl, inr, arith,
}
use evermore.Platform.Sanitize.{Text, is_digit}
use evermore.Platform.Errors.{as_error, validation}
use evermore.Http.Sessions.{Reply, failed, to_page}
use evermore.Http.Decimals.{int_to_str, read_decimal}

pub record CartEntry : Type 0 where
  pub meal_id : ℕ
  pub qty : ℕ

-- The package google/uuid: the texts of identifiers.
pub record Uuids : Type 0 where
  pub parse : Text → Option ℕ
  pub show : ℕ → Text

-- `strconv.Atoi`: the sign, and the magnitude.
abbrev digits_only : Text → Bool
digits_only [] = true
digits_only (r ∷ rs) = is_digit r && digits_only rs

abbrev pub magnitude : Bool → Text → Option (Bool × ℕ)
magnitude negative [] = none
magnitude negative (r ∷ rs) =
    if digits_only (r ∷ rs) && ltb (read_decimal 0 (r ∷ rs)) (2 ^ 63 + (if negative then 1 else 0))
    then some (negative, read_decimal 0 (r ∷ rs))
    else none

unfoldable pub atoi : Text → Option (Bool × ℕ)
atoi [] = none
atoi (r ∷ rs) =
    if r == b'-'
    then magnitude true rs
    else if r == b'+'
    then magnitude false rs
    else magnitude false (r ∷ rs)

-- `strconv.Itoa` of a quantity.
abbrev pub numeral : ℕ → Text
numeral n = elim (int_to_str false n) [ none ↦ [] | some s ↦ s ]

-- `strings.Split(s, ",")`: the first part and the others.
abbrev pub split_at : ℕ → Text → Text × List Text
split_at sep [] = ([], [])
split_at sep (r ∷ rs) =
    let (first, rest) = split_at sep rs in
    if r == sep then ([], first ∷ rest) else (r ∷ first, rest)

-- `strings.Cut(part, ":")`
abbrev pub cut_at : ℕ → Text → Option (Text × Text)
cut_at sep [] = none
cut_at sep (r ∷ rs) =
    if r == sep
    then some ([], rs)
    else elim (cut_at sep rs) [ none ↦ none | some (before, after) ↦ some (r ∷ before, after) ]

-- A quantity outside of 1 to 999 drops its part.
abbrev pub quantity : Option (Bool × ℕ) → Option ℕ
quantity none = none
quantity (some (negative, n)) = if negative || (n == 0 || ltb 999 n) then none else some n

abbrev pub read_entry : Uuids → Option (Text × Text) → Option CartEntry
read_entry u none = none
read_entry u (some (id, qty)) = elim (u.parse id) [
  | none ↦ none
  | some meal_id ↦ elim (quantity (atoi qty)) [
    | none ↦ none
    | some n ↦ some (record { meal_id = meal_id; qty = n })
  ]
]

abbrev pub read_parts : Uuids → List Text → List CartEntry
read_parts u [] = []
read_parts u (p ∷ ps) = elim (read_entry u (cut_at b':' p)) [
  | none ↦ read_parts u ps
  | some e ↦ e ∷ read_parts u ps
]

-- A missing cookie is an empty one.
unfoldable pub read_cart : Uuids → Text → List CartEntry
read_cart u [] = []
read_cart u (r ∷ rs) = let (first, rest) = split_at b',' (r ∷ rs) in read_parts u (first ∷ rest)

abbrev pub write_entry : Uuids → CartEntry → Text
write_entry u e = u.show e.meal_id ++ b':' ∷ numeral e.qty

unfoldable pub write_cart : Uuids → List CartEntry → Text
write_cart u [] = []
write_cart u (e ∷ []) = write_entry u e
write_cart u (e ∷ d ∷ ds) = write_entry u e ++ b',' ∷ write_cart u (d ∷ ds)

-- The loop of `AddToCart`: the lines that stay, and whether the meal was found.
unfoldable pub replace_line : ℕ → ℕ → List CartEntry → List CartEntry × Bool
replace_line meal qty [] = ([], false)
replace_line meal qty (e ∷ es) =
    let (next, found) = replace_line meal qty es in
    if e.meal_id == meal
    then (if qty == 0 then (next, true) else (record e { qty = qty } ∷ next, true))
    else (e ∷ next, found)

unfoldable pub add_line : ℕ → ℕ → List CartEntry → List CartEntry
add_line meal qty entries =
    let (next, found) = replace_line meal qty entries in
    if not found && ltb 0 qty then next ++ record { meal_id = meal; qty = qty } ∷ [] else next

-- The handler: the reply, and the cookie when it is written.
abbrev in_range : Option (Bool × ℕ) → Option ℕ
in_range none = none
in_range (some (negative, n)) = if (negative && not (n == 0)) || ltb 999 n then none else some n

-- `qty` is the form's value, or "1" when the form has none.
unfoldable pub add_to_cart : Uuids → Text → Text → Text → Reply × Option Text
add_to_cart u meal_id qty cookie = elim (u.parse meal_id) [
  | none ↦ (failed (as_error (validation "Unknown meal.")), none)
  | some meal ↦ elim (in_range (atoi qty)) [
    | none ↦ (failed (as_error (validation "Quantity must be between 0 and 999.")), none)
    | some n ↦ (to_page "/app/cart", some (write_cart u (add_line meal n (read_cart u cookie))))
  ]
]

abbrev pub of_meal : ℕ → CartEntry → Bool
of_meal meal e = e.meal_id == meal
