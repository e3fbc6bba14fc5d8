-- ===== src/Http/Decimals.antt =====
-- The decimal numerals that the adapter writes itself: `itoa` of internal/adapter/http/ratelimit.go
-- and `intToStr` of backoffice.go. An int is its sign and its magnitude.
use evermore.Base.{
  ℕ, zero, suc, ◌+◌, ◌-◌, ◌*◌, ◌/◌, ◌%◌, ◌^◌, ◌<◌, ◌≡◌, refl, sym, ap, ◌∙◌, inl, inr, Bool, true,
  false, ◌==◌, ==_iff, [], ◌∷◌, Option, none, some, if◌then◌else◌, Bool-cases, arith,
}
use evermore.Platform.Sanitize.{Text}

-- The loop fills the buffer from its end: `room` is the index `i`, and no result is a write before
-- the buffer, which panics.
unfoldable pub fill : ℕ → ℕ → Text → Option Text
fill zero n b = if n == 0 then some b else none
fill (suc room) n b =
    let rest = fill room (n / 10) ((b'0' + n % 10) ∷ b) in if n == 0 then some b else rest

-- `itoa`: `negative` and the magnitude.
unfoldable pub itoa : Bool → ℕ → Option Text
itoa negative n =
    if negative then some (b'1' ∷ []) else if n == 0 then some (b'1' ∷ []) else fill 20 n []

-- The sign takes a byte of the buffer too.
abbrev pub signed : Option Text → Option Text
signed none = none
signed (some b) = some (b'-' ∷ b)

unfoldable pub int_to_str : Bool → ℕ → Option Text
int_to_str negative n =
    if n == 0 then some (b'0' ∷ []) else if negative then signed (fill 19 n []) else fill 20 n []

-- The number that a numeral says, from what stands before it.
abbrev pub read_decimal : ℕ → Text → ℕ
read_decimal acc [] = acc
read_decimal acc (r ∷ rs) = read_decimal (10 * acc + (r - b'0')) rs

fill_lem :
    (room n : ℕ) (b : Text)
    → n < 10 ^ room
    → (s : Text) × (fill room n b ≡ some s) × (read_decimal 0 s ≡ read_decimal n b)
unfolding fill
fill_lem zero n b h =
    let z : n ≡ 0 = omega (arith, h) in (b, rw z refl, ap (λ m. read_decimal m b) (sym z))
fill_lem (suc room) n b h = elim (Bool-cases (n == 0)) [
  | inl e ↦ (b, rw e refl, ap (λ m. read_decimal m b) (sym ((==_iff n 0).0 e)))
  | inr p ↦
      let (s, written, value) = fill_lem room (n / 10) ((b'0' + n % 10) ∷ b) (omega (arith, h)) in
      (s, rw p written, value ∙ ap (λ m. read_decimal m b) (omega arith))
]

-- Every int but the least one has a numeral in both functions, which fits the buffer and says the
-- int; where `itoa` is given 0 or less it writes 1.
int_to_str-total :
    (n : ℕ)
    → n < 2 ^ 63
    → ((s : Text) × (int_to_str false n ≡ some s) × (read_decimal 0 s ≡ n))
      × (0 < n
          → ((s : Text) × (int_to_str true n ≡ some (b'-' ∷ s)) × (read_decimal 0 s ≡ n))
            × ((s : Text) × (itoa false n ≡ some s) × (read_decimal 0 s ≡ n)))
      × (itoa true n ≡ some (b'1' ∷ []))
unfolding int_to_str itoa
int_to_str-total n h =
    let (s, written, value) = fill_lem 20 n [] (omega (arith, h)) in
    let (t, signed_written, signed_value) = fill_lem 19 n [] (omega (arith, h)) in
    (
      elim (Bool-cases (n == 0)) [
        | inl e ↦ (b'0' ∷ [], rw e refl, sym ((==_iff n 0).0 e))
        | inr p ↦ (s, rw p written, value)
      ],
      (λ pos.
          let p : (n == 0) ≡ false = ground (arith, pos) in
          ((t, rw (p, signed_written) refl, signed_value), (s, rw p written, value))),
      refl,
    )
