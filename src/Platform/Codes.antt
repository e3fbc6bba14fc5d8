-- ===== src/Platform/Codes.antt =====
-- `Code` of internal/platform/id/id.go. The random bytes come from a stream.
use evermore.Base.{
  ℕ, zero, suc, ◌+◌, ◌-◌, ◌%◌, ◌≤◌, ◌<◌, ◌≡◌, refl, sym, ap, subst, Bool, true, false, ◌&&◌, leb,
  ◌==◌, ==_iff, [], ◌∷◌, Option, none, some, if◌then◌else◌, length, All, arith, inl, inr,
  Bool-cases,
}
use evermore.Platform.Sanitize.{Text, has_rune}

-- Crockford base32.
abbrev crockford : Text
crockford =
    b'0' ∷ b'1' ∷ b'2' ∷ b'3' ∷ b'4' ∷ b'5' ∷ b'6' ∷ b'7' ∷ b'8' ∷ b'9' ∷ b'A' ∷ b'B' ∷ b'C' ∷ b'D'
    ∷ b'E' ∷ b'F' ∷ b'G' ∷ b'H' ∷ b'J' ∷ b'K' ∷ b'M' ∷ b'N' ∷ b'P' ∷ b'Q' ∷ b'R' ∷ b'S' ∷ b'T'
    ∷ b'V' ∷ b'W' ∷ b'X' ∷ b'Y' ∷ b'Z' ∷ []

abbrev pub letter : ℕ → Text → ℕ
letter i [] = 0
letter i (r ∷ rs) = if i == 0 then r else letter (i - 1) rs

-- The largest multiple of the alphabet's length that a byte holds.
abbrev pub limit : ℕ
limit = 256 - 256 % length crockford

-- The loop: `left` letters to write, on at most `fuel` bytes of the stream from `at`; none when the
-- fuel runs out, or a read fails.
unfoldable pub draw : ℕ → (ℕ → Option ℕ) → ℕ → ℕ → Option Text
draw fuel byte at zero = some []
draw zero byte at (suc left) = none
draw (suc fuel) byte at (suc left) = elim (byte at) [
  | none ↦ none
  | some b ↦
      let again = draw fuel byte (at + 1) (suc left) in
      let next = draw fuel byte (at + 1) left in
      if leb limit b
      then again
      else elim next [ none ↦ none | some s ↦ some (letter (b % length crockford) crockford ∷ s) ]
]

-- A length that is not positive is an error.
unfoldable pub code : ℕ → (ℕ → Option ℕ) → ℕ → Option Text
code fuel byte n = if n == 0 then none else draw fuel byte 0 n

and_left : (a b : Bool) → (a && b) ≡ true → a ≡ true
and_left a b h = ground (arith, h)

and_right : (a b : Bool) → (a && b) ≡ true → b ≡ true
and_right a b h = ground (arith, h)

draw_none : (fuel : ℕ) (byte : ℕ → Option ℕ) (at : ℕ) → draw fuel byte at 0 ≡ some []
unfolding draw
draw_none zero byte at = refl
draw_none (suc fuel) byte at = refl

-- Every remainder has a letter of the alphabet.
in_alphabet : ℕ → Bool
in_alphabet r = has_rune r crockford

letters_from : ℕ → Bool
letters_from zero = true
letters_from (suc i) = in_alphabet (letter i crockford) && letters_from i

letters_to_32 : letters_from 32 ≡ true
unfolding letters_from in_alphabet
letters_to_32 = refl

letter_below : (m i : ℕ) → letters_from m ≡ true → i < m → in_alphabet (letter i crockford) ≡ true
unfolding letters_from
letter_below zero i h lt = elim lt [ ]
letter_below (suc m) i h lt = elim (Bool-cases (i == m)) [
  | inl e ↦
      subst (λ k. in_alphabet (letter k crockford) ≡ true) (sym ((==_iff i m).0 e))
        (and_left (in_alphabet (letter m crockford)) (letters_from m) h)
  | inr e ↦
      letter_below m i (and_right (in_alphabet (letter m crockford)) (letters_from m) h)
        (ground (arith, e, lt))
]

abbrev pub Letters : Text → Type 0
Letters = All (λ r. has_rune r crockford ≡ true)

-- A read of a byte below the limit, which every byte is.
draw_step :
    (fuel : ℕ) (byte : ℕ → Option ℕ) (at left b : ℕ) (s : Text)
    → byte at ≡ some b
    → b < 256
    → draw fuel byte (at + 1) left ≡ some s
    → draw (suc fuel) byte at (suc left) ≡ some (letter (b % 32) crockford ∷ s)
unfolding draw
draw_step fuel byte at left b s read small drawn =
    let below : leb 256 b ≡ false = ground (arith, small) in rw (draw, read, below, drawn) refl

draw_lem :
    (fuel : ℕ) (byte : ℕ → Option ℕ) (at left : ℕ)
    → ((i : ℕ) → (b : ℕ) × (byte i ≡ some b) × (b < 256))
    → left ≤ fuel
    → (s : Text) × (draw fuel byte at left ≡ some s) × (length s ≡ left) × Letters s
unfolding in_alphabet
draw_lem fuel byte at zero bytes h = ([], draw_none fuel byte at, refl, tt)
draw_lem zero byte at (suc left) bytes h = elim h [ ]
draw_lem (suc fuel) byte at (suc left) bytes h =
    let (b, read, small) = bytes at in
    let (s, drawn, long, letters) = draw_lem fuel byte (at + 1) left bytes (omega (arith, h)) in
    (
      letter (b % 32) crockford ∷ s,
      draw_step fuel byte at left b s read small drawn,
      ap suc long,
      (letter_below 32 (b % 32) letters_to_32 (omega arith), letters),
    )

-- A code is drawn from any source that gives a byte at every read, within as many reads as it has
-- letters: it has the length asked for, and all its letters are of the alphabet.
pub code-total :
    (fuel : ℕ) (byte : ℕ → Option ℕ) (n : ℕ)
    → ((i : ℕ) → (b : ℕ) × (byte i ≡ some b) × (b < 256))
    → 0 < n
    → n ≤ fuel
    → (s : Text) × (code fuel byte n ≡ some s) × (length s ≡ n) × Letters s
unfolding code
code-total fuel byte n bytes pos h =
    let (s, drawn, long, letters) = draw_lem fuel byte 0 n bytes h in
    let not_zero : (n == 0) ≡ false = ground (arith, pos) in
    (s, rw (not_zero, drawn) refl, long, letters)
