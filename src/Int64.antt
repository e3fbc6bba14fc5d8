-- ===== src/Int64.antt =====
-- Go's int and int64: two's complement on 64 bits. A value is an integer; `to_word` is its bit
-- pattern, and each operation works on the bit patterns, so that it wraps as the machine does.
pub mod Laws
use evermore.Base.{
  ℕ, zero, suc, ◌+◌, ◌-◌, ◌*◌, ◌/◌, ◌%◌, ◌≤◌, ◌<◌, ◌≡◌, Bool, true, false, arith, ltb, leb, ◌==◌,
  if◌then◌else◌,
}

-- `negsuc n` is -(n + 1).
pub data ℤ : Type 0 where
  pos : ℕ → ℤ
  negsuc : ℕ → ℤ

-- 2 ^ 64 and 2 ^ 63.
abbrev pub modulus : ℕ
modulus = 18446744073709551616

abbrev pub half : ℕ
half = 9223372036854775808

unfoldable pub to_word : ℤ → ℕ
to_word (pos n) = n % modulus
to_word (negsuc n) = modulus - 1 - n % modulus

unfoldable pub of_word : ℕ → ℤ
of_word w = if ltb w half then pos w else negsuc (modulus - 1 - w)

infixl 65 ◌+ℤ◌ ◌-ℤ◌
infixl 70 ◌*ℤ◌ ◌/ℤ◌ ◌%ℤ◌
unfoldable pub ◌+ℤ◌ : ℤ → ℤ → ℤ
a +ℤ b = of_word ((to_word a + to_word b) % modulus)

unfoldable pub ◌-ℤ◌ : ℤ → ℤ → ℤ
a -ℤ b = of_word ((to_word a + (modulus - to_word b)) % modulus)

unfoldable pub ◌*ℤ◌ : ℤ → ℤ → ℤ
a *ℤ b = of_word ((to_word a * to_word b) % modulus)

-- -n, for a natural number n.
abbrev pub negate : ℕ → ℤ
negate zero = pos zero
negate (suc n) = negsuc n

-- Division truncates toward zero, and the remainder has the sign of the dividend. A division by
-- zero panics in Go; the code divides by numbers that are not zero.
unfoldable pub ◌/ℤ◌ : ℤ → ℤ → ℤ
unfolding to_word of_word
pos a /ℤ pos b = pos (a / b)
pos a /ℤ negsuc b = negate (a / suc b)
negsuc a /ℤ pos b = negate (suc a / b)
negsuc a /ℤ negsuc b = of_word (to_word (pos (suc a / suc b)))

unfoldable pub ◌%ℤ◌ : ℤ → ℤ → ℤ
pos a %ℤ pos b = pos (a % b)
pos a %ℤ negsuc b = pos (a % suc b)
negsuc a %ℤ pos b = negate (suc a % b)
negsuc a %ℤ negsuc b = negate (suc a % suc b)

infix 50 ◌<ℤ◌ ◌≤ℤ◌ ◌==ℤ◌
abbrev pub ◌<ℤ◌ : ℤ → ℤ → Bool
pos a <ℤ pos b = ltb a b
pos a <ℤ negsuc b = false
negsuc a <ℤ pos b = true
negsuc a <ℤ negsuc b = ltb b a

abbrev pub ◌≤ℤ◌ : ℤ → ℤ → Bool
pos a ≤ℤ pos b = leb a b
pos a ≤ℤ negsuc b = false
negsuc a ≤ℤ pos b = true
negsuc a ≤ℤ negsuc b = leb b a

abbrev pub ◌==ℤ◌ : ℤ → ℤ → Bool
pos a ==ℤ pos b = a == b
pos a ==ℤ negsuc b = false
negsuc a ==ℤ pos b = false
negsuc a ==ℤ negsuc b = a == b

-- The integers that 64 bits hold.
abbrev pub Fits : ℤ → Type 0
Fits (pos n) = n < half
Fits (negsuc n) = n < half
