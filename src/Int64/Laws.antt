-- ===== src/Int64/Laws.antt =====
-- Where no wrap-around occurs, and the laws that hold with it.
use evermore.Base.{◌⊎◌, inl, inr, refl, ℕ, ◌+◌, ◌-◌, ◌*◌, ◌%◌, ◌≤◌, ◌<◌, ◌≡◌, true, arith}
use evermore.Int64.{ℤ, pos, negsuc, modulus, half, to_word, of_word, ◌+ℤ◌, ◌-ℤ◌, ◌*ℤ◌, Fits, ◌==ℤ◌}

pub ℤ-cases : (a : ℤ) → ((n : ℕ) × (a ≡ pos n)) ⊎ ((n : ℕ) × (a ≡ negsuc n))
ℤ-cases (pos n) = inl (n, refl)
ℤ-cases (negsuc n) = inr (n, refl)

pub ==ℤ→eq : (a b : ℤ) → (a ==ℤ b) ≡ true → a ≡ b
==ℤ→eq (pos a) (pos b) h = ground arith
==ℤ→eq (pos a) (negsuc b) h = cc
==ℤ→eq (negsuc a) (pos b) h = cc
==ℤ→eq (negsuc a) (negsuc b) h = ground arith

pub to_word-lt : (a : ℤ) → to_word a < modulus
unfolding to_word
to_word-lt (pos n) = omega arith
to_word-lt (negsuc n) = omega arith

pub to_word-of_word : (w : ℕ) → w < modulus → to_word (of_word w) ≡ w
unfolding to_word of_word
to_word-of_word w h = ground arith

pub of_word-to_word : (a : ℤ) → Fits a → of_word (to_word a) ≡ a
unfolding to_word of_word
of_word-to_word (pos n) h = ground arith
of_word-to_word (negsuc n) h = ground arith

pub of_word-Fits : (w : ℕ) → w < modulus → Fits (of_word w)
unfolding of_word
of_word-Fits w h = ground arith

pub +ℤ-Fits : (a b : ℤ) → Fits (a +ℤ b)
unfolding ◌+ℤ◌
+ℤ-Fits a b = of_word-Fits _ (omega arith)

pub +ℤ_comm : (a b : ℤ) → a +ℤ b ≡ b +ℤ a
unfolding ◌+ℤ◌
+ℤ_comm a b = ground arith

pub to_word-+ℤ : (a b : ℤ) → to_word (a +ℤ b) ≡ (to_word a + to_word b) % modulus
unfolding ◌+ℤ◌
to_word-+ℤ a b = to_word-of_word _ (omega arith)

-- Addition is associative with its wrap-around.
pub +ℤ_assoc : (a b c : ℤ) → a +ℤ b +ℤ c ≡ a +ℤ (b +ℤ c)
unfolding ◌+ℤ◌
+ℤ_assoc a b c = ground (arith, to_word-+ℤ a b, to_word-+ℤ b c)

pub +ℤ-pos : (a b : ℕ) → a + b < half → pos a +ℤ pos b ≡ pos (a + b)
unfolding ◌+ℤ◌ to_word of_word
+ℤ-pos a b h = ground arith

pub -ℤ-pos : (a b : ℕ) → b ≤ a → a < half → pos a -ℤ pos b ≡ pos (a - b)
unfolding ◌-ℤ◌ to_word of_word
-ℤ-pos a b h k = ground arith

pub *ℤ-pos : (a b : ℕ) → a < half → b < half → a * b < half → pos a *ℤ pos b ≡ pos (a * b)
unfolding ◌*ℤ◌ to_word of_word
*ℤ-pos a b h k l =
    let ma : a % modulus ≡ a = omega arith in
    let mb : b % modulus ≡ b = omega arith in rw (ma, mb) (ground arith)
