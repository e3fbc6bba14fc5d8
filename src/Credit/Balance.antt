-- ===== src/Credit/Balance.antt =====
-- The balance of a ledger under appends. The code's sum wraps, so the lemmas say where it does not.
use evermore.Base.{ℕ, suc, ◌<◌, ◌≡◌, refl, arith, List, [], ◌∷◌, ◌++◌}
use evermore.Int64.{ℤ, pos, negsuc, half, Fits, ◌+ℤ◌, ◌-ℤ◌, to_word, of_word}
use evermore.Int64.Laws.{+ℤ-Fits}
use evermore.Credit.{Entry, balance_from, balance}

balance_from-append :
    (t : ℤ) (xs ys : List Entry) → balance_from t (xs ++ ys) ≡ balance_from (balance_from t xs) ys
unfolding balance_from
balance_from-append t [] ys = refl
balance_from-append t (x ∷ xs) ys = balance_from-append (t +ℤ x.qty) xs ys

pub balance-append : (xs ys : List Entry) → balance (xs ++ ys) ≡ balance_from (balance xs) ys
unfolding balance
balance-append xs ys = balance_from-append (pos 0) xs ys

balance_from-Fits : (t : ℤ) (xs : List Entry) → Fits t → Fits (balance_from t xs)
unfolding balance_from
balance_from-Fits t [] h = h
balance_from-Fits t (x ∷ xs) h = balance_from-Fits (t +ℤ x.qty) xs (+ℤ-Fits t x.qty)

pub balance-Fits : (xs : List Entry) → Fits (balance xs)
unfolding balance
balance-Fits xs = balance_from-Fits (pos 0) xs (omega arith)

-- A credit spent, and a positive balance taken off.
pub spend_one : (b : ℕ) → suc b < half → pos (suc b) +ℤ negsuc 0 ≡ pos b
unfolding ◌+ℤ◌ to_word of_word
spend_one b h = ground arith

pub add_neg : (b : ℕ) → b < half → pos b +ℤ (pos 0 -ℤ pos b) ≡ pos 0
unfolding ◌+ℤ◌ ◌-ℤ◌ to_word of_word
add_neg b h = ground arith

neg_neg : (b : ℕ) → b < half → pos 0 -ℤ (pos 0 -ℤ pos b) ≡ pos b
unfolding ◌-ℤ◌ to_word of_word
neg_neg b h = ground arith
