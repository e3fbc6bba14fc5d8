-- ===== src/Credit/Expiry.antt =====
-- `Expire` and `ExtendExpiry`: what they do to a balance, alone and in turn.
use Prim.Native.String.{String}
use mathlib.Core.List.{append-nil}
use evermore.Base.{
  ℕ, zero, suc, ◌+◌, ◌<◌, ◌≡◌, refl, subst, arith, List, [], ◌∷◌, ◌++◌, ok, if◌then◌else◌,
}
use evermore.Int64.Laws.{+ℤ-pos}
use evermore.Int64.{ℤ, pos, half, Fits, ◌-ℤ◌, to_word, of_word}
use evermore.Credit.{
  Entry, Package, expire_entry, is_expire, balance_from, balance, expire, reversal_from,
  extend_expiry,
}
use evermore.Credit.Balance.{balance-append, balance-Fits, add_neg}

expire_positive :
    (new_id : ℕ → ℕ) (pkg : Package) (es : List Entry) (at b : ℕ)
    → balance es ≡ pos (suc b)
    → expire new_id pkg es at ≡ expire_entry (new_id 0) pkg (pos (suc b)) at ∷ []
unfolding expire
expire_positive new_id pkg es at b e = ground arith

expire_nothing :
    (new_id : ℕ → ℕ) (pkg : Package) (es : List Entry) (at : ℕ)
    → balance es ≡ pos 0
    → expire new_id pkg es at ≡ []
unfolding expire
expire_nothing new_id pkg es at e = rw e

balance_after :
    (new_id : ℕ → ℕ) (pkg : Package) (es : List Entry) (at b : ℕ)
    → balance es ≡ pos b
    → balance (es ++ expire new_id pkg es at) ≡ pos 0
unfolding balance_from
balance_after new_id pkg es at zero e = rw (expire_nothing new_id pkg es at e, append-nil) e
balance_after new_id pkg es at (suc b) e =
    rw (expire_positive new_id pkg es at b e, balance-append, e)
      (add_neg (suc b) (subst Fits e (balance-Fits es)))

-- Expiry takes a balance that is not negative to zero, and a later expiry then posts nothing.
expire_zeroes :
    (new_id : ℕ → ℕ) (pkg : Package) (es : List Entry) (at later b : ℕ)
    → balance es ≡ pos b
    → let es' = es ++ expire new_id pkg es at in
      (balance es' ≡ pos 0) × (expire new_id pkg es' later ≡ [])
expire_zeroes new_id pkg es at later b e =
    let zeroed = balance_after new_id pkg es at b e in
    (zeroed, expire_nothing new_id pkg _ later zeroed)

reversal_from-append :
    (t : ℤ) (xs ys : List Entry)
    → reversal_from t (xs ++ ys) ≡ reversal_from (reversal_from t xs) ys
unfolding reversal_from
reversal_from-append t [] ys = refl
reversal_from-append t (x ∷ xs) ys =
    reversal_from-append (if is_expire x.entry_type then t -ℤ x.qty else t) xs ys

sub_neg : (r b : ℕ) → r + b < half → pos r -ℤ (pos 0 -ℤ pos b) ≡ pos (r + b)
unfolding ◌-ℤ◌ to_word of_word
sub_neg r b h = ground arith

reversal_after :
    (new_id : ℕ → ℕ) (pkg : Package) (es : List Entry) (at b r : ℕ)
    → balance es ≡ pos b
    → reversal_from (pos 0) es ≡ pos r
    → r + b < half
    → reversal_from (pos 0) (es ++ expire new_id pkg es at) ≡ pos (r + b)
unfolding reversal_from
reversal_after new_id pkg es at zero r e v h =
    rw (expire_nothing new_id pkg es at e, append-nil, v) (ground arith)
reversal_after new_id pkg es at (suc b) r e v h =
    rw (expire_positive new_id pkg es at b e, reversal_from-append, v) (sub_neg r (suc b) h)

balance_extended :
    (new_id : ℕ → ℕ) (pkg : Package) (es out : List Entry) (at actor r : ℕ) (reason : String)
    → balance es ≡ pos 0
    → reversal_from (pos 0) es ≡ pos r
    → r < half
    → extend_expiry new_id pkg es at actor reason ≡ ok out
    → balance (es ++ out) ≡ pos r
unfolding extend_expiry balance_from
balance_extended new_id pkg es out at actor r reason e v h x =
    rw (balance-append es out, e) (ground (arith, +ℤ-pos 0 r))

-- An extension after an expiry brings the balance to all that EXPIRE entries have ever taken off:
-- the balance before this expiry, and what every earlier expiry took, even if an earlier extension
-- has already given that back. With no earlier EXPIRE entry (r = 0) it restores the balance.
pub extend_expiry-balance :
    (new_id : ℕ → ℕ) (pkg : Package) (es out : List Entry) (at later actor b r : ℕ)
    (reason : String)
    → balance es ≡ pos b
    → reversal_from (pos 0) es ≡ pos r
    → r + b < half
    → extend_expiry new_id pkg (es ++ expire new_id pkg es at) later actor reason ≡ ok out
    → balance ((es ++ expire new_id pkg es at) ++ out) ≡ pos (r + b)
extend_expiry-balance new_id pkg es out at later actor b r reason e v h x =
    balance_extended new_id pkg _ out later actor (r + b) reason
      (balance_after new_id pkg es at b e) (reversal_after new_id pkg es at b r e v h) h x
