-- ===== src/Money/Sums.antt =====
-- `Sum` and `SumSplits`: exact totals, or the overflow error.
use native.Mathlib.Nat.{zero-add}
use evermore.Base.{
  ℕ, ◌+◌, ◌≤◌, ◌<◌, ◌≡◌, refl, sym, subst, ◌∙◌, arith, leb, ltb, List, [], ◌∷◌, map, All,
  if◌then◌else◌, ok, err, >>=-eq-ok,
}
use evermore.Int64.{ℤ, pos, half, ◌-ℤ◌, ◌<ℤ◌, to_word, of_word}
use evermore.Int64.Laws.{+ℤ-pos, ==ℤ→eq}
use evermore.Money.{TaxSplit, overflow, sum_from, sum, add_split, sum_splits_from, sum_splits}
use evermore.Money.Rates.{largest}

abbrev pub total : List ℕ → ℕ
total [] = 0
total (x ∷ xs) = x + total xs

-- The guard of `Sum`, also where the difference is negative.
sub_guard : (x a t : ℕ) → x < half → a < half → ((pos x -ℤ pos a) <ℤ pos t) ≡ ltb x (t + a)
unfolding ◌-ℤ◌ to_word of_word
sub_guard x a t hx ha = ground arith

sum_from_exact :
    (t : ℕ) (xs : List ℕ)
    → t ≤ largest
    → All (λ x. x < half) xs
    → sum_from (pos t) (map pos xs)
      ≡ (if leb (t + total xs) largest then ok (pos (t + total xs)) else err overflow)
unfolding sum_from
sum_from_exact t [] h a = ground arith
sum_from_exact t (x ∷ xs) h (small, rest) =
    ground (arith, sub_guard largest x t, +ℤ-pos t x, sum_from_exact (t + x) xs)

-- The sum of amounts that are not negative is their exact total if that is at most 2 ^ 62 - 1, and
-- the overflow error otherwise; no addition wraps on the way.
pub sum_exact :
    (xs : List ℕ)
    → All (λ x. x < half) xs
    → sum (map pos xs) ≡ (if leb (total xs) largest then ok (pos (total xs)) else err overflow)
unfolding sum
sum_exact xs a = ground (arith, sum_from_exact 0 xs)

-- A split at one rate, with its base and its tax.
abbrev as_split : ℕ → ℕ × ℕ → TaxSplit
as_split r (b, t) = record { inclusive = pos (b + t); base = pos b; tax = pos t; rate_bps = pos r }

abbrev bases : List (ℕ × ℕ) → ℕ
bases [] = 0
bases ((b, t) ∷ ls) = b + bases ls

abbrev taxes : List (ℕ × ℕ) → ℕ
taxes [] = 0
taxes ((b, t) ∷ ls) = t + taxes ls

abbrev IsSmall : ℕ × ℕ → Type 0
IsSmall (b, t) = b + t < half

sum_two :
    (a b : ℕ)
    → a ≤ largest
    → b < half
    → sum (pos a ∷ pos b ∷ []) ≡ (if leb (a + b) largest then ok (pos (a + b)) else err overflow)
sum_two a b h k = ground (arith, sum_exact (a ∷ b ∷ []))

sum_splits_from_exact :
    (r b t : ℕ) (ls : List (ℕ × ℕ))
    → b + t ≤ largest
    → All IsSmall ls
    → sum_splits_from (as_split r (b, t)) (map (as_split r) ls) ≡ (
        if leb (b + bases ls + (t + taxes ls)) largest
        then ok (as_split r (b + bases ls, t + taxes ls))
        else err overflow)
unfolding sum_splits_from
sum_splits_from_exact r b t [] h a = ground arith
sum_splits_from_exact r b t ((x, y) ∷ ls) h (small, rest) = ground (
  arith,
  sum_two (b + t) (x + y),
  sum_two b x,
  sum_two t y,
  sum_splits_from_exact r (b + x) (t + y) ls,
)

-- The total of splits at one rate has the exact sums of their bases and of their taxes, and its
-- inclusive amount is the sum of the two, if that is at most 2 ^ 62 - 1; and it is the overflow
-- error otherwise.
sum_splits_exact :
    (r b t : ℕ) (ls : List (ℕ × ℕ))
    → All IsSmall ((b, t) ∷ ls)
    → sum_splits (map (as_split r) ((b, t) ∷ ls)) ≡ (
        if leb (bases ((b, t) ∷ ls) + taxes ((b, t) ∷ ls)) largest
        then ok (as_split r (bases ((b, t) ∷ ls), taxes ((b, t) ∷ ls)))
        else err overflow)
unfolding sum_splits
sum_splits_exact r b t ls a =
    simp zero-add at (sum_splits_from_exact r 0 0 ((b, t) ∷ ls) (omega arith) a)

abbrev SameRate : ℤ → List TaxSplit → Type 0
SameRate r = All (λ s. s.rate_bps ≡ r)

add_split-rate :
    (out s o : TaxSplit)
    → add_split out s ≡ ok o
    → (s.rate_bps ≡ out.rate_bps) × (o.rate_bps ≡ out.rate_bps)
unfolding add_split
add_split-rate out s o e = ground (arith, ==ℤ→eq s.rate_bps out.rate_bps)

sum_splits_from-SameRate :
    (out : TaxSplit) (ss : List TaxSplit) (end : TaxSplit) (r : ℤ)
    → out.rate_bps ≡ r
    → sum_splits_from out ss ≡ ok end
    → SameRate r ss × (end.rate_bps ≡ r)
unfolding sum_splits_from
sum_splits_from-SameRate out [] end r same e = (tt, ground arith)
sum_splits_from-SameRate out (s ∷ ss) end r same e =
    let (o, added, more) = >>=-eq-ok (add_split out s) (λ o. sum_splits_from o ss) e in
    let (here, kept) = add_split-rate out s o added in
    let (rest, last) = sum_splits_from-SameRate o ss end r (kept ∙ same) more in
    ((here ∙ same, rest), last)

-- An order's splits are summed only if all were computed at one rate, which is the total's.
sum_splits-SameRate :
    (s : TaxSplit) (ss : List TaxSplit) (out : TaxSplit)
    → sum_splits (s ∷ ss) ≡ ok out
    → SameRate out.rate_bps (s ∷ ss)
unfolding sum_splits
sum_splits-SameRate s ss out e =
    let (all, last) = sum_splits_from-SameRate _ (s ∷ ss) out s.rate_bps refl e in
    subst (λ r. SameRate r (s ∷ ss)) (sym last) all
