-- ===== src/Ordering/CreditCheckout/Lines.antt =====
-- The lines of a credit quote, as the payment and the reservation read them.
use evermore.Base.{
  ℕ, suc, ◌+◌, ◌≤◌, ◌<◌, ◌≡◌, refl, ap, arith, Bool, true, false, ◌&&◌, List, [], ◌∷◌, Option, map,
  All, All-perm, All-map, length, Bool-cases, Option-cases, inl, inr,
}
use mathlib.Core.List.{Perm}
use evermore.Int64.{ℤ, pos, negsuc, half, ◌<ℤ◌, ◌≤ℤ◌}
use evermore.Ordering.Quotes.{CartItem}
use evermore.Ordering.Spending
use evermore.Ordering.Spending.Conservation.{IsLine}
use evermore.Ordering.Orders.{Call}
use evermore.Ordering.Orders.Lines.{Small}
use evermore.Ordering.Checkout.{CheckoutInput}
use evermore.Ordering.CreditCheckout.{
  MealRow, CreditLine, credit_lines, credit_lines_from, demand_of,
}

-- An item that asks for a number of meals asks for fewer than 2 ^ 62.
abbrev pub SmallItem : CartItem → Type 0
SmallItem it = (k : ℕ) → it.qty ≡ pos k → k + k < half

-- The line asks for at least one and fewer than 2 ^ 62 meals.
abbrev pub IsMeal : CreditLine → Type 0
IsMeal l = (n : ℕ) × (l.qty ≡ pos n) × (1 ≤ n) × (n + n < half)

positive : (q : ℤ) → (q ≤ℤ pos 0) ≡ false → (n : ℕ) × (q ≡ pos n) × (1 ≤ n)
positive (pos n) h = (n, refl, ground (arith, h))
positive (negsuc n) h = cc

pub credit_lines-IsMeal :
    (published : ℕ → Option MealRow) (items : List CartItem)
    → All SmallItem items
    → All IsMeal (credit_lines published items)
unfolding credit_lines
credit_lines-IsMeal published [] small = tt
credit_lines-IsMeal published (it ∷ items) (s, small) =
    let rest = credit_lines-IsMeal published items small in
    elim (Bool-cases (it.qty ≤ℤ pos 0)) [
      | inl e ↦ rw e rest
      | inr e ↦ elim (Option-cases (published it.scheduled_meal_id)) [
        | inl n ↦ rw (e, n) rest
        | inr (m, f) ↦ let (k, q, one) = positive it.qty e in rw (e, f) ((k, q, one, s k q), rest)
      ]
    ]

pub credit_lines_from-Small :
    (call : Call) (i : CheckoutInput) (a n : ℕ) (ls : List CreditLine)
    → All IsMeal ls
    → All Small (credit_lines_from call i a n ls)
credit_lines_from-Small call i a n [] all = tt
credit_lines_from-Small call i a n (l ∷ ls) ((k, q, _, less), all) =
    ((k, q, less), credit_lines_from-Small call i a (suc n) ls all)

pub length-credit_lines_from :
    (call : Call) (i : CheckoutInput) (a n : ℕ) (ls : List CreditLine)
    → length (credit_lines_from call i a n ls) ≡ length ls
length-credit_lines_from call i a n [] = refl
length-credit_lines_from call i a n (l ∷ ls) = ap suc (length-credit_lines_from call i a (suc n) ls)

is_line : Spending.CreditLine → Bool
is_line l = (pos 0 <ℤ l.qty) && (l.qty <ℤ pos half)

payable : (l : Spending.CreditLine) → is_line l ≡ true → IsLine l
unfolding is_line
payable l h = from l.qty refl h
  where
    from : (q : ℤ) → l.qty ≡ q → (pos 0 <ℤ q && q <ℤ pos half) ≡ true → IsLine l
    from (pos n) e h = (n, e, ground (arith, h), ground (arith, h))
    from (negsuc n) e h = cc

demands-is_line :
    (ls : List CreditLine) → All IsMeal ls → All (λ l. is_line l ≡ true) (map demand_of ls)
unfolding is_line
demands-is_line [] all = tt
demands-is_line (l ∷ ls) ((n, q, one, less), all) =
    (ground (arith, q, one, less), demands-is_line ls all)

-- However the demand is sorted, each of its lines is one that can be paid.
pub arranged-IsLine :
    (arrange : List Spending.CreditLine → List Spending.CreditLine) (ls : List CreditLine)
    → Perm (arrange (map demand_of ls)) (map demand_of ls)
    → All IsMeal ls
    → All IsLine (arrange (map demand_of ls))
arranged-IsLine arrange ls p all =
    All-map payable (arrange (map demand_of ls)) (All-perm is_line p (demands-is_line ls all))
