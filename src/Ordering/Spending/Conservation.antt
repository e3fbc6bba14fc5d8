-- ===== src/Ordering/Spending/Conservation.antt =====
-- What the credits of a basket cost, over all packages.
use mathlib.Core.List.{Perm}
use evermore.Base.{
  ℕ, zero, suc, ◌+◌, ◌≤◌, ◌<◌, ◌≡◌, refl, ◌∙◌, ◌⊎◌, inl, inr, ap, arith, List, [], ◌∷◌, ◌++◌, map,
  Result, ok, err, length, length-append, sum_by, All, All-append, sum_by-perm,
}
use evermore.Int64.{pos, half}
use evermore.Credit.{Entry}
use evermore.Ordering.Spending.{
  CreditPackage, CreditLine, SpendError, no_credits, Order, spend_lines, spend_credits,
}
use evermore.Ordering.Spending.Rounds.{up, IsRedeemed, AllActive, funds, LinePaid, spend_line_ok}

-- The basket's lines each ask for a positive number of meals below 2 ^ 63.
abbrev pub IsLine : CreditLine → Type 0
IsLine l = (n : ℕ) × (l.qty ≡ pos n) × (1 ≤ n) × (n < half)

abbrev pub demand : List CreditLine → ℕ
demand = sum_by (λ l. up l.qty)

-- What a paid basket leaves.
pub record Paid (packs : List CreditPackage) (lines : List CreditLine)
    (r : Result SpendError (List CreditPackage × List Entry)) : Type 0 where
  pub after : List CreditPackage
  pub entries : List Entry
  pub result : r ≡ ok (after, entries)
  pub moved : funds after + demand lines ≡ funds packs
  pub counted : length entries ≡ demand lines
  pub all_redeemed : All IsRedeemed entries
  pub same_packages : map (λ cp. cp.pkg) after ≡ map (λ cp. cp.pkg) packs

abbrev pub Refused : Result SpendError (List CreditPackage × List Entry) → Type 0
Refused r = (short : ℕ) × (date : ℕ) × (r ≡ err (no_credits (pos (suc short)) date))

abbrev Cases :
    List CreditPackage
    → List CreditLine
    → Result SpendError (List CreditPackage × List Entry)
    → Type 0
Cases packs lines r = Paid packs lines r ⊎ Refused r

-- A line and the lines after it.
spend_lines_step :
    (o : Order) (drawn : ℕ) (packs : List CreditPackage) (l : CreditLine) (lines : List CreditLine)
    (n k : ℕ)
    → l.qty ≡ pos n
    → (line : LinePaid o drawn packs l n) → line.left ≡ k
    → Cases line.after lines (spend_lines o (drawn + length line.entries) line.after lines)
    → Cases packs (l ∷ lines) (spend_lines o drawn packs (l ∷ lines))
unfolding spend_lines
spend_lines_step o drawn packs l lines n (suc k) eq line e rest =
    inr (k, l.service_date, ground (arith, line.result))
spend_lines_step o drawn packs l lines n zero eq line e (inr (short, date, r)) =
    inr (short, date, ground (arith, line.result, r))
spend_lines_step o drawn packs l lines n zero eq line e (inl p) = inl (record {
  after = p.after;
  entries = line.entries ++ p.entries;
  result = ground (arith, line.result, p.result);
  moved = omega (arith, e, ap up eq, p.moved, line.moved);
  counted =
      omega (arith, e, ap up eq, length-append line.entries p.entries, p.counted, line.counted);
  all_redeemed = All-append IsRedeemed line.entries p.entries line.all_redeemed p.all_redeemed;
  same_packages = p.same_packages ∙ line.same_packages;
})

spend_lines_cases :
    (o : Order) (drawn : ℕ) (packs : List CreditPackage) (lines : List CreditLine)
    → AllActive packs
    → All IsLine lines
    → Paid packs lines (spend_lines o drawn packs lines) ⊎ Refused (spend_lines o drawn packs lines)
unfolding spend_lines
spend_lines_cases o drawn packs [] a s = inl (record {
  after = packs;
  entries = [];
  result = refl;
  moved = omega arith;
  counted = omega arith;
  all_redeemed = tt;
  same_packages = refl;
})
spend_lines_cases o drawn packs (l ∷ lines) a ((n, eq, low, small), s) =
    let line = spend_line_ok o drawn packs l n a small in
    spend_lines_step o drawn packs l lines n line.left eq line refl
      (spend_lines_cases o (drawn + length line.entries) line.after lines line.still_active s)

-- With active packages, lines that each ask for at least one and fewer than 2 ^ 63 meals, and a
-- sort that only reorders the lines, a basket is either paid in full or refused as short of
-- credits; `Redeem` never refuses within it. A paid basket takes exactly the meals it asks for off
-- what the packages hold together, with one REDEEM entry of one credit for each meal, and leaves
-- the packages themselves as they were.
pub spend_credits_cases :
    (arrange : List CreditLine → List CreditLine) (o : Order) (packs : List CreditPackage)
    (lines : List CreditLine)
    → Perm (arrange lines) lines
    → AllActive packs
    → All IsLine (arrange lines)
    → Paid packs lines (spend_credits arrange o packs lines)
      ⊎ Refused (spend_credits arrange o packs lines)
unfolding spend_credits
spend_credits_cases arrange o packs lines p a s =
    let same = sum_by-perm (λ (l : CreditLine). up l.qty) p in
    elim (spend_lines_cases o 0 packs (arrange lines) a s) [
      | inl q ↦ inl (record {
        after = q.after;
        entries = q.entries;
        result = q.result;
        moved = omega (arith, same, q.moved);
        counted = omega (arith, same, q.counted);
        all_redeemed = q.all_redeemed;
        same_packages = q.same_packages;
      })
      | inr r ↦ inr r
    ]
