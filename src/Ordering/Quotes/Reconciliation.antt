-- ===== src/Ordering/Quotes/Reconciliation.antt =====
-- What a quote's total is made of.
use evermore.Base.{
  ℕ, zero, suc, ◌+◌, ◌<◌, ◌==◌, ◌≡◌, refl, sym, subst, ◌∙◌, arith, List, [], ◌∷◌, ◌++◌, map, Result,
  ok, >>=-eq-ok, >>-eq-ok, refuse-eq-ok, Result-cases, inl, inr, sum_by, All, All-append, length,
}
use evermore.Int64.{ℤ, pos, half, Fits, ◌<ℤ◌}
use evermore.Money.{MoneyError, Idr, TaxSplit, mul, sum_splits, split_inclusive}
use evermore.Pricing.{validate_tiers}
use evermore.Ordering.Quotes.{
  CartItem, QuoteLine, Quote, Reads, money, pricing, deliveries_of, total_qty_from, price_lines,
  subtotal_from, fee_splits, settle, quote, qty_out_of_range, empty_cart,
}
use evermore.Ordering.Quotes.Totals.{
  up, inclusives, LineOk, mul-Fits, subtotal_from-sum, sum_splits-inclusive, split-inclusive,
  price_lines-LineOk, lines-Fits, taxes-inclusives, mul-pos, deliveries-le, map-length,
}

inclusives-append : (xs ys : List TaxSplit) → inclusives (xs ++ ys) ≡ inclusives xs + inclusives ys
inclusives-append [] ys = omega arith
inclusives-append (x ∷ xs) ys = omega (arith, inclusives-append xs ys)

fee_splits-ok :
    (n : ℕ) (bps : ℤ) (fs : List TaxSplit)
    → Fits (pos n)
    → fee_splits (pos n) bps ≡ ok fs
    → All (λ s. Fits s.inclusive) fs × (inclusives fs ≡ n)
unfolding fee_splits
fee_splits-ok zero bps fs fits h = let e : fs ≡ [] = ground arith in rw e (tt, refl)
fee_splits-ok (suc n) bps fs fits h = elim (Result-cases (split_inclusive (pos (suc n)) bps)) [
  | inl (s, one) ↦
      let e : s.inclusive ≡ pos (suc n) = split-inclusive (pos (suc n)) bps s one in
      let f : fs ≡ s ∷ [] = ground (arith, one) in rw f (rw e (fits, tt), ground (arith, e))
  | inr (x, bad) ↦ absurd (ground (arith, bad))
]

-- What reconciles a quote with its lines.
abbrev pub Reconciled : List CartItem → Quote → Type 0
Reconciled items q =
    (fee : ℕ) × (q.delivery_fee ≡ pos fee)
    × (q.subtotal ≡ pos (sum_by (λ l. up l.line_total) q.lines))
    × (q.total ≡ pos (sum_by (λ l. up l.line_total) q.lines + fee))
    × All LineOk q.lines
    × (map (λ l. l.qty) q.lines ≡ map (λ it. it.qty) items)

-- The results of the calls of `settle`.
settle-parts :
    (s : Reads) (total : ℤ) (ls : List QuoteLine) (q : Quote)
    → settle s total ls ≡ ok q
    → (f : Idr) × (fs : List TaxSplit) × (tax : TaxSplit) × (mul s.per_delivery
          (pos (deliveries_of ls))
        ≡ ok f)
      × (fee_splits f s.tax_bps ≡ ok fs)
      × (subtotal_from (pos 0) ls ≡ ok q.subtotal)
      × (sum_splits (map (λ l. l.line_tax) ls ++ fs) ≡ ok tax)
      × (q.lines ≡ ls)
      × (q.delivery_fee ≡ f)
      × (q.total ≡ tax.inclusive)
unfolding settle
settle-parts s total ls q h =
    let (f, hf, h1) = >>=-eq-ok (money (mul s.per_delivery (pos (deliveries_of ls)))) _ h in
    let (fs, hs, h2) = >>=-eq-ok (fee_splits f s.tax_bps) _ h1 in
    let (sub, hsub, h3) = >>=-eq-ok (subtotal_from (pos 0) ls) _ h2 in
    let (tax, ht, h4) = >>=-eq-ok (money (sum_splits (map (λ l. l.line_tax) ls ++ fs))) _ h3 in
    (
      f,
      fs,
      tax,
      of_money-ok hf,
      hs,
      hsub ∙ ground (arith, h4),
      of_money-ok ht,
      ground (arith, h4),
      ground (arith, h4),
      ground (arith, h4),
    )
  where
    of_money-ok : {A : Type 0} {r : Result MoneyError A} {a : A} → money r ≡ ok a → r ≡ ok a
    of_money-ok h = ground arith

sums-Reconciled :
    (items : List CartItem) (ls : List QuoteLine) (q : Quote) (n : ℕ) (bps : ℤ) (fs : List TaxSplit)
    (tax : TaxSplit)
    → Fits (pos n)
    → All LineOk ls
    → map (λ l. l.qty) ls ≡ map (λ it. it.qty) items
    → fee_splits (pos n) bps ≡ ok fs
    → subtotal_from (pos 0) ls ≡ ok q.subtotal
    → sum_splits (map (λ l. l.line_tax) ls ++ fs) ≡ ok tax
    → q.lines ≡ ls
    → q.delivery_fee ≡ pos n
    → q.total ≡ tax.inclusive
    → Reconciled items q
sums-Reconciled items ls q n bps fs tax fits all same hs hsub ht e_lines e_fee e_total =
    let (fs_fit, fs_sum) = fee_splits-ok n bps fs fits hs in
    let (ls_fit, ls_sum) = taxes-inclusives ls all in
    let e_sub = subtotal_from-sum 0 ls q.subtotal (omega arith) (lines-Fits ls all) hsub in
    let e_tax =
      sum_splits-inclusive (map (λ l. l.line_tax) ls ++ fs) tax
        (All-append (λ s. Fits s.inclusive) _ fs ls_fit fs_fit) ht in
    let count = inclusives-append (map (λ l. l.line_tax) ls) fs in
    (
      n,
      e_fee,
      subst (λ ks. q.subtotal ≡ pos (sum_by (λ l. up l.line_total) ks)) (sym e_lines)
          (ground (arith, e_sub)),
      subst (λ ks. q.total ≡ pos (sum_by (λ l. up l.line_total) ks + n)) (sym e_lines)
          (ground (arith, e_total, e_tax, count, ls_sum, fs_sum)),
      subst (λ ks. All LineOk ks) (sym e_lines) all,
      subst (λ ks. map (λ l. l.qty) ks ≡ map (λ it. it.qty) items) (sym e_lines) same,
    )

settle-Reconciled :
    (s : Reads) (total : ℤ) (items : List CartItem) (ls : List QuoteLine) (q : Quote)
    → Fits s.per_delivery
    → deliveries_of ls < half
    → All LineOk ls
    → map (λ l. l.qty) ls ≡ map (λ it. it.qty) items
    → settle s total ls ≡ ok q
    → Reconciled items q
settle-Reconciled s total items ls q per few all same h =
    let (f, fs, tax, paid, hs, hsub, ht, e_lines, e_fee, e_total) = settle-parts s total ls q h in
    let (n, en) = mul-pos s.per_delivery (deliveries_of ls) f per few paid in
    sums-Reconciled items ls q n s.tax_bps fs tax (subst Fits en (mul-Fits _ _ f paid)) all same
      (subst (λ x. fee_splits x s.tax_bps ≡ ok fs) en hs) hsub ht e_lines (e_fee ∙ en) e_total

-- With a fee for a delivery that an int64 holds and fewer than 2 ^ 63 items, a quote that is given
-- reconciles: it has one line for each item, in the order and with the quantities asked for; each
-- line's total is what `Mul` gives for its unit price and its quantity, and the amount that its tax
-- split is of; the subtotal is the exact sum of the line totals; and the total is the exact sum of
-- the subtotal and the delivery fee.
pub quote_reconciles :
    (s : Reads) (items : List CartItem) (q : Quote)
    → Fits s.per_delivery
    → length items < half
    → quote s items ≡ ok q
    → Reconciled items q
unfolding quote
quote_reconciles s items q per few h =
    let (_, h0) = refuse-eq-ok (length items == 0) empty_cart h in
    let (total, _, h1) = >>=-eq-ok (total_qty_from (pos 0) items) _ h0 in
    let (_, h2) = refuse-eq-ok (s.max_qty <ℤ total) qty_out_of_range h1 in
    let (_, h3) = >>-eq-ok (pricing (validate_tiers s.tiers s.max_qty)) h2 in
    let (ls, hl, h4) = >>=-eq-ok (price_lines s total items) _ h3 in
    let (all, same) = price_lines-LineOk s total items ls hl in
    let count : length ls ≡ length items = map-length (λ l. l.qty) (λ it. it.qty) ls items same in
    settle-Reconciled s total items ls q per (omega (arith, deliveries-le ls, count)) all same h4
