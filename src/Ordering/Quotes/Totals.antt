-- ===== src/Ordering/Quotes/Totals.antt =====
-- The amounts of a quote fit together.
use evermore.Base.{
  ℕ, suc, ◌+◌, ◌*◌, ◌≤◌, ◌<◌, ◌≡◌, refl, sym, ap, arith, List, [], ◌∷◌, map, ok, >>=-eq-ok,
  Result-cases, inl, inr, sum_by, All, length,
}
use evermore.Int64.{ℤ, pos, negsuc, half, Fits, ◌*ℤ◌}
use evermore.Money.{
  TaxSplit, mul, sum, sum_from, add_split, sum_splits, sum_splits_from, split_inclusive,
}
use evermore.Money.Sums.{sum_exact}
use evermore.Money.Rates.{largest, mul_exact}
use evermore.Int64.Laws.{of_word-Fits}
use evermore.Pricing.{resolve}
use evermore.Ordering.Quotes.{
  normal_of, deliveries_of, line_of, published, pricing, request_for, CartItem, QuoteLine, Reads,
  money, price_line, price_lines, subtotal_from,
}

abbrev pub up : ℤ → ℕ
up (pos n) = n
up (negsuc n) = 0

pub mul-Fits : (a q r : ℤ) → mul a q ≡ ok r → Fits r
unfolding mul ◌*ℤ◌
mul-Fits a q r h = let e : r ≡ a *ℤ q = ground arith in rw e (of_word-Fits _ (omega arith))

not_negative : (a b : ℕ) (z : ℤ) → sum (pos a ∷ negsuc b ∷ []) ≡ ok z → ⊥
unfolding sum sum_from
not_negative a b z h = ground arith

sum_pair :
    (a : ℕ) (y z : ℤ)
    → a ≤ largest
    → Fits y
    → sum (pos a ∷ y ∷ []) ≡ ok z
    → (y ≡ pos (up y)) × (z ≡ pos (a + up y)) × (a + up y ≤ largest)
unfolding sum
sum_pair a (pos b) z low fits h =
    let exact = sum_exact (a ∷ b ∷ []) (omega arith, (fits, tt)) in
    (refl, ground (arith, exact), ground (arith, exact))
sum_pair a (negsuc b) z low fits h = absurd (not_negative a b z h)

pub subtotal_from-sum :
    (t : ℕ) (lines : List QuoteLine) (r : ℤ)
    → t ≤ largest
    → All (λ l. Fits l.line_total) lines
    → subtotal_from (pos t) lines ≡ ok r
    → r ≡ pos (t + sum_by (λ l. up l.line_total) lines)
unfolding subtotal_from
subtotal_from-sum t [] r low all h = ground arith
subtotal_from-sum t (l ∷ lines) r low (fits, all) h =
    let (next, one, rest) = >>=-eq-ok (money (sum (pos t ∷ l.line_total ∷ []))) _ h in
    let (e, n, low') = sum_pair t l.line_total next low fits (ground (arith, one)) in
    ground (arith, subtotal_from-sum (t + up l.line_total) lines r low' all (rw (sym n) rest))

abbrev pub inclusives : List TaxSplit → ℕ
inclusives = sum_by (λ s. up s.inclusive)

add_split-inclusive :
    (t : ℕ) (out s o : TaxSplit)
    → out.inclusive ≡ pos t
    → t ≤ largest
    → Fits s.inclusive
    → add_split out s ≡ ok o
    → (o.inclusive ≡ pos (t + up s.inclusive)) × (t + up s.inclusive ≤ largest)
unfolding add_split
add_split-inclusive t out s o e low fits h =
    elim (Result-cases (sum (out.inclusive ∷ s.inclusive ∷ []))) [
      | inl (z, one) ↦
          let (_, n, low') = sum_pair t s.inclusive z low fits (ground (arith, one, e)) in
          (ground (arith, n, one), low')
      | inr (f, bad) ↦ absurd (ground (arith, bad))
    ]

sum_splits_from-inclusive :
    (t : ℕ) (out : TaxSplit) (ss : List TaxSplit) (end : TaxSplit)
    → out.inclusive ≡ pos t
    → t ≤ largest
    → All (λ s. Fits s.inclusive) ss
    → sum_splits_from out ss ≡ ok end
    → end.inclusive ≡ pos (t + inclusives ss)
unfolding sum_splits_from
sum_splits_from-inclusive t out [] end e low all h = ground (arith, e)
sum_splits_from-inclusive t out (s ∷ ss) end e low (fits, all) h =
    let (o, one, rest) = >>=-eq-ok (add_split out s) _ h in
    let (e', low') = add_split-inclusive t out s o e low fits one in
    ground (arith, sum_splits_from-inclusive (t + up s.inclusive) o ss end e' low' all rest)

pub sum_splits-inclusive :
    (ss : List TaxSplit) (end : TaxSplit)
    → All (λ s. Fits s.inclusive) ss
    → sum_splits ss ≡ ok end
    → end.inclusive ≡ pos (inclusives ss)
unfolding sum_splits
sum_splits-inclusive [] end all h = ground arith
sum_splits-inclusive (s ∷ ss) end all h =
    ground (arith, sum_splits_from-inclusive 0 _ (s ∷ ss) end refl (omega arith) all h)

-- A split is of the amount it was given.
pub split-inclusive : (a rate : ℤ) (s : TaxSplit) → split_inclusive a rate ≡ ok s → s.inclusive ≡ a
unfolding split_inclusive
split-inclusive a rate s h = ground arith

abbrev pub LineOk : QuoteLine → Type 0
LineOk l =
    Fits l.line_total
    × (l.line_tax.inclusive ≡ l.line_total)
    × (mul l.unit_price l.qty ≡ ok l.line_total)

price_line-qty :
    (s : Reads) (total : ℤ) (it : CartItem) (l : QuoteLine)
    → price_line s total it ≡ ok l
    → l.qty ≡ it.qty
unfolding price_line
price_line-qty s total it l h = ground arith

price_line-LineOk :
    (s : Reads) (total : ℤ) (it : CartItem) (l : QuoteLine)
    → price_line s total it ≡ ok l
    → LineOk l
unfolding price_line
price_line-LineOk s total it l h =
    let (meal, _, h1) = >>=-eq-ok (published (s.meal_for_sale it.scheduled_meal_id)) _ h in
    let (r, _, h2) =
      >>=-eq-ok
        (pricing (
          resolve s.show (request_for s meal total) s.tiers
            (s.price_rows meal.diet_type_id meal.service_date)))
        _ h1 in
    let (t, mt, h3) = >>=-eq-ok (money (mul r.unit_price_idr it.qty)) _ h2 in
    let (split, ms, h4) = >>=-eq-ok (money (split_inclusive t s.tax_bps)) _ h3 in
    let m : mul r.unit_price_idr it.qty ≡ ok t = ground (arith, mt) in
    let i : split.inclusive ≡ t = split-inclusive t s.tax_bps split (ground (arith, ms)) in
    let e : line_of it meal r
          (normal_of
            (resolve s.show (request_for s meal (pos 1)) s.tiers
              (s.price_rows meal.diet_type_id meal.service_date))
            r)
          t split
        ≡ l =
      ground (arith, h4) in
    rw (sym e) (mul-Fits _ _ t m, i, m)

pub price_lines-LineOk :
    (s : Reads) (total : ℤ) (items : List CartItem) (ls : List QuoteLine)
    → price_lines s total items ≡ ok ls
    → All LineOk ls × (map (λ l. l.qty) ls ≡ map (λ it. it.qty) items)
unfolding price_lines
price_lines-LineOk s total [] ls h = let e : ls ≡ [] = ground arith in rw e (tt, refl)
price_lines-LineOk s total (it ∷ items) ls h =
    let (l, one, h1) = >>=-eq-ok (price_line s total it) _ h in
    let (rest, more, h2) = >>=-eq-ok (price_lines s total items) _ h1 in
    let e : l ∷ rest ≡ ls = ground (arith, h2) in
    let (all, same) = price_lines-LineOk s total items rest more in
    rw (sym e) (
      (price_line-LineOk s total it l one, all),
      ground (arith, same, price_line-qty s total it l one),
    )

pub lines-Fits : (ls : List QuoteLine) → All LineOk ls → All (λ l. Fits l.line_total) ls
lines-Fits [] all = tt
lines-Fits (l ∷ ls) ((f, _, _), all) = (f, lines-Fits ls all)

pub taxes-inclusives :
    (ls : List QuoteLine)
    → All LineOk ls
    → All (λ s. Fits s.inclusive) (map (λ l. l.line_tax) ls)
      × (inclusives (map (λ l. l.line_tax) ls) ≡ sum_by (λ l. up l.line_total) ls)
taxes-inclusives [] all = (tt, refl)
taxes-inclusives (l ∷ ls) ((f, e, _), all) =
    let (fits, same) = taxes-inclusives ls all in ((rw e f, fits), rw e (ground (arith, same)))

-- A product that succeeds is not negative.
pub mul-pos :
    (a : ℤ) (d : ℕ) (r : ℤ) → Fits a → d < half → mul a (pos d) ≡ ok r → (n : ℕ) × (r ≡ pos n)
mul-pos (pos a) d r ha hd h = (a * d, ground (arith, mul_exact a d ha hd))
mul-pos (negsuc a) d r ha hd h = absurd (refused a d r h)
  where
    refused : (a d : ℕ) (r : ℤ) → mul (negsuc a) (pos d) ≡ ok r → ⊥
    refused a d r h = unfold mul in ground arith

pub deliveries-le : (ls : List QuoteLine) → deliveries_of ls ≤ length ls
unfolding deliveries_of
deliveries-le [] = omega arith
deliveries-le (l ∷ ls) = ground (arith, deliveries-le ls)

pub map-length {ℓ κ μ} :
    {A : Type ℓ} {B : Type κ} {C : Type μ} (f : A → C) (g : B → C) (xs : List A) (ys : List B)
    → map f xs ≡ map g ys
    → length xs ≡ length ys
map-length f g [] [] h = refl
map-length f g [] (y ∷ ys) h = cc
map-length f g (x ∷ xs) [] h = cc
map-length f g (x ∷ xs) (y ∷ ys) h = ap suc (map-length f g xs ys (ground (arith, h)))
