-- ===== src/Ordering/Quotes.antt =====
-- `Quote` of internal/app/ordering/ordering.go: a basket is priced. What the call reads from the
-- database is a record, in which a scheduled meal is found if it is published. The snapshot of a
-- meal's foods, a document that is stored with the line as it was read, is left out.
pub mod Totals
pub mod Reconciliation
use Prim.Native.String.{String}
use evermore.Base.{
  ℕ, zero, suc, ◌==◌, Bool, true, false, not, ◌&&◌, ◌||◌, List, [], ◌∷◌, ◌++◌, Option, none, some,
  if◌then◌else◌, map, Result, ok, err, refuse, ◌>>=◌, ◌>>◌, length,
}
use evermore.Int64.{ℤ, pos, negsuc, ◌+ℤ◌, ◌-ℤ◌, ◌<ℤ◌, ◌≤ℤ◌, ◌==ℤ◌}
use evermore.Money.{Idr, MoneyError, TaxSplit, no_split, mul, sum, split_inclusive, sum_splits}
use evermore.Pricing.{Tier, Row, Trace, Resolved, Rendering, PricingError, resolve, validate_tiers}
use evermore.Pricing
use evermore.Text.{text_eq}

pub record CartItem : Type 0 where
  pub scheduled_meal_id : ℕ
  pub qty : ℤ

pub record MealRow : Type 0 where
  pub name : String
  pub service_date : ℕ
  pub slot_id : ℕ
  pub slot_time : String
  pub diet_type_id : ℕ
  pub diet_name : String
  pub diet_slug : String

pub data QuoteError : Type 0 where
  empty_cart qty_out_of_range meal_not_published : QuoteError
  of_money : MoneyError → QuoteError
  of_pricing : PricingError → QuoteError

pub record QuoteLine : Type 0 where
  pub scheduled_meal_id : ℕ
  pub meal_name : String
  pub service_date : ℕ
  pub slot_time : String
  pub diet_name : String
  pub diet_slug : String
  pub qty : ℤ
  pub unit_price : Idr
  pub normal_price : Idr
  pub line_total : Idr
  pub line_tax : TaxSplit
  pub trace : Trace
  pub slot_id : ℕ
  pub diet_type_id : ℕ

-- `next_tier_idr` and `next_tier_save` are never set by the code.
pub record Quote : Type 0 where
  pub lines : List QuoteLine
  pub total_qty : ℤ
  pub subtotal : Idr
  pub delivery_fee : Idr
  pub tax : TaxSplit
  pub total : Idr
  pub tax_rate_bps : ℤ
  pub deliveries : ℕ
  pub next_tier_qty : ℤ

-- What the call reads: parameters, the customer's type, the tiers, the meals, the price rows of a
-- diet on a service date, the fee of a delivery, and today.
pub record Reads : Type 0 where
  pub max_qty : ℤ
  pub tax_bps : ℤ
  pub customer_type_id : ℕ
  pub tiers : List Tier
  pub meal_for_sale : ℕ → Option MealRow
  pub price_rows : ℕ → ℕ → List Row
  pub per_delivery : Idr
  pub today : ℕ
  pub show : Rendering

abbrev pub money {ℓ} : {A : Type ℓ} → Result MoneyError A → Result QuoteError A
money (ok a) = ok a
money (err e) = err (of_money e)

abbrev pub pricing {ℓ} : {A : Type ℓ} → Result PricingError A → Result QuoteError A
pricing (ok a) = ok a
pricing (err e) = err (of_pricing e)

-- The first loop over the items.
unfoldable pub total_qty_from : ℤ → List CartItem → Result QuoteError ℤ
total_qty_from total [] = ok total
total_qty_from total (it ∷ items) = do
  refuse (it.qty ≤ℤ pos 0) qty_out_of_range
  total_qty_from (total +ℤ it.qty) items

abbrev pub published : Option MealRow → Result QuoteError MealRow
published none = err meal_not_published
published (some meal) = ok meal

abbrev pub request_for : Reads → MealRow → ℤ → Pricing.Request
request_for s meal qty = record {
  customer_type_id = s.customer_type_id;
  diet_type_id = meal.diet_type_id;
  qty = qty;
  order_date = s.today;
}

-- The price of a single portion, or the price itself where that cannot be resolved.
abbrev pub normal_of : Result PricingError Resolved → Resolved → Idr
normal_of (ok single) r = single.unit_price_idr
normal_of (err e) r = r.unit_price_idr

abbrev pub line_of : CartItem → MealRow → Resolved → Idr → Idr → TaxSplit → QuoteLine
line_of it meal r normal line_total split = record {
  scheduled_meal_id = it.scheduled_meal_id;
  meal_name = meal.name;
  service_date = meal.service_date;
  slot_time = meal.slot_time;
  diet_name = meal.diet_name;
  diet_slug = meal.diet_slug;
  qty = it.qty;
  unit_price = r.unit_price_idr;
  normal_price = normal;
  line_total = line_total;
  line_tax = split;
  trace = r.trace;
  slot_id = meal.slot_id;
  diet_type_id = meal.diet_type_id;
}

-- One round of the loop over the items. The tier is that of the whole basket.
unfoldable pub price_line : Reads → ℤ → CartItem → Result QuoteError QuoteLine
price_line s total_qty it = do
  meal ← published (s.meal_for_sale it.scheduled_meal_id)
  let rows = s.price_rows meal.diet_type_id meal.service_date
  r ← pricing (resolve s.show (request_for s meal total_qty) s.tiers rows)
  let normal = normal_of (resolve s.show (request_for s meal (pos 1)) s.tiers rows) r
  line_total ← money (mul r.unit_price_idr it.qty)
  split ← money (split_inclusive line_total s.tax_bps)
  ok (line_of it meal r normal line_total split)

unfoldable pub price_lines : Reads → ℤ → List CartItem → Result QuoteError (List QuoteLine)
price_lines s total_qty [] = ok []
price_lines s total_qty (it ∷ items) = do
  line ← price_line s total_qty it
  lines ← price_lines s total_qty items
  ok (line ∷ lines)

abbrev pub same_delivery : QuoteLine → QuoteLine → Bool
same_delivery a b = a.service_date == b.service_date && text_eq a.slot_time b.slot_time

abbrev delivered_with : QuoteLine → List QuoteLine → Bool
delivered_with l [] = false
delivered_with l (m ∷ lines) = same_delivery l m || delivered_with l lines

-- How many distinct dates and slots the lines have, `len(dates)`.
unfoldable pub deliveries_of : List QuoteLine → ℕ
deliveries_of [] = 0
deliveries_of (l ∷ lines) =
    let rest = deliveries_of lines in if delivered_with l lines then rest else suc rest

-- The fee's split, where there is a fee.
unfoldable pub fee_splits : Idr → ℤ → Result QuoteError (List TaxSplit)
fee_splits fee tax_bps =
    if pos 0 <ℤ fee
    then (do split ← money (split_inclusive fee tax_bps); ok (split ∷ []))
    else ok []

-- The loop that sums the line totals.
unfoldable pub subtotal_from : Idr → List QuoteLine → Result QuoteError Idr
subtotal_from subtotal [] = ok subtotal
subtotal_from subtotal (l ∷ lines) = do
  next ← money (sum (subtotal ∷ l.line_total ∷ []))
  subtotal_from next lines

-- The loop of `attachNextTier`: the least minimum above the quantity, `none` for -1.
unfoldable pub next_minimum : ℤ → Option ℤ → List Tier → Option ℤ
next_minimum qty best [] = best
next_minimum qty none (t ∷ tiers) =
    next_minimum qty (if qty <ℤ t.min_qty then some t.min_qty else none) tiers
next_minimum qty (some b) (t ∷ tiers) =
    next_minimum qty (some (if qty <ℤ t.min_qty && (t.min_qty <ℤ b) then t.min_qty else b)) tiers

abbrev next_tier_qty_of : ℤ → Option ℤ → ℤ
next_tier_qty_of qty none = pos 0
next_tier_qty_of qty (some best) = best -ℤ qty

-- The end of `Quote`, once the lines are priced.
unfoldable pub settle : Reads → ℤ → List QuoteLine → Result QuoteError Quote
settle s total_qty lines = do
  let deliveries = deliveries_of lines
  fee ← money (mul s.per_delivery (pos deliveries))
  fees ← fee_splits fee s.tax_bps
  subtotal ← subtotal_from (pos 0) lines
  tax ← money (sum_splits (map (λ l. l.line_tax) lines ++ fees))
  ok (record {
    lines = lines;
    total_qty = total_qty;
    subtotal = subtotal;
    delivery_fee = fee;
    tax = tax;
    total = tax.inclusive;
    tax_rate_bps = s.tax_bps;
    deliveries = deliveries;
    next_tier_qty = next_tier_qty_of total_qty (next_minimum total_qty none s.tiers);
  })

unfoldable pub quote : Reads → List CartItem → Result QuoteError Quote
quote s items = do
  refuse (length items == 0) empty_cart
  total_qty ← total_qty_from (pos 0) items
  refuse (s.max_qty <ℤ total_qty) qty_out_of_range
  pricing (validate_tiers s.tiers s.max_qty)
  lines ← price_lines s total_qty items
  settle s total_qty lines
