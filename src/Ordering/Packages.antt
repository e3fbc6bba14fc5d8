-- ===== src/Ordering/Packages.antt =====
-- `resolvePackage`, `PackageQuote` and `BuyPackage` of internal/app/ordering/packages.go: a package of
-- credits is priced and ordered. Its documents, the trace and the snapshot, are left out, and so is
-- the name.
pub mod Prices
pub mod Bought
use Prim.Native.String.{String}
use Prim.Native.String.{◌++◌ as concat}
use evermore.Base.{
  ℕ, ltb, leb, ◌==◌, Bool, true, false, ◌&&◌, List, [], ◌∷◌, ◌++◌, Option, none, some,
  if◌then◌else◌, first, Result, ok, err, ◌>>=◌,
}
use evermore.Int64.{ℤ, pos}
use evermore.Text.{text_eq}
use evermore.Money.{Idr, TaxSplit, split_inclusive}
use evermore.Pricing.{
  Table, Rendering, package_normal, package_promo, scope_default, scope_for_customer_type,
}
use evermore.Order
use evermore.Credit
use evermore.Ordering.Orders.{
  OrderRow, OrderLine, CustomerPackage, Db, Placed, OrderingError, Call, of_split,
  package_not_for_sale, no_package_price, package_order, pass, null_if_empty, existing,
  insert_order, open_payment,
}

pub record PackageDef : Type 0 where
  pub id : ℕ
  pub meal_credits : ℤ
  pub validity_days : ℕ
  pub is_active : Bool

-- A row of package_price_normal or of package_price_promo; it is in force up to the day before valid_to.
pub record PackagePrice : Type 0 where
  pub id : ℕ
  pub package_id : ℕ
  pub scope_key : String
  pub total_price_idr : Idr
  pub is_active : Bool
  pub valid_from : ℕ
  pub valid_to : Option ℕ

pub record PackageForSale : Type 0 where
  pub id : ℕ
  pub credits : ℤ
  pub validity_days : ℕ
  pub price : Idr
  pub normal_price : Idr
  pub is_promo : Bool
  pub price_row_id : ℕ
  pub price_table : Table

-- What the purchase reads: the catalogue, the customer's type, the rate, the identifier
-- that it draws, and the part of a text after
-- its first dash, if it has one, as strings.SplitN gives it.
pub record Shop : Type 0 where
  pub packages : List PackageDef
  pub normal_prices : List PackagePrice
  pub promo_prices : List PackagePrice
  pub show : Rendering
  pub customer_type_id : ℕ
  pub tax_bps : ℤ
  pub new_package_id : ℕ
  pub after_dash : String → Option String

abbrev not_over : ℕ → Option ℕ → Bool
not_over today none = true
not_over today (some end) = ltb today end

-- `package_id = $1 AND scope_key = $2 AND is_active AND validity @> $3::date`
abbrev pub in_force : ℕ → String → ℕ → PackagePrice → Bool
in_force package_id scope today p =
    p.package_id == package_id
    && text_eq p.scope_key scope
    && p.is_active
    && leb p.valid_from today
    && not_over today p.valid_to

abbrev pub at_normal : PackageDef → PackagePrice → PackageForSale
at_normal d n = record {
  id = d.id;
  credits = d.meal_credits;
  validity_days = d.validity_days;
  price = n.total_price_idr;
  normal_price = n.total_price_idr;
  is_promo = false;
  price_row_id = n.id;
  price_table = package_normal;
}

-- A promo in the same scope overrides the normal price.
abbrev pub with_promo : Option PackagePrice → PackageForSale → PackageForSale
with_promo none p = p
with_promo (some promo) p = record p {
  price = promo.total_price_idr;
  price_row_id = promo.id;
  price_table = package_promo;
  is_promo = true;
}

-- The loop over the scopes.
unfoldable pub price_in : Shop → PackageDef → ℕ → List String → Result OrderingError PackageForSale
price_in shop d today [] = err no_package_price
price_in shop d today (scope ∷ scopes) =
    let rest = price_in shop d today scopes in
    elim (first (in_force d.id scope today) shop.normal_prices) [
      | none ↦ rest
      | some n ↦
          ok (with_promo (first (in_force d.id scope today) shop.promo_prices) (at_normal d n))
    ]

unfoldable pub resolve_package : Shop → ℕ → ℕ → Result OrderingError PackageForSale
resolve_package shop today package_id =
    elim (first (λ d. d.id == package_id && d.is_active) shop.packages) [
      | none ↦ err package_not_for_sale
      | some d ↦
          price_in shop d today
            (scope_for_customer_type shop.show shop.customer_type_id ∷ scope_default ∷ [])
    ]

unfoldable package_quote : Shop → ℕ → ℕ → Result OrderingError (Idr × Bool)
package_quote shop today package_id =
    resolve_package shop today package_id >>= λ p. ok (p.price, p.is_promo)

unfoldable pub package_number : Shop → String → String
package_number shop order_number = elim (shop.after_dash order_number) [
  | none ↦ concat "PKG-" order_number
  | some rest ↦ concat "PKG-" rest
]

-- The order's INSERT.
abbrev pub package_order_of : Call → Shop → ℕ → String → PackageForSale → TaxSplit → OrderRow
package_order_of call shop customer_id key p split = record {
  id = call.order_id;
  order_number = call.order_number;
  customer_id = customer_id;
  order_type = package_order;
  status = Order.awaiting_payment;
  subtotal_idr = p.price;
  delivery_fee_idr = pos 0;
  discount_idr = pos 0;
  total_idr = p.price;
  tax_base_idr = split.base;
  tax_idr = split.tax;
  tax_rate_bps = shop.tax_bps;
  payment_amount_idr = p.price;
  payment_rounding_idr = pos 0;
  payment_deadline_at = some call.deadline;
  idempotency_key = null_if_empty key;
  notes = "";
}

abbrev pub package_line_of : Call → PackageForSale → TaxSplit → OrderLine
package_line_of call p split = record {
  id = call.line_id 0;
  order_id = call.order_id;
  scheduled_meal_id = none;
  package_id = some p.id;
  qty = pos 1;
  unit_price_idr = p.price;
  normal_price_idr = p.normal_price;
  line_total_idr = p.price;
  line_tax_base_idr = split.base;
  line_tax_idr = split.tax;
  is_promo = p.is_promo;
  price_row_id = some p.price_row_id;
  price_table = some p.price_table;
}

-- The PENDING row that a verified payment activates.
abbrev pub pending_package : Call → Shop → ℕ → PackageForSale → CustomerPackage
pending_package call shop customer_id p = record {
  row = record {
    id = shop.new_package_id;
    customer_id = customer_id;
    order_id = call.order_id;
    meal_credits = p.credits;
    validity_days = p.validity_days;
    status = Credit.pending;
    activated_at = none;
    expires_at = none;
  };
  package_id = p.id;
  package_number = package_number shop call.order_number;
  price_paid_idr = p.price;
}

-- The transaction, where the key has no order yet.
unfoldable pub order_package : Call → Shop → ℕ → ℕ → String → Db → Result OrderingError Placed
order_package call shop customer_id package_id key db = do
  p ← resolve_package shop call.today package_id
  split ← pass of_split (split_inclusive p.price shop.tax_bps)
  (c, db1) ← insert_order call (package_order_of call shop customer_id key p split) db
  let db2 = record db1 {
    order_lines = db1.order_lines ++ package_line_of call p split ∷ [];
    packages = db1.packages ++ pending_package call shop customer_id p ∷ [];
  }
  db3 ← open_payment call call.order_id c.amount "package order placed" db2
  ok (record { order_id = call.order_id; order_number = call.order_number; db = db3 })

unfoldable pub buy_package : Call → Shop → ℕ → ℕ → String → Db → Result OrderingError Placed
buy_package call shop customer_id package_id key db = elim (existing customer_id key db.orders) [
  | some o ↦ ok (record { order_id = o.id; order_number = o.order_number; db = db })
  | none ↦ order_package call shop customer_id package_id key db
]
