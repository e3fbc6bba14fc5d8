-- ===== src/Ordering/Packages/Prices.antt =====
-- Which price a package has.
use Prim.Native.String.{String}
use evermore.Base.{
  ℕ, ◌==◌, ◌≡◌, refl, ◌⊎◌, inl, inr, ◌&&◌, none, some, first, Result, ok, err, Option-cases,
}
use evermore.Pricing.{scope_default, scope_for_customer_type}
use evermore.Ordering.Orders.{OrderingError, no_package_price}
use evermore.Ordering.Packages.{
  PackageDef, PackagePrice, PackageForSale, Shop, in_force, at_normal, with_promo, price_in,
  resolve_package,
}

-- The price of the scope: a normal one in force, and the promo of the same scope where one is in force.
abbrev PricedIn : Shop → PackageDef → ℕ → String → Result OrderingError PackageForSale → Type 0
PricedIn shop d today scope r =
    (n : PackagePrice) × (first (in_force d.id scope today) shop.normal_prices ≡ some n)
    × (r ≡ ok (with_promo (first (in_force d.id scope today) shop.promo_prices) (at_normal d n)))

abbrev Unpriced : Shop → PackageDef → ℕ → String → Type 0
Unpriced shop d today scope = first (in_force d.id scope today) shop.normal_prices ≡ none

-- The scope comes first and the promo within it: a package for sale has the price of the customer's
-- own type if that scope has a normal price in force, whatever promo the DEFAULT scope offers, else
-- that of the DEFAULT scope, and where neither has one the purchase is refused; in a scope that has a
-- normal price its own promo in force, if any, overrides it.
resolve_package_cases :
    (shop : Shop) (today package_id : ℕ) (d : PackageDef)
    → first (λ d. d.id == package_id && d.is_active) shop.packages ≡ some d
    → let own = scope_for_customer_type shop.show shop.customer_type_id in
      PricedIn shop d today own (resolve_package shop today package_id)
      ⊎ ((Unpriced shop d today own
            × PricedIn shop d today scope_default (resolve_package shop today package_id))
          ⊎ (Unpriced shop d today own
              × Unpriced shop d today scope_default
              × (resolve_package shop today package_id ≡ err no_package_price)))
unfolding resolve_package price_in
resolve_package_cases shop today package_id d f =
    let own = scope_for_customer_type shop.show shop.customer_type_id in
    elim (Option-cases (first (in_force d.id own today) shop.normal_prices)) [
      | inr (n, e) ↦ inl (n, e, rw (resolve_package, price_in, f, e) refl)
      | inl e ↦ elim (Option-cases (first (in_force d.id scope_default today) shop.normal_prices)) [
        | inr (n, g) ↦ inr (inl (e, (n, g, rw (resolve_package, price_in, f, e, g) refl)))
        | inl g ↦ inr (inr (e, g, rw (resolve_package, price_in, f, e, g) refl))
      ]
    ]
