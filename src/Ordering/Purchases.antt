-- ===== src/Ordering/Purchases.antt =====
-- A customer whose type has a price of its own buys a package; the retail promo does not apply.
use evermore.Base.{ℕ, ◌≡◌, refl, arith, true, false, [], ◌∷◌, none, some, ok}
use evermore.Int64.{pos, to_word, of_word, ◌+ℤ◌, ◌-ℤ◌, ◌*ℤ◌, ◌/ℤ◌}
use evermore.Money.{split_inclusive}
use evermore.Order.{payment_amount}
use evermore.Pricing.{package_normal, scope_for_customer_type}
use evermore.Payments.Rows.{pending}
use evermore.Ordering.Suffixes.{claim_suffix, claim_loop, taken}
use evermore.Ordering.Orders.{Placed, existing, with_amount, insert_order, open_payment}
use evermore.Ordering.Packages.{
  PackageDef, PackagePrice, PackageForSale, Shop, price_in, resolve_package, package_order_of,
  package_line_of, pending_package, order_package, buy_package,
}
use evermore.Ordering.Packages.Bought.{IsBought, buy_package_sells}
use evermore.Ordering.Baskets.{draw-Draws, show, split_of}
use evermore.Ordering.Placements.{call, untouched, due}

abbrev priced : ℕ → PackagePrice
priced id = record {
  id = id;
  package_id = 8;
  scope_key = "CT:42";
  total_price_idr = pos 100000;
  is_active = true;
  valid_from = 0;
  valid_to = some 90;
}

abbrev twenty : PackageDef
twenty = record { id = 8; meal_credits = pos 20; validity_days = 30; is_active = true }

abbrev pub shop : Shop
shop = record {
  packages = twenty ∷ [];
  normal_prices = priced 31 ∷ [];
  promo_prices = record (priced 32) { scope_key = "DEFAULT"; total_price_idr = pos 1 } ∷ [];
  show = show;
  customer_type_id = 42;
  tax_bps = pos 0;
  new_package_id = 9;
  after_dash = λ s. some "6";
}

abbrev sale : PackageForSale
sale = record {
  id = 8;
  credits = pos 20;
  validity_days = 30;
  price = pos 100000;
  normal_price = pos 100000;
  is_promo = false;
  price_row_id = 31;
  price_table = package_normal;
}

is_priced : resolve_package shop 8 8 ≡ ok sale
unfolding resolve_package price_in scope_for_customer_type
is_priced = refl

abbrev bought : Placed
bought = record {
  order_id = 6;
  order_number = "EVM-6";
  db = record untouched {
    orders = with_amount due (package_order_of call shop 1 "p" sale (split_of 100000)) ∷ [];
    order_lines = package_line_of call sale (split_of 100000) ∷ [];
    claims = due.claims;
    payments =
        record {
          id = 70;
          order_id = 6;
          bank_account_id = 2;
          status = pending;
          expected_amount_idr = pos 100123;
        }
        ∷ [];
    events = record { payment_id = 70; to_status = pending; reason = "package order placed" } ∷ [];
    packages = pending_package call shop 1 sale ∷ [];
  };
}

is_bought : buy_package call shop 1 8 "p" untouched ≡ ok bought
unfolding buy_package existing order_package resolve_package price_in scope_for_customer_type
    split_inclusive insert_order open_payment claim_suffix claim_loop taken payment_amount ◌+ℤ◌ ◌-ℤ◌
    ◌*ℤ◌ ◌/ℤ◌ to_word of_word
is_bought = refl

is_none : existing 1 "p" [] ≡ none
unfolding existing
is_none = refl

buy_package_sells_example : IsBought call shop 1 8 100000 untouched bought.db
buy_package_sells_example =
    buy_package_sells call shop 1 8 "p" sale 100000 untouched bought draw-Draws is_priced refl
      (omega arith) is_none is_bought
