-- ===== src/Http/Baskets.antt =====
-- A customer orders the cart of the browser with credits.
use evermore.Base.{true, false, some, none, [], ◌∷◌, List}
use evermore.Auth.Tables.{Principal}
use evermore.Ordering.Placements.{call, cut_off, owners}
use evermore.Ordering.CreditPlacements.{credit_call, funded, published}
use evermore.Ordering.Purchases.{shop}
use evermore.Http.Carts.{CartEntry}
use evermore.Http.Orders.{Service, OrderForm, place_order, Ordered, place_order-empties}
use evermore.Http.Examples.{unicode}

abbrev service : Service
service = record {
  published = published;
  cut_off = cut_off;
  addresses = owners;
  credit_call = credit_call;
  call = call;
  shop = shop;
  text_of = λ e. "ordering";
  to_string = λ t. "";
  is_uuid = λ k. true;
  new_key = "drawn";
  id_text = λ i. "6";
}

abbrev customer : Principal
customer = record {
  user_id = 1;
  email = "a@b.id";
  roles = "customer" ∷ [];
  permissions = [];
  customer_id = some 1;
  kitchen_id = none;
  is_staff = false;
}

abbrev form : OrderForm
form = record { address_id = some 4; courier_note = []; idempotency_key = "c" }

abbrev cart : List CartEntry
cart = record { meal_id = 3; qty = 2 } ∷ []

place_order-empties_example :
    Ordered unicode service
      (some customer)
      form
      cart
      funded
      (place_order unicode service (some customer) form cart funded)
place_order-empties_example = place_order-empties unicode service (some customer) form cart funded
