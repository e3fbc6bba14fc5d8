-- ===== src/Http/Orders.antt =====
-- The handlers that place an order and buy a package, and what they answer on an error:
-- `PlaceOrder`, `BuyPackage`, `quoteMessage` and `checkoutError` of internal/adapter/http/app.go.
use Prim.Native.String.{String}
use Prim.Native.String.{◌++◌ as concat}
use evermore.Base.{
  subst, ◌⊎◌, ℕ, ◌≡◌, refl, Bool, true, false, List, [], ◌∷◌, map, Option, none, some,
  if◌then◌else◌, Result, ok, err, Result-cases, inl, inr, Option-cases,
}
use evermore.Int64.{pos}
use evermore.Credit.{package_expired}
use evermore.Routing.{not_serviceable}
use evermore.Pricing.{price_not_configured}
use evermore.Auth.Tables.{Principal}
use evermore.Ordering.Spending as Spending
use evermore.Ordering.Spending.{no_credits}
use evermore.Ordering.Reservation.{of_routing, capacity_full}
use evermore.Ordering.Quotes.{
  CartItem, QuoteError, of_pricing, meal_not_published, qty_out_of_range,
}
use evermore.Ordering.Orders.{
  Call, CutOff, Db, Placed, OrderingError, of_quote, of_reserve, of_spend, past_cut_off,
  address_not_found, package_not_for_sale, no_package_price,
}
use evermore.Ordering.Checkout.{CheckoutInput}
use evermore.Ordering.CreditCheckout.{CreditCall, MealRow, checkout_with_credits}
use evermore.Ordering.Packages.{Shop, buy_package}
use evermore.Platform.Sanitize.{Text, Unicode, FieldFailure, text}
use evermore.Platform.Errors.{
  GoError, as_error, validation, unauthenticated, not_found, conflict, guarded, from_error, driver,
}
use evermore.Http.Sessions.{Reply, to_page, failed, customer_id_of, require_customer}
use evermore.Http.Carts.{CartEntry}

-- `checkoutError`: the answer of an error of the ordering service; `text_of` is the text of one.
unfoldable pub checkout_error : (OrderingError → String) → OrderingError → GoError
checkout_error text_of (of_spend (no_credits have need)) = as_error (
    conflict "INSUFFICIENT_CREDIT"
      "You do not have enough credits for this order. Buy a package to top up.")
checkout_error text_of (of_spend (Spending.refused package_expired)) =
    as_error (conflict "INSUFFICIENT_CREDIT" "Your credits expire before that delivery date.")
checkout_error text_of (past_cut_off date) =
    as_error (conflict "PAST_CUTOFF" "The cut-off for one of those dates has passed.")
checkout_error text_of (of_reserve capacity_full) =
    as_error (conflict "CAPACITY_FULL" "That date and time slot is full.")
checkout_error text_of address_not_found = as_error (not_found "Address not found.")
checkout_error text_of package_not_for_sale =
    as_error (conflict "MENU_NOT_PUBLISHED" "That package is no longer for sale.")
checkout_error text_of no_package_price = as_error (
    conflict "MENU_NOT_PUBLISHED"
      "Package pricing is not available for your account yet. Message us on WhatsApp.")
checkout_error text_of (of_quote meal_not_published) =
    as_error (conflict "MENU_NOT_PUBLISHED" "That menu is not published, or has been withdrawn.")
checkout_error text_of (of_reserve (of_routing not_serviceable)) =
    as_error (conflict "ADDRESS_NOT_SERVICEABLE" "This address is outside our delivery area.")
checkout_error text_of (of_quote (of_pricing price_not_configured)) =
    as_error (conflict "PRICE_NOT_CONFIGURED" "Harga belum diatur untuk menu ini.")
checkout_error text_of e = as_error (from_error (driver (text_of e)))

unfoldable quote_message : QuoteError → String
quote_message meal_not_published =
    "Salah satu menu di keranjang sudah tidak tersedia. Hapus lalu pilih lagi."
quote_message (of_pricing price_not_configured) =
    "Harga untuk menu ini belum diatur. Tim kami sudah diberi tahu."
quote_message qty_out_of_range = "Jumlah porsi di luar batas yang diizinkan."
quote_message e = "Keranjang tidak bisa dihitung sekarang. Coba lagi sebentar."

-- `items`
abbrev pub items : List CartEntry → List CartItem
items = map (λ e. record { scheduled_meal_id = e.meal_id; qty = pos e.qty })

-- What the handlers are given beside the form: the ordering service with what it reads, the texts of
-- its errors, and the key that is drawn when a form has none that is a UUID.
pub record Service : Type 0 where
  pub published : ℕ → Option MealRow
  pub cut_off : CutOff
  pub addresses : List (ℕ × ℕ)
  pub credit_call : CreditCall
  pub call : Call
  pub shop : Shop
  pub text_of : OrderingError → String
  pub to_string : Text → String
  pub is_uuid : String → Bool
  pub new_key : String
  pub id_text : ℕ → String

pub record OrderForm : Type 0 where
  pub address_id : Option ℕ
  pub courier_note : Text
  pub idempotency_key : String

abbrev pub key_of : Service → String → String
key_of s key = if s.is_uuid key then key else s.new_key

-- The reply, whether the cart's cookie is emptied, and the tables.
abbrev pub Outcome : Type 0
Outcome = Reply × Bool × Db

abbrev answer_order : Service → Result OrderingError Placed → Db → Outcome
answer_order s (err e) db = (failed (checkout_error s.text_of e), false, db)
answer_order s (ok placed) db = (to_page "/app/orders", true, placed.db)

abbrev order_input : Service → ℕ → ℕ → Text → String → List CartItem → CheckoutInput
order_input s c a note key cart = record {
  customer_id = c;
  address_id = a;
  items = cart;
  courier_note = s.to_string note;
  idempotency_key = key_of s key;
}

abbrev order_cart : Service → ℕ → ℕ → Text → String → List CartItem → Db → Outcome
order_cart s c a note key [] db = (to_page "/app/cart", false, db)
order_cart s c a note key (i ∷ is) db =
    answer_order s
      (checkout_with_credits s.published s.cut_off s.addresses s.credit_call
        (order_input s c a note key (i ∷ is)) db)
      db

unfoldable pub place_order :
    Unicode → Service → Option Principal → OrderForm → List CartEntry → Db → Outcome
place_order u s p f cart db = elim (customer_id_of p) [
  | none ↦ (failed (as_error (unauthenticated "")), false, db)
  | some c ↦ elim f.address_id [
    | none ↦ (failed (as_error (validation "Choose a delivery address.")), false, db)
    | some a ↦ elim (text u "courier_note" f.courier_note 0 240) [
      | err e ↦ (failed (as_error (from_error (guarded e))), false, db)
      | ok note ↦ order_cart s c a note f.idempotency_key (items cart) db
    ]
  ]
]

abbrev answer_package : Service → Result OrderingError Placed → Db → Reply × Db
answer_package s (err e) db = (failed (checkout_error s.text_of e), db)
answer_package s (ok placed) db =
    (to_page (concat "/app/payment/" (s.id_text placed.order_id)), placed.db)

unfoldable pub buy : Service → Option Principal → Option ℕ → String → Db → Reply × Db
buy s p package_id key db = elim (require_customer p "/packages") [
  | err reply ↦ (reply, db)
  | ok c ↦ elim package_id [
    | none ↦ (failed (as_error (validation "Unknown package.")), db)
    | some id ↦ answer_package s (buy_package s.call s.shop c id (key_of s key) db) db
  ]
]

-- The input of the checkout is what was asked for: for the customer of the session, the address and
-- the note of the form and the lines of the cart, under the key of the form, or a drawn one.
abbrev pub Asks :
    Unicode → Service → Option Principal → OrderForm → List CartEntry → CheckoutInput → Type 0
Asks u s p f cart i =
    (note : Text) × (customer_id_of p ≡ some i.customer_id)
    × (f.address_id ≡ some i.address_id)
    × (text u "courier_note" f.courier_note 0 240 ≡ ok note)
    × (i.courier_note ≡ s.to_string note)
    × (i.items ≡ map (λ e. record { scheduled_meal_id = e.meal_id; qty = pos e.qty }) cart)
    × (i.idempotency_key ≡ (if s.is_uuid f.idempotency_key then f.idempotency_key else s.new_key))

-- Why an order cannot be placed: no customer, no address, a note that is refused, an empty cart, or a
-- checkout that fails.
abbrev pub Unplaceable :
    Unicode → Service → Option Principal → OrderForm → List CartEntry → Db → Type 0
Unplaceable u s p f cart db =
    (customer_id_of p ≡ none)
    ⊎ (f.address_id ≡ none)
    ⊎ ((x : FieldFailure) × (text u "courier_note" f.courier_note 0 240 ≡ err x))
    ⊎ (cart ≡ [])
    ⊎ ((i : CheckoutInput) × (e : OrderingError) × Asks u s p f cart i
        × (checkout_with_credits s.published s.cut_off s.addresses s.credit_call i db ≡ err e))

-- What a request leaves: the cart emptied and the checkout's tables, or the cart and the tables as
-- they were, with the reason.
abbrev pub Ordered :
    Unicode → Service → Option Principal → OrderForm → List CartEntry → Db → Outcome → Type 0
Ordered u s p f cart db r =
    ((r.1 ≡ true)
      × ((i : CheckoutInput) × (placed : Placed) × Asks u s p f cart i
          × (checkout_with_credits s.published s.cut_off s.addresses s.credit_call i db ≡ ok placed)
          × (r.2 ≡ placed.db)))
    ⊎ ((r.1 ≡ false) × (r.2 ≡ db) × Unplaceable u s p f cart db)

order_cart-Ordered :
    (u : Unicode) (s : Service) (p : Option Principal) (f : OrderForm) (c a : ℕ) (note : Text)
    (cart : List CartEntry) (db : Db)
    → customer_id_of p ≡ some c
    → f.address_id ≡ some a
    → text u "courier_note" f.courier_note 0 240 ≡ ok note
    → Ordered u s p f cart db (order_cart s c a note f.idempotency_key (items cart) db)
order_cart-Ordered u s p f c a note [] db e g t = inr (refl, refl, inr (inr (inr (inl refl))))
order_cart-Ordered u s p f c a note (l ∷ ls) db e g t =
    let i = order_input s c a note f.idempotency_key (items (l ∷ ls)) in
    let asked : Asks u s p f (l ∷ ls) i = (note, e, g, t, refl, refl, refl) in
    elim (Result-cases
      (checkout_with_credits s.published s.cut_off s.addresses s.credit_call i db)) [
        | inl (placed, done) ↦ rw (answer_order, done) (inl (refl, (i, placed, asked, done, refl)))
        | inr (x, failed_so) ↦
            rw (answer_order, failed_so)
              (inr (refl, refl, inr (inr (inr (inr (i, x, asked, failed_so))))))
      ]

-- Either the cart is emptied, and its order was placed, for the customer of the session, with the
-- address and the note of the form and the lines of the cart; or the cart is kept and nothing was
-- written, because there is no customer, no address or no line, the note is refused, or the checkout
-- of this order fails.
pub place_order-empties :
    (u : Unicode) (s : Service) (p : Option Principal) (f : OrderForm) (cart : List CartEntry)
    (db : Db)
    → Ordered u s p f cart db (place_order u s p f cart db)
unfolding place_order
place_order-empties u s p f cart db = elim (Option-cases (customer_id_of p)) [
  | inl e ↦ rw (place_order, e) (inr (refl, refl, inl refl))
  | inr (c, e) ↦ elim (Option-cases f.address_id) [
    | inl g ↦ rw (place_order, e, g) (inr (refl, refl, inr (inl refl)))
    | inr (a, g) ↦ elim (Result-cases (text u "courier_note" f.courier_note 0 240)) [
      | inr (x, t) ↦ rw (place_order, e, g, t) (inr (refl, refl, inr (inr (inl (x, refl)))))
      | inl (note, t) ↦
          let same : order_cart s c a note f.idempotency_key (items cart) db
              ≡ place_order u s p f cart db =
            rw (place_order, e, g, t) refl in
          subst (Ordered u s p f cart db) same (order_cart-Ordered u s p f c a note cart db e g t)
    ]
  ]
]
