-- ===== src/Http/Examples.antt =====
-- The address screens, the limiter, the guards and the cart on a small shop.
use Prim.Native.String.{String}
use evermore.Base.{
  ◌⊎◌, ℕ, zero, suc, ◌+◌, ◌≤◌, ◌≡◌, refl, ap, Bool, true, false, ltb, leb, ◌==◌, List, [], ◌∷◌,
  none, some, length, All, keep, if◌then◌else◌, ok, err, arith, replicate,
}
use evermore.Auth.Tables.{Principal}
use evermore.Text.{text_eq}
use evermore.Platform.Sanitize.{Text, Unicode, has_rune}
use evermore.Platform.Sanitize.Coordinates.{Floats}
use evermore.Platform.Errors.{driver}
use evermore.Http.Sessions.{Reply, require_customer}
use evermore.Http.Addresses.{AddressFields, AddressRow, set_default_address}
use evermore.Http.Addresses.Forms.{Posted}
use evermore.Http.Addresses.Handlers.{
  Request as Asked, add, edit, make_default, remove, Call, handle, handle_all,
}
use evermore.Http.Addresses.Book.{foreign, Book}
use evermore.Http.Addresses.Book.Switching.{set_default-refused}
use evermore.Http.Addresses.Book.Requests.{handle_all-Book, handle-own}
use evermore.Http.Limits.{Limiter, rl_login, find, allow}
use evermore.Http.Limits.Windows.{Single, alive, seen, counted, granted, allow-refines}
use evermore.Http.Limits.Bounds.{Request, passed, passed_bound}
use evermore.Http.Carts.{CartEntry, Uuids, read_cart, write_cart}
use evermore.Http.Carts.Cookie.{UuidLaws, read_cart-write_cart}

abbrev pub floats : Floats ℕ
floats = record {
  parse_float = λ t. some (length t);
  less = λ x y. ltb x y;
  at_most = λ x y. leb x y;
  decimal = λ below x. if below then 0 else x;
}

abbrev pub unicode : Unicode
unicode = record {
  nfc = λ t. t;
  is_control = λ r. ltb r 32;
  is_space = λ r. r == 32;
  to_lower = λ t. t;
  parse_address = λ t. none;
}

abbrev posted : Posted
posted = record {
  label = replicate 4 b'a';
  recipient_name = replicate 4 b'b';
  recipient_phone = replicate 10 b'8';
  address_line = replicate 12 b'c';
  district = replicate 5 b'd';
  city = replicate 5 b'e';
  province = replicate 5 b'f';
  postal_code = replicate 5 b'1';
  driver_note = [];
  formatted_address = [];
  google_place_id = [];
  latitude = b'1' ∷ [];
  longitude = replicate 100 b'1';
  is_default = b'1' ∷ [];
}

abbrev customer : Principal
customer = record {
  user_id = 1;
  email = "a@b.id";
  roles = "customer" ∷ [];
  permissions = [];
  customer_id = some 7;
  kitchen_id = none;
  is_staff = false;
}

abbrev call : ℕ → Call
call id = record { principal = some customer; new_id = id; now = id }

abbrev fields : AddressFields ℕ
fields = record {
  label = [];
  recipient = [];
  phone = [];
  line = [];
  district = [];
  city = [];
  province = [];
  postal = [];
  note = [];
  lat = 1;
  lng = 100;
  place_id = none;
  formatted = none;
}

abbrev row : ℕ → ℕ → Bool → AddressRow ℕ
row id c main = record {
  id = id;
  customer_id = c;
  fields = fields;
  is_default = main;
  is_active = true;
  created_at = id;
}

-- Two addresses of customer 7, and one of customer 8.
abbrev book : List (AddressRow ℕ)
book = row 1 7 true ∷ row 2 7 false ∷ row 3 8 true ∷ []

book-Book : Book book
book-Book = ((λ i. ground arith), λ c. ground arith)

abbrev requests : List (Call × Asked)
requests =
    (call 4, add posted)
    ∷ (call 5, make_default (some 2))
    ∷ (call 6, edit (some 1) posted)
    ∷ (call 7, remove (some 1))
    ∷ []

handle_all-Book_example : Book (handle_all unicode floats requests book)
handle_all-Book_example = handle_all-Book unicode floats requests book book-Book

handle-own_example :
    ((c : ℕ) × (require_customer (some customer) "/app/addresses" ≡ ok c)
      × (keep (foreign c) (handle unicode floats (call 4) (remove (some 1)) book).1
          ≡ keep (foreign c) book))
    ⊎ ((reply : Reply) × (require_customer (some customer) "/app/addresses" ≡ err reply)
        × (handle unicode floats (call 4) (remove (some 1)) book ≡ (reply, book)))
handle-own_example = handle-own unicode floats (call 4) (remove (some 1)) book book-Book

set_default-refused_example :
    set_default_address 7 2 book ≡ err (driver "customer_address_one_default_uk")
set_default-refused_example = set_default-refused 7 2 book refl (omega arith) refl

all_replicate {ℓ} : {A : Type ℓ} (P : A → Type 0) (a : A) (n : ℕ) → P a → All P (replicate n a)
all_replicate P a zero p = tt
all_replicate P a (suc n) p = (p, all_replicate P a n p)

-- A client signs in again and again while another one signs in once.
abbrev sign_in : String → ℕ → Request
sign_in key now = record { key = key; limit = rl_login; now = now }

abbrev sign_ins : List Request
sign_ins = sign_in "login|10.0.0.2" 25 ∷ replicate 12 (sign_in "login|10.0.0.1" 30)

passed_bound_example : passed "login|10.0.0.1" [] (sign_in "login|10.0.0.1" 20 ∷ sign_ins) ≤ 10
unfolding find
passed_bound_example = passed_bound "login|10.0.0.1" rl_login 20 [] sign_ins tt refl (
  (omega arith, λ h. refl),
  all_replicate
      (λ r.
        (r.now ≤ 20 + rl_login.window)
        × (text_eq r.key "login|10.0.0.1" ≡ true → r.limit ≡ rl_login))
      (sign_in "login|10.0.0.1" 30) 12 (omega arith, λ h. refl),
)

-- The limiter after one request.
abbrev limiter : Limiter
limiter = record { key = "login|10.0.0.1"; window = record { count = 1; reset = 50 } } ∷ []

allow-refines_example :
    ((allow "login|10.0.0.1" rl_login 40 limiter).0
      ≡ granted rl_login 40 (seen 40 "login|10.0.0.1" limiter))
    × Single (allow "login|10.0.0.1" rl_login 40 limiter).1
    × ((l : String)
        → seen 45 l (allow "login|10.0.0.1" rl_login 40 limiter).1 ≡ (
            if text_eq "login|10.0.0.1" l
            then alive 45 (some (counted rl_login 40 (seen 40 "login|10.0.0.1" limiter)))
            else seen 45 l limiter))
unfolding find
allow-refines_example =
    allow-refines "login|10.0.0.1" rl_login 40 45 limiter (refl, tt) (omega arith)

-- A text of an identifier has as many letters as the identifier says.
abbrev uuids : Uuids
uuids = record { parse = λ t. some (length t); show = λ i. replicate i b'a' }

lacks : (r i : ℕ) → (b'a' == r) ≡ false → has_rune r (replicate i b'a') ≡ false
lacks r zero h = refl
lacks r (suc i) h = ground (arith, h, lacks r i h)

abbrev letters : ℕ → Text
letters i = replicate i b'a'

long : (i : ℕ) → length (letters i) ≡ i
long zero = refl
long (suc i) = ap suc (long i)

laws : UuidLaws uuids
laws = record {
  parse-show = λ i. ap some (long i);
  no_comma = λ i. lacks b',' i refl;
  no_colon = λ i. lacks b':' i refl;
}

abbrev basket : List CartEntry
basket = record { meal_id = 3; qty = 12 } ∷ record { meal_id = 5; qty = 999 } ∷ []

read_cart-write_cart_example : read_cart uuids (write_cart uuids basket) ≡ basket
read_cart-write_cart_example =
    read_cart-write_cart uuids laws basket
      ((omega arith, omega arith), ((omega arith, omega arith), tt))
