-- ===== src/Auth/Registration.antt =====
-- `Register` and `knownAllergens` of internal/app/auth/auth.go.
pub mod Accounts
use Prim.Native.String.{String}
use evermore.Base.{
  ℕ, ltb, ◌==◌, Bool, true, false, not, ◌&&◌, List, [], ◌∷◌, ◌++◌, Option, none, some,
  if◌then◌else◌, tally, Result, ok, err, refuse, ◌>>=◌, ◌>>◌, first,
}
use evermore.Int64.{pos}
use evermore.Text.{text_eq}
use evermore.Auth.Tables.{
  User, CustomerType, Role, Customer, Db, Env, AuthError, email_taken, invalid_email, invalid_name,
  invalid_phone, hashing_failed, retail_missing, customer_role_missing, unknown_allergen,
}
use evermore.Auth.Principals.{member}
use evermore.Auth.Passwords.{validate_password}

pub record RegisterInput {ℓ} (Form : Type ℓ) : Type ℓ where
  pub email : String
  pub password : String
  pub full_name : String
  pub phone : String
  pub address : Option Form
  pub allergens : List String

-- The loop, with the slugs seen so far.
unfoldable pub keep_known : List String → List String → List String → Result AuthError (List String)
keep_known known seen [] = ok []
keep_known known seen (s ∷ ss) =
    let again = keep_known known seen ss in
    let fresh = keep_known known (s ∷ seen) ss in
    if not (member s known)
    then err (unknown_allergen s)
    else if member s seen
    then again
    else fresh >>= λ out. ok (s ∷ out)

unfoldable pub known_allergens : List String → List String → Result AuthError (List String)
known_allergens known [] = ok []
known_allergens known (s ∷ ss) = keep_known known [] (s ∷ ss)

-- A missing value is an error.
abbrev pub required {ℓ} : {A : Type ℓ} → Option A → AuthError → Result AuthError A
required none e = err e
required (some a) e = ok a

abbrev pub user_of : Env → String → String → String → User
user_of env email hash phone = record {
  id = env.new_id;
  email = email;
  password_hash = hash;
  phone = phone;
  is_active = true;
  failed_login_count = pos 0;
  locked_until = none;
  last_login_at = none;
}

abbrev pub customer_of : Env → ℕ → String → List String → Customer
customer_of env retail name allergens = record {
  id = env.new_customer_id;
  user_id = env.new_id;
  customer_type_id = retail;
  full_name = name;
  allergen_profile = allergens;
}

-- The first address is the default one.
abbrev pub with_address {ℓ} : {Form : Type ℓ} → Env → Option Form → Db Form → Db Form
with_address env none db = db
with_address env (some form) db = record db {
  addresses =
      db.addresses
      ++ record {
        id = env.new_address_id;
        customer_id = env.new_customer_id;
        form = form;
        is_default = true;
        is_active = true;
      }
        ∷ [];
}

-- The transaction.
unfoldable pub create_account {ℓ} :
    {Form : Type ℓ}
    → Env
    → RegisterInput Form
    → String
    → String
    → String
    → String
    → Db Form
    → Result AuthError (Db Form)
create_account env i email name phone hash db = do
  refuse (ltb 0 (tally (λ u. env.same_email u.email email) db.users)) email_taken
  retail ←
      required (first (λ c. text_eq c.slug "retail" && c.is_active) db.customer_types)
        retail_missing
  allergens ← known_allergens db.allergens i.allergens
  role ← required (first (λ r. text_eq r.slug "customer") db.roles) customer_role_missing
  ok (record (with_address env i.address db) {
    users = db.users ++ user_of env email hash phone ∷ [];
    customers = db.customers ++ customer_of env retail.id name allergens ∷ [];
    user_roles = db.user_roles ++ record { user_id = env.new_id; role_id = role.id } ∷ [];
  })

unfoldable pub register {ℓ} :
    {Form : Type ℓ} → Env → RegisterInput Form → Db Form → Result AuthError (ℕ × Db Form)
register env i db = do
  email ← required (env.clean_email i.email) invalid_email
  name ← required (env.clean_name i.full_name) invalid_name
  phone ← required (env.clean_phone i.phone) invalid_phone
  validate_password env.to_lower (env.runes i.password)
  hash ← required (env.hash_password i.password) hashing_failed
  db' ← create_account env i email name phone hash db
  ok (env.new_id, db')
