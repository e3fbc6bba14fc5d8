-- ===== src/Auth/Examples.antt =====
-- A customer registers, signs in, refreshes the session, and an intruder guesses passwords.
use Prim.Native.String.{String}
use evermore.Base.{
  ℕ, ◌≡◌, ◌+◌, ◌*◌, refl, sym, ap, ◌∙◌, inl, inr, Bool-cases, arith, ◌↔◌, true, false, List, [],
  ◌∷◌, none, some, ok, err, replicate, Any,
}
use evermore.Int64.{pos}
use evermore.Text.{text_eq, text_eq_iff}
use evermore.Auth.Tables.{
  Env, Db, User, Principal, Tokens, RefreshToken, rotated, minute, invalid_credentials,
  account_locked,
}
use evermore.Auth.Principals.{
  can, roles_of, slugs, any_staff, codes_with, codes_of_role, codes_of, load_principal,
}
use evermore.Auth.Principals.Permissions.{Holds, can_iff_granted}
use evermore.Auth.Sessions.{Client, revoke, trunc, token_of, issue, rotate, read_token, refresh}
use evermore.Auth.Sessions.Rotation.{rotated_once}
use evermore.Auth.Sessions.Reuse.{AllRevoked, others, reuse_ends_sessions}
use evermore.Auth.Logins.Lockout.{Attempt, attempt, attempts, eight_lock}
use evermore.Auth.History.{Operation, logs_out_everywhere, run}
use evermore.Auth.History.Replays.{used_once}
use evermore.Auth.Passwords.{validate_password}
use evermore.Auth.Registration.{
  RegisterInput, keep_known, known_allergens, create_account, register,
}
use evermore.Auth.Registration.Accounts.{Created, IsEquality, UniqueEmails, register_makes_account}

abbrev long : List ℕ
long = replicate 12 b'x'

abbrev env : ℕ → String → Env
env n token = record {
  refresh_ttl = 1000;
  same_email = λ a b. text_eq a b;
  clean_email = λ e. some e;
  clean_name = λ e. some e;
  clean_phone = λ e. some e;
  verify_password = λ p h. some (text_eq p h);
  hash_password = λ p. some p;
  needs_rehash = λ h. false;
  hash_token = λ t. t;
  sign = λ p t. some "signed";
  runes = λ p. long;
  to_lower = λ p. p;
  now = n;
  new_id = n;
  new_customer_id = n;
  new_address_id = n;
  new_token = some token;
}

abbrev client : Client
client = record { user_agent = b'c' ∷ []; ip = "10.0.0.1" }

abbrev user : User
user = record {
  id = 1;
  email = "a@b.id";
  password_hash = "right";
  phone = "+62812";
  is_active = true;
  failed_login_count = pos 0;
  locked_until = none;
  last_login_at = none;
}

abbrev database : List RefreshToken → Db ℕ
database tokens = record {
  users = user ∷ [];
  tokens = tokens;
  roles = record { id = 3; slug = "customer"; is_staff = false } ∷ [];
  user_roles = record { user_id = 1; role_id = 3 } ∷ [];
  role_permissions = record { role_id = 3; permission_id = 4 } ∷ [];
  permissions = record { id = 4; code = "order.create" } ∷ [];
  customer_types = record { id = 9; slug = "retail"; is_active = true } ∷ [];
  customers = [];
  staff = [];
  addresses = [];
  allergens = "nuts" ∷ "milk" ∷ [];
}

abbrev principal : Principal
principal = record {
  user_id = 1;
  email = "a@b.id";
  roles = "customer" ∷ [];
  permissions = "order.create" ∷ [];
  customer_id = none;
  kitchen_id = none;
  is_staff = false;
}

is_loaded : load_principal 1 (database []) ≡ ok principal
unfolding load_principal roles_of slugs any_staff codes_with codes_of_role codes_of
is_loaded = refl

can_iff_granted_example :
    (can (some principal) "order.create" ≡ true)
    ↔ Any
        (Holds 1 "order.create" (database []).role_permissions (database []).permissions)
        (database []).user_roles
can_iff_granted_example = can_iff_granted 1 "order.create" (database []) principal is_loaded

abbrev first_token : RefreshToken
first_token = record {
  id = 50;
  user_id = 1;
  token_hash = "first";
  issued_at = 50;
  expires_at = 1050;
  revoked_at = none;
  revoked_reason = none;
  user_agent = b'c' ∷ [];
  ip_address = some "10.0.0.1";
}

abbrev tokens : String → ℕ → Tokens
tokens token at = record { access_token = "signed"; refresh_token = token; expires_at = at }

abbrev intruded : Db ℕ
intruded =
    database (revoke 60 rotated first_token ∷ token_of (env 60 "second") client 1 "second" ∷ [])

is_rotated :
    rotate (env 60 "second") client principal 50 (database (first_token ∷ []))
    ≡ ok (tokens "second" (60 + 15 * minute), intruded)
unfolding rotate issue trunc
is_rotated = refl

rotated_once_example :
    rotate (env 61 "third") client principal 50 intruded ≡ err invalid_credentials
rotated_once_example =
    rotated_once (env 60 "second") (env 61 "third") client client principal principal 50
      (database (first_token ∷ [])) intruded (tokens "second" (60 + 15 * minute)) (omega arith)
      is_rotated

is_refreshed :
    refresh (env 60 "second") client "first" (database (first_token ∷ []))
    ≡ (ok (tokens "second" (60 + 15 * minute), principal), intruded)
unfolding refresh read_token rotate issue trunc load_principal roles_of slugs any_staff codes_with
    codes_of_role codes_of
is_refreshed = refl

abbrev everywhere : List Operation
everywhere = logs_out_everywhere (env 70 "other") 1 ∷ []

used_once_example :
    (refresh
      (env 80 "third")
      client
      "first"
      (run everywhere (refresh (env 60 "second") client "first" (database (first_token ∷ []))).1)).0
    ≡ err invalid_credentials
used_once_example =
    used_once (env 60 "second") (env 80 "third") client client "first" (database (first_token ∷ []))
      (tokens "second" (60 + 15 * minute), principal) everywhere (ap (λ x. x.0) is_refreshed) refl

reuse_ends_sessions_example :
    ((refresh (env 80 "third") client "first" intruded).0 ≡ err invalid_credentials)
    × AllRevoked 1 (refresh (env 80 "third") client "first" intruded).1.tokens
    × (others 1 (refresh (env 80 "third") client "first" intruded).1.tokens
        ≡ others 1 intruded.tokens)
reuse_ends_sessions_example =
    reuse_ends_sessions (env 80 "third") client "first" (revoke 60 rotated first_token) intruded
      refl refl

abbrev guess : ℕ → Attempt
guess n = record { env = env n "x"; client = client; email = "a@b.id"; password = "wrong" }

abbrev honest : Attempt
honest = record { env = env 108 "x"; client = client; email = "a@b.id"; password = "right" }

abbrev seven : List Attempt
seven = guess 100 ∷ guess 101 ∷ guess 102 ∷ guess 103 ∷ guess 104 ∷ guess 105 ∷ guess 106 ∷ []

eight_lock_example :
    attempt honest (attempt (guess 107) (attempts seven (database []))).1
    ≡ (err account_locked, (attempt (guess 107) (attempts seven (database []))).1)
eight_lock_example =
    eight_lock (λ a b. text_eq a b) "a@b.id" "right" seven (guess 107) honest (database [])
      (user, refl, refl, refl, refl) refl
      (
        (refl, refl, refl),
        (
          (refl, refl, refl),
          (
            (refl, refl, refl),
            (
              (refl, refl, refl),
              ((refl, refl, refl), ((refl, refl, refl), ((refl, refl, refl), tt))),
            ),
          ),
        ),
      )
      (refl, refl, refl) refl refl (omega arith)

keeps_one : known_allergens ("nuts" ∷ "milk" ∷ []) ("milk" ∷ "milk" ∷ []) ≡ ok ("milk" ∷ [])
unfolding known_allergens keep_known
keeps_one = refl

abbrev input : RegisterInput ℕ
input = record {
  email = "c@d.id";
  password = "a long enough password";
  full_name = "Citra";
  phone = "+62813";
  address = some 7;
  allergens = "milk" ∷ [];
}

abbrev registered : Db ℕ
registered = record (database []) {
  users =
      user
      ∷ record {
        id = 2;
        email = "c@d.id";
        password_hash = "a long enough password";
        phone = "+62813";
        is_active = true;
        failed_login_count = pos 0;
        locked_until = none;
        last_login_at = none;
      }
      ∷ [];
  customers =
      record {
        id = 2;
        user_id = 2;
        customer_type_id = 9;
        full_name = "Citra";
        allergen_profile = "milk" ∷ [];
      }
      ∷ [];
  user_roles = record { user_id = 1; role_id = 3 } ∷ record { user_id = 2; role_id = 3 } ∷ [];
  addresses =
      record { id = 2; customer_id = 2; form = 7; is_default = true; is_active = true } ∷ [];
}

is_registered : register (env 2 "x") input (database []) ≡ ok (2, registered)
unfolding register validate_password create_account known_allergens keep_known
is_registered = refl

text_eq-IsEquality : IsEquality (λ a b. text_eq a b)
text_eq-IsEquality = (
  λ a. (text_eq_iff a a).1 refl,
  λ a b h. (text_eq_iff b a).1 (sym ((text_eq_iff a b).0 h)),
  λ a b c h k. (text_eq_iff a c).1 ((text_eq_iff a b).0 h ∙ (text_eq_iff b c).0 k),
)

one_user : UniqueEmails (λ a b. text_eq a b) (user ∷ [])
one_user email = elim (Bool-cases (text_eq "a@b.id" email)) [
  | inl e ↦ ground (arith, e)
  | inr e ↦ ground (arith, e)
]

register_makes_account_example :
    (email : String) × (some "c@d.id" ≡ some email)
    × UniqueEmails (λ a b. text_eq a b) registered.users
    × (validate_password (λ p. p) long ≡ ok tt)
    × (◌≡◌ {A = ℕ} 2 2)
    × Created (env 2 "x") input email (database []) registered
register_makes_account_example =
    register_makes_account (env 2 "x") input 2 (database []) registered text_eq-IsEquality one_user
      is_registered
