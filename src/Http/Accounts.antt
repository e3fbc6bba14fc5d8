-- ===== src/Http/Accounts.antt =====
-- The identity endpoints of internal/adapter/http/auth.go: `Login`, `Refresh`, `Logout`, `Register`,
-- `SignOutPage` and the cookies.
pub mod Answers
use Prim.Native.String.{String}
use Prim.Native.String.{◌++◌ as concat}
use evermore.Base.{
  ℕ, ◌*◌, Bool, true, false, List, [], ◌∷◌, Option, none, some, if◌then◌else◌, Result, ok, err,
}
use evermore.Text.{is_empty}
use evermore.Auth.Tables.{
  Db, Env, Principal, Tokens, AuthError, invalid_credentials, account_locked, account_inactive,
  email_taken, no_rows, hash_malformed, signing_failed, random_failed, invalid_email, invalid_name,
  invalid_phone, password_too_short, password_too_long, password_too_common, hashing_failed,
  retail_missing, customer_role_missing, unknown_allergen,
}
use evermore.Auth.Sessions as Sessions
use evermore.Auth.Sessions.{Client}
use evermore.Auth.Logins as Logins
use evermore.Auth.Registration as Registration
use evermore.Auth.Registration.{RegisterInput}
use evermore.Platform.Sanitize.{Unicode, fail}
use evermore.Platform.Sanitize.Coordinates.{Floats}
use evermore.Platform.Errors.{
  GoError, FieldError, driver, guarded, as_error, new_error, internal, validation, unauthenticated,
  forbidden, conflict, with_field, from_error,
}
use evermore.Http.Addresses.Forms.{AddressForm, RegisterRequestAddress, to_register_address}

-- A cookie of the answer; an age that is missing is -1, which deletes it. All are HttpOnly.
pub record Cookie : Type 0 where
  pub name : String
  pub value : String
  pub path : String
  pub max_age : Option ℕ
  pub secure : Bool
  pub strict : Bool

-- `AuthHandler`, without its service.
pub record Settings : Type 0 where
  pub secure : Bool
  pub access_seconds : ℕ

abbrev set_refresh_cookie : Settings → String → Cookie
set_refresh_cookie s token = record {
  name = "evermore_refresh";
  value = token;
  path = "/api/v1/auth";
  max_age = some (30 * 24 * 3600);
  secure = s.secure;
  strict = true;
}

abbrev set_session_cookie : Settings → String → Cookie
set_session_cookie s token = record {
  name = "evermore_session";
  value = token;
  path = "/";
  max_age = some s.access_seconds;
  secure = s.secure;
  strict = false;
}

abbrev expire_session_cookie : Bool → Cookie
expire_session_cookie secure = record {
  name = "evermore_session";
  value = "";
  path = "/";
  max_age = none;
  secure = secure;
  strict = false;
}

abbrev clear_refresh_cookie : Settings → Cookie
clear_refresh_cookie s = record {
  name = "evermore_refresh";
  value = "";
  path = "/api/v1/auth";
  max_age = none;
  secure = s.secure;
  strict = true;
}

-- The outcome of a request: an answer, or an error for `Fail`.
pub data Outcome : Type 0 where
  signed_in : Tokens → Principal → Outcome
  registered logged_out to_home : Outcome
  refused : GoError → Outcome

pub record Answer : Type 0 where
  pub outcome : Outcome
  pub cookies : List Cookie

abbrev pub refusal : GoError → Answer
refusal e = record { outcome = refused e; cookies = [] }

-- The HTTP status of an answer.
abbrev pub status : Outcome → ℕ
status (signed_in tokens p) = 200
status registered = 201
status logged_out = 200
status to_home = 303
status (refused e) = (from_error e).body.status

-- What the service's errors are to the adapter. The code of an input guard is not kept.
abbrev password_error : String → String → GoError
password_error code message =
    as_error
      (with_field (validation "") (record { field = "password"; code = code; message = message }))

abbrev error_of : AuthError → GoError
error_of invalid_email = guarded (fail "email" "INVALID")
error_of invalid_name = guarded (fail "full_name" "INVALID")
error_of invalid_phone = guarded (fail "phone" "INVALID")
error_of password_too_short = password_error "TOO_SHORT" "Kata sandi minimal 12 karakter."
error_of password_too_long = password_error "TOO_LONG" "Kata sandi maksimal 200 karakter."
error_of password_too_common = password_error "TOO_COMMON" "Kata sandi terlalu mudah ditebak."
error_of (unknown_allergen s) = as_error (validation (concat "Unknown allergen: " s))
error_of invalid_credentials = driver "INVALID_CREDENTIALS"
error_of account_locked = driver "ACCOUNT_LOCKED"
error_of account_inactive = driver "ACCOUNT_INACTIVE"
error_of email_taken = driver "EMAIL_ALREADY_REGISTERED"
error_of no_rows = driver "no rows"
error_of hash_malformed = driver "hash"
error_of signing_failed = driver "signing"
error_of random_failed = driver "random"
error_of hashing_failed = driver "hashing"
error_of retail_missing = driver "retail"
error_of customer_role_missing = driver "role"

abbrev pub login_error : AuthError → GoError
login_error invalid_credentials = as_error (unauthenticated "Email or password is incorrect.")
login_error account_locked =
    as_error (new_error 429 "ACCOUNT_LOCKED" "Terlalu banyak percobaan. Coba lagi dalam 15 menit.")
login_error account_inactive = as_error (forbidden "This account has been deactivated.")
login_error e = as_error (internal (error_of e))

abbrev register_error : AuthError → GoError
register_error email_taken =
    as_error (conflict "EMAIL_ALREADY_REGISTERED" "That email is already registered.")
register_error e = as_error (from_error (error_of e))

-- The cookies and the answer of a session that was issued.
abbrev pub issued : Settings → Tokens → Principal → Answer
issued s tokens p = record {
  outcome = signed_in tokens p;
  cookies =
      set_refresh_cookie s tokens.refresh_token ∷ set_session_cookie s tokens.access_token ∷ [];
}

pub record LoginRequest : Type 0 where
  pub email : String
  pub password : String

-- The body of a registration.
pub record RegisterRequest {ℓ} (F : Type ℓ) : Type ℓ where
  pub email : String
  pub password : String
  pub full_name : String
  pub phone : String
  pub address : Option (RegisterRequestAddress F)
  pub allergens : List String

module _ {ℓ} {Form : Type ℓ} where
  abbrev pub answer_login :
      Settings → Result AuthError (Tokens × Principal) × Db Form → Answer × Db Form
  answer_login s (ok (tokens, p), db) = (issued s tokens p, db)
  answer_login s (err e, db) = (refusal (login_error e), db)

  -- A body that is no JSON object of the fields is missing.
  unfoldable pub login : Settings → Env → Client → Option LoginRequest → Db Form → Answer × Db Form
  login s env client none db =
      (refusal (as_error (validation "Email and password are required.")), db)
  login s env client (some r) db = answer_login s (Logins.login env client r.email r.password db)

  abbrev answer_refresh :
      Settings → Result AuthError (Tokens × Principal) × Db Form → Answer × Db Form
  answer_refresh s (ok (tokens, p), db) = (issued s tokens p, db)
  answer_refresh s (err e, db) = (
    record {
      outcome =
          refused (as_error (unauthenticated "Your session is invalid. Please sign in again."));
      cookies = clear_refresh_cookie s ∷ [];
    },
    db,
  )

  -- The token of the cookie, or else of the body.
  unfoldable pub refresh : Settings → Env → Client → String → String → Db Form → Answer × Db Form
  refresh s env client cookie body db =
      let raw = if is_empty cookie then body else cookie in
      if is_empty raw
      then (refusal (as_error (unauthenticated "There is no session to refresh.")), db)
      else answer_refresh s (Sessions.refresh env client raw db)

  unfoldable pub logout : Settings → Env → String → Db Form → Answer × Db Form
  logout s env cookie db = (
    record {
      outcome = logged_out;
      cookies = clear_refresh_cookie s ∷ expire_session_cookie s.secure ∷ [];
    },
    if is_empty cookie then db else Sessions.logout env cookie db,
  )

unfoldable pub sign_out_page : Settings → Answer
sign_out_page s = record {
  outcome = to_home;
  cookies = expire_session_cookie s.secure ∷ clear_refresh_cookie s ∷ [];
}

module _ {ℓ} {F : Type ℓ} where
  abbrev input_of : RegisterRequest F → Option (AddressForm F) → RegisterInput (AddressForm F)
  input_of r address = record {
    email = r.email;
    password = r.password;
    full_name = r.full_name;
    phone = r.phone;
    address = address;
    allergens = r.allergens;
  }

  abbrev answer_register :
      Db (AddressForm F) → Result AuthError (ℕ × Db (AddressForm F)) → Answer × Db (AddressForm F)
  answer_register db (ok (id, db')) = (record { outcome = registered; cookies = [] }, db')
  answer_register db (err e) = (refusal (register_error e), db)

  -- The address of a request, when it has one.
  abbrev pub address_of :
      Unicode
      → Floats F
      → Option (RegisterRequestAddress F)
      → Result GoError (Option (AddressForm F))
  address_of u n none = ok none
  address_of u n (some a) = elim (to_register_address u n a) [
    | err e ↦ err (as_error (from_error e))
    | ok form ↦ ok (some form)
  ]

  unfoldable pub register :
      Unicode
      → Floats F
      → Env
      → Option (RegisterRequest F)
      → Db (AddressForm F)
      → Answer × Db (AddressForm F)
  register u n env none db = (refusal (as_error (validation "")), db)
  register u n env (some r) db = elim (address_of u n r.address) [
    | err e ↦ (refusal e, db)
    | ok address ↦ answer_register db (Registration.register env (input_of r address) db)
  ]
