-- ===== src/Http/Accounts/Answers.antt =====
-- What the identity endpoints answer.
use evermore.Base.{◌≤◌, ◌≡◌, refl, [], Option, none, some, Result, ok, err, arith}
use evermore.Auth.Tables.{
  Db, Env, Principal, Tokens, AuthError, invalid_credentials, account_locked, account_inactive,
  email_taken, no_rows, hash_malformed, signing_failed, random_failed, invalid_email, invalid_name,
  invalid_phone, password_too_short, password_too_long, password_too_common, hashing_failed,
  retail_missing, customer_role_missing, unknown_allergen,
}
use evermore.Auth.Sessions.{Client}
use evermore.Auth.Logins as Logins
use evermore.Auth.Registration as Registration
use evermore.Auth.Registration.{required}
use evermore.Platform.Sanitize.{Unicode, FieldFailure}
use evermore.Platform.Sanitize.Coordinates.{Floats}
use evermore.Platform.Errors.{guarded, from_error, as_api}
use evermore.Http.Addresses.Forms.{RegisterRequestAddress, AddressForm, to_register_address}
use evermore.Http.Accounts.{
  Settings, refused, status, issued, LoginRequest, RegisterRequest, login, answer_login,
  login_error, register, address_of,
}

login_error_lem : (e : AuthError) → 400 ≤ status (refused (login_error e))
unfolding from_error as_api
login_error_lem invalid_credentials = omega arith
login_error_lem account_locked = omega arith
login_error_lem account_inactive = omega arith
login_error_lem invalid_email = omega arith
login_error_lem invalid_name = omega arith
login_error_lem invalid_phone = omega arith
login_error_lem password_too_short = omega arith
login_error_lem password_too_long = omega arith
login_error_lem password_too_common = omega arith
login_error_lem (unknown_allergen s) = omega arith
login_error_lem email_taken = omega arith
login_error_lem no_rows = omega arith
login_error_lem hash_malformed = omega arith
login_error_lem signing_failed = omega arith
login_error_lem random_failed = omega arith
login_error_lem hashing_failed = omega arith
login_error_lem retail_missing = omega arith
login_error_lem customer_role_missing = omega arith

answer_login_lem {ℓ} :
    {Form : Type ℓ} (s : Settings) (out : Result AuthError (Tokens × Principal) × Db Form)
    → ((answer_login s out).1 ≡ out.1)
      × ((tokens : Tokens) (p : Principal)
          → out.0 ≡ ok (tokens, p)
          → (answer_login s out).0 ≡ issued s tokens p)
      × ((e : AuthError)
          → out.0 ≡ err e
          → ((answer_login s out).0.cookies ≡ []) × (400 ≤ status (answer_login s out).0.outcome))
answer_login_lem s (ok (t, q), db') = (refl, (λ tokens p e. cc), λ e h. cc)
answer_login_lem s (err e, db') = (refl, (λ tokens p h. cc), λ x h. (refl, login_error_lem e))

-- A login that the service grants is answered with the service's two tokens as cookies; one that it
-- refuses sets no cookie and has an error's status; the tables are the service's in both cases.
login_lem {ℓ} :
    {Form : Type ℓ} (s : Settings) (env : Env) (client : Client) (r : LoginRequest) (db : Db Form)
    → ((login s env client (some r) db).1 ≡ (Logins.login env client r.email r.password db).1)
      × ((tokens : Tokens) (p : Principal)
          → (Logins.login env client r.email r.password db).0 ≡ ok (tokens, p)
          → (login s env client (some r) db).0 ≡ issued s tokens p)
      × ((e : AuthError)
          → (Logins.login env client r.email r.password db).0 ≡ err e
          → ((login s env client (some r) db).0.cookies ≡ [])
            × (400 ≤ status (login s env client (some r) db).0.outcome))
unfolding login
login_lem s env client r db = answer_login_lem s (Logins.login env client r.email r.password db)

-- A registration whose address an input guard refuses is answered with the status 500, and writes
-- nothing.
register-unaddressed {ℓ} :
    {F : Type ℓ} (u : Unicode) (n : Floats F) (env : Env) (r : RegisterRequest F)
    (db : Db (AddressForm F)) (a : RegisterRequestAddress F) (f : FieldFailure)
    → r.address ≡ some a
    → to_register_address u n a ≡ err (guarded f)
    → (status (register u n env (some r) db).0.outcome ≡ 500)
      × ((register u n env (some r) db).1 ≡ db)
unfolding register from_error as_api
register-unaddressed u n env r db a f e h = ground (arith, e, h)

-- A registration whose email an input guard refuses, with an address that is accepted or none, is
-- answered with the status 500, and writes nothing.
pub register-guarded {ℓ} :
    {F : Type ℓ} (u : Unicode) (n : Floats F) (env : Env) (r : RegisterRequest F)
    (db : Db (AddressForm F)) (form : Option (AddressForm F))
    → address_of u n r.address ≡ ok form
    → env.clean_email r.email ≡ none
    → (status (register u n env (some r) db).0.outcome ≡ 500)
      × ((register u n env (some r) db).1 ≡ db)
unfolding register from_error as_api Registration.register
register-guarded u n env r db form e h = ground (arith, e, h)
