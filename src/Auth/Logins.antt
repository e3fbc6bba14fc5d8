-- ===== src/Auth/Logins.antt =====
-- `Login` of internal/app/auth/auth.go, with `noteFailure` and `noteSuccess`.
pub mod Lockout
use Prim.Native.String.{String}
use evermore.Base.{
  ℕ, ◌+◌, ◌*◌, ltb, ◌==◌, Bool, true, false, not, List, Option, none, some, if◌then◌else◌, Result,
  ok, err, first, update,
}
use evermore.Int64.{ℤ, pos, ◌+ℤ◌, ◌<ℤ◌}
use evermore.Auth.Tables.{
  User, Db, Principal, Tokens, Env, AuthError, invalid_credentials, account_locked,
  account_inactive, hash_malformed, minute,
}
use evermore.Auth.Principals.{load_principal}
use evermore.Auth.Sessions.{Client, issue, settled}

-- `maxFailed` and `lockWindow`
abbrev pub max_failed : ℤ
max_failed = pos 8

abbrev pub lock_window : ℕ
lock_window = 15 * minute

abbrev with_users {ℓ} : {Form : Type ℓ} → List User → Db Form → Db Form
with_users users db = record db { users = users }

unfoldable pub failed : ℕ → ℤ → User → User
failed now count u =
    let next = count +ℤ pos 1 in
    if next <ℤ max_failed
    then record u { failed_login_count = next }
    else record u { failed_login_count = next; locked_until = some (now + lock_window) }

unfoldable pub note_failure {ℓ} : {Form : Type ℓ} → Env → ℕ → ℤ → Db Form → Db Form
note_failure env user_id count db =
    with_users (update (λ u. u.id == user_id) (failed env.now count) db.users) db

abbrev rehashed : Env → String → String → User → User
rehashed env password hash u =
    if env.needs_rehash hash
    then (elim (env.hash_password password) [
      | none ↦ u
      | some fresh ↦ record u { password_hash = fresh }
    ])
    else u

unfoldable pub note_success {ℓ} : {Form : Type ℓ} → Env → ℕ → String → String → Db Form → Db Form
note_success env user_id password hash db =
    with_users
      (update (λ u. u.id == user_id)
        (λ u. rehashed env password hash (record u {
          failed_login_count = pos 0;
          locked_until = none;
          last_login_at = some env.now;
        }))
        db.users)
      db

-- `lockedUntil.Valid && lockedUntil.Time.After(s.now())`
abbrev pub is_locked : ℕ → Option ℕ → Bool
is_locked now none = false
is_locked now (some until) = ltb now until

-- The login of a user that was found, after the lock.
unfoldable pub sign_in {ℓ} :
    {Form : Type ℓ}
    → Env
    → Client
    → String
    → User
    → Db Form
    → Result AuthError (Tokens × Principal) × Db Form
sign_in env client password u db = elim (env.verify_password password u.password_hash) [
  | none ↦ (err hash_malformed, db)
  | some right ↦ elim right [
    | false ↦ (err invalid_credentials, note_failure env u.id u.failed_login_count db)
    | true ↦ elim u.is_active [
      | false ↦ (err account_inactive, db)
      | true ↦ elim (load_principal u.id db) [
        | err e ↦ (err e, db)
        | ok p ↦
            let db1 = note_success env u.id password u.password_hash db in
            settled p db1 (issue env client p db1)
      ]
    ]
  ]
]

unfoldable pub login {ℓ} :
    {Form : Type ℓ}
    → Env
    → Client
    → String
    → String
    → Db Form
    → Result AuthError (Tokens × Principal) × Db Form
login env client email password db = elim (env.clean_email email) [
  | none ↦ (err invalid_credentials, db)
  | some address ↦ elim (first (λ u. env.same_email u.email address) db.users) [
    | none ↦ (err invalid_credentials, db)
    | some u ↦
        if is_locked env.now u.locked_until
        then (err account_locked, db)
        else sign_in env client password u db
  ]
]
