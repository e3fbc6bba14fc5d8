-- ===== src/Auth/History.antt =====
-- The operations of internal/app/auth/auth.go on sessions, and their sequences.
pub mod Used
pub mod Replays
use Prim.Native.String.{String}
use evermore.Base.{
  ℕ, ◌==◌, ◌≡◌, refl, sym, subst, ◌⊎◌, ltb, inl, inr, arith, Bool, true, false, ◌&&◌, List, [], ◌∷◌,
  ◌++◌, some, Result, ok, err, first, update, Bool-cases, Option-cases, Result-cases, first_updated,
}
use evermore.Text.{text_eq}
use evermore.Auth.Tables.{
  User, RefreshToken, RevokedReason, rotated, reuse_detected, logged_out, logged_out_all, Db,
  Principal, Tokens, Env, AuthError, invalid_credentials,
}
use evermore.Auth.Principals.{load_principal}
use evermore.Auth.Sessions.{
  Client, Found, token_of, refused, to_rotate, is_live, revoke, issue, rotate, revoke_all,
  read_token, finish, settled, refresh, logout, logout_all,
}
use evermore.Auth.Sessions.Rotation.{issue-parts, rotate-parts}
use evermore.Auth.Logins.{login, sign_in, is_locked, note_failure, note_success}

-- The operations on sessions, each with what it takes from outside.
pub data Operation : Type 0 where
  signs_in : Env → Client → String → String → Operation
  refreshes : Env → Client → String → Operation
  logs_out : Env → String → Operation
  logs_out_everywhere : Env → ℕ → Operation

module _ {ℓ} {Form : Type ℓ} where
  unfoldable pub step : Operation → Db Form → Db Form
  step (signs_in env client email password) db = (login env client email password db).1
  step (refreshes env client plaintext) db = (refresh env client plaintext db).1
  step (logs_out env plaintext) db = logout env plaintext db
  step (logs_out_everywhere env user_id) db = logout_all env user_id db

  unfoldable pub run : List Operation → Db Form → Db Form
  run [] db = db
  run (o ∷ os) db = run os (step o db)
