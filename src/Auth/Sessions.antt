-- ===== src/Auth/Sessions.antt =====
-- The sessions of internal/app/auth/auth.go: a refresh token is issued, rotated, and revoked.
pub mod Rotation
pub mod Reuse
use Prim.Native.String.{String}
use evermore.Base.{
  ℕ, zero, suc, ◌+◌, ◌*◌, ltb, leb, ◌==◌, Bool, true, false, not, ◌&&◌, List, [], ◌∷◌, ◌++◌, Option,
  none, some, if◌then◌else◌, length, tally, Result, ok, err, refuse, ◌>>=◌, ◌>>◌, first, update,
}
use evermore.Text.{is_empty, text_eq}
use evermore.Auth.Tables.{
  RefreshToken, RevokedReason, rotated, reuse_detected, logged_out, logged_out_all, Db, Principal,
  Tokens, Env, AuthError, invalid_credentials, signing_failed, random_failed, minute,
}
use evermore.Auth.Principals.{load_principal}

-- `trunc`, on the bytes of a text.
unfoldable pub take {ℓ} : {A : Type ℓ} → ℕ → List A → List A
take zero xs = []
take (suc n) [] = []
take (suc n) (x ∷ xs) = x ∷ take n xs

unfoldable pub trunc : List ℕ → ℕ → List ℕ
trunc s n = if leb (length s) n then s else take n s

-- `revoked_at IS NULL`
abbrev pub is_live : RefreshToken → Bool
is_live t = elim t.revoked_at [ none ↦ true | some at ↦ false ]

abbrev pub revoke : ℕ → RevokedReason → RefreshToken → RefreshToken
revoke at reason t = record t { revoked_at = some at; revoked_reason = some reason }

-- What the caller of an operation sends beside its credentials.
pub record Client : Type 0 where
  pub user_agent : List ℕ
  pub ip : String

-- The row that `issue` inserts; the plaintext of the token is not stored.
abbrev pub token_of : Env → Client → ℕ → String → RefreshToken
token_of env client user_id plaintext = record {
  id = env.new_id;
  user_id = user_id;
  token_hash = env.hash_token plaintext;
  issued_at = env.now;
  expires_at = env.now + env.refresh_ttl;
  revoked_at = none;
  revoked_reason = none;
  user_agent = trunc client.user_agent 255;
  ip_address = if is_empty client.ip then none else some client.ip;
}

unfoldable pub issue {ℓ} :
    {Form : Type ℓ} → Env → Client → Principal → Db Form → Result AuthError (Tokens × Db Form)
issue env client p db = elim (env.sign p env.now) [
  | none ↦ err signing_failed
  | some access ↦ elim env.new_token [
    | none ↦ err random_failed
    | some plaintext ↦ ok (
      record {
        access_token = access;
        refresh_token = plaintext;
        expires_at = env.now + 15 * minute;
      },
      record db { tokens = db.tokens ++ token_of env client p.user_id plaintext ∷ [] },
    )
  ]
]

-- The transaction of `Refresh`: the UPDATE that must change one row, then the new token.
unfoldable pub rotate {ℓ} :
    {Form : Type ℓ} → Env → Client → Principal → ℕ → Db Form → Result AuthError (Tokens × Db Form)
rotate env client p token_id db = do
  refuse (not (tally (λ t. t.id == token_id && is_live t) db.tokens == 1)) invalid_credentials
  issue env client p (record db {
    tokens = update (λ t. t.id == token_id && is_live t) (revoke env.now rotated) db.tokens;
  })

-- Every live session of a user is revoked.
unfoldable pub revoke_all {ℓ} : {Form : Type ℓ} → ℕ → RevokedReason → ℕ → Db Form → Db Form
revoke_all at reason user_id db = record db {
  tokens = update (λ t. t.user_id == user_id && is_live t) (revoke at reason) db.tokens;
}

-- What `Refresh` finds before its transaction: a token to rotate, or a refusal and the tables after it.
pub data Found {ℓ} (Form : Type ℓ) : Type ℓ where
  refused : AuthError → Db Form → Found Form
  to_rotate : ℕ → Principal → Found Form

unfoldable pub read_token {ℓ} : {Form : Type ℓ} → Env → String → Db Form → Found Form
read_token env plaintext db =
    elim (first (λ t. text_eq t.token_hash (env.hash_token plaintext)) db.tokens) [
      | none ↦ refused invalid_credentials db
      | some t ↦ elim (is_live t) [
        | false ↦ refused invalid_credentials (revoke_all env.now reuse_detected t.user_id db)
        | true ↦ elim (ltb env.now t.expires_at) [
          | false ↦ refused invalid_credentials db
          | true ↦ elim (load_principal t.user_id db) [
            | err e ↦ refused e db
            | ok p ↦ to_rotate t.id p
          ]
        ]
      ]
    ]

-- The tables after a transaction: what it wrote, or what they were where it failed.
abbrev pub settled {ℓ} :
    {Form : Type ℓ}
    → Principal
    → Db Form
    → Result AuthError (Tokens × Db Form)
    → Result AuthError (Tokens × Principal) × Db Form
settled p db (ok (tokens, db')) = (ok (tokens, p), db')
settled p db (err e) = (err e, db)

abbrev pub finish {ℓ} :
    {Form : Type ℓ}
    → Env
    → Client
    → Db Form
    → Found Form
    → Result AuthError (Tokens × Principal) × Db Form
finish env client db (refused e db') = (err e, db')
finish env client db (to_rotate id p) = settled p db (rotate env client p id db)

unfoldable pub refresh {ℓ} :
    {Form : Type ℓ}
    → Env
    → Client
    → String
    → Db Form
    → Result AuthError (Tokens × Principal) × Db Form
refresh env client plaintext db = finish env client db (read_token env plaintext db)

unfoldable pub logout {ℓ} : {Form : Type ℓ} → Env → String → Db Form → Db Form
logout env plaintext db = record db {
  tokens =
      update (λ t. text_eq t.token_hash (env.hash_token plaintext) && is_live t)
        (revoke env.now logged_out) db.tokens;
}

unfoldable pub logout_all {ℓ} : {Form : Type ℓ} → Env → ℕ → Db Form → Db Form
logout_all env user_id db = revoke_all env.now logged_out_all user_id db
