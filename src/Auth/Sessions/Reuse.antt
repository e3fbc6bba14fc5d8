-- ===== src/Auth/Sessions/Reuse.antt =====
-- What a replayed token does to the sessions of its user.
use Prim.Native.String.{String}
use evermore.Base.{
  ℕ, ◌==◌, ◌≡◌, refl, inl, inr, arith, false, not, ◌&&◌, List, [], ◌∷◌, some, err, first, update,
  keep, All, Bool-cases,
}
use evermore.Text.{text_eq}
use evermore.Auth.Tables.{RefreshToken, RevokedReason, reuse_detected, Db, Env, invalid_credentials}
use evermore.Auth.Sessions.{Client, is_live, revoke, revoke_all, read_token, refresh}

-- None of the user's tokens is live.
abbrev pub AllRevoked : ℕ → List RefreshToken → Type 0
AllRevoked user_id ts = All (λ t. t.user_id ≡ user_id → is_live t ≡ false) ts

-- The tokens of the other users.
abbrev pub others : ℕ → List RefreshToken → List RefreshToken
others user_id ts = keep (λ t. not (t.user_id == user_id)) ts

update-AllRevoked :
    (user_id at : ℕ) (why : RevokedReason) (ts : List RefreshToken)
    → AllRevoked user_id (update (λ t. t.user_id == user_id && is_live t) (revoke at why) ts)
update-AllRevoked user_id at why [] = tt
update-AllRevoked user_id at why (x ∷ xs) = elim (Bool-cases (x.user_id == user_id)) [
  | inl e ↦ elim (Bool-cases (is_live x)) [
    | inl l ↦ (λ _. ground (arith, e, l), update-AllRevoked user_id at why xs)
    | inr l ↦ (λ _. ground (arith, e, l), update-AllRevoked user_id at why xs)
  ]
  | inr e ↦ ((λ same. absurd (ground (arith, same, e))), update-AllRevoked user_id at why xs)
]

update-others :
    (user_id at : ℕ) (why : RevokedReason) (ts : List RefreshToken)
    → others user_id (update (λ t. t.user_id == user_id && is_live t) (revoke at why) ts)
      ≡ others user_id ts
update-others user_id at why [] = refl
update-others user_id at why (x ∷ xs) = elim (Bool-cases (x.user_id == user_id)) [
  | inl e ↦ elim (Bool-cases (is_live x)) [
    | inl l ↦ ground (arith, e, l, update-others user_id at why xs)
    | inr l ↦ ground (arith, e, l, update-others user_id at why xs)
  ]
  | inr e ↦ ground (arith, e, update-others user_id at why xs)
]

-- Presenting a token that is revoked ends every session of its user: the refresh is refused as
-- invalid credentials, none of the user's tokens is live after it, and the tokens of other users are
-- what they were.
pub reuse_ends_sessions {ℓ} :
    {Form : Type ℓ} (env : Env) (client : Client) (plaintext : String) (t : RefreshToken)
    (db : Db Form)
    → first (λ t. text_eq t.token_hash (env.hash_token plaintext)) db.tokens ≡ some t
    → is_live t ≡ false
    → ((refresh env client plaintext db).0 ≡ err invalid_credentials)
      × AllRevoked t.user_id (refresh env client plaintext db).1.tokens
      × (others t.user_id (refresh env client plaintext db).1.tokens ≡ others t.user_id db.tokens)
unfolding refresh read_token revoke_all
reuse_ends_sessions env client plaintext t db f l = (
  rw (refresh, read_token, f, l) refl,
  rw (refresh, read_token, revoke_all, f, l)
      (update-AllRevoked t.user_id env.now reuse_detected db.tokens),
  rw (refresh, read_token, revoke_all, f, l)
      (update-others t.user_id env.now reuse_detected db.tokens),
)
