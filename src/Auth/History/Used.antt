-- ===== src/Auth/History/Used.antt =====
-- A token that is revoked stays so, whatever is done to the sessions.
use Prim.Native.String.{String}
use evermore.Base.{
  ℕ, ◌==◌, ◌≡◌, refl, sym, subst, ◌⊎◌, ltb, inl, inr, arith, Bool, false, ◌&&◌, List, [], ◌∷◌, ◌++◌,
  some, Result, ok, err, first, update, Bool-cases, Option-cases, Result-cases,
}
use evermore.Text.{text_eq}
use evermore.Auth.Tables.{
  RefreshToken, RevokedReason, rotated, reuse_detected, Db, Principal, Tokens, Env, AuthError,
}
use evermore.Auth.Principals.{load_principal}
use evermore.Auth.Sessions.{
  Client, Found, token_of, refused, to_rotate, is_live, revoke, issue, rotate, revoke_all,
  read_token, finish, settled,
}
use evermore.Auth.Sessions.Rotation.{issue-parts, rotate-parts}

-- The first token of a hash is revoked.
abbrev pub Used : String → List RefreshToken → Type 0
Used h ts =
    (t : RefreshToken) × (first (λ t. text_eq t.token_hash h) ts ≡ some t) × (is_live t ≡ false)

pub Used-update :
    (h : String) (key : RefreshToken → Bool) (at : ℕ) (why : RevokedReason) (ts : List RefreshToken)
    → Used h ts
    → Used h (update key (revoke at why) ts)
Used-update h key at why [] (t, e, l) = cc
Used-update h key at why (x ∷ xs) (t, e, l) = elim (Bool-cases (text_eq x.token_hash h)) [
  | inl s ↦ elim (Bool-cases (key x)) [
    | inl k ↦ (revoke at why x, ground (arith, s, k), refl)
    | inr k ↦ (x, ground (arith, s, k), ground (arith, s, e, l))
  ]
  | inr n ↦
      let (t', e', l') = Used-update h key at why xs (t, ground (arith, n, e), l) in
      elim (Bool-cases (key x)) [
        | inl k ↦ (t', ground (arith, n, k, e'), l')
        | inr k ↦ (t', ground (arith, n, k, e'), l')
      ]
]

pub Used-append : (h : String) (ts us : List RefreshToken) → Used h ts → Used h (ts ++ us)
Used-append h [] us (t, e, l) = cc
Used-append h (x ∷ xs) us (t, e, l) = elim (Bool-cases (text_eq x.token_hash h)) [
  | inl s ↦ (t, ground (arith, s, e), l)
  | inr n ↦
      let (t', e', l') = Used-append h xs us (t, ground (arith, n, e), l) in
      (t', ground (arith, n, e'), l')
]

module _ {ℓ} {Form : Type ℓ} where
  pub Used-issue :
      (h : String) (env : Env) (client : Client) (p : Principal) (db db' : Db Form) (tk : Tokens)
      → issue env client p db ≡ ok (tk, db')
      → Used h db.tokens
      → Used h db'.tokens
  Used-issue h env client p db db' tk e u =
      let (ts, _, _, _) = issue-parts env client p db db' tk e in
      rw ts (Used-append h db.tokens (token_of env client p.user_id tk.refresh_token ∷ []) u)

  -- The tables that a transaction settles on are the old ones or the new ones.
  pub Used-settled :
      (h : String) (p : Principal) (db : Db Form) (r : Result AuthError (Tokens × Db Form))
      → ((tk : Tokens) (db' : Db Form) → r ≡ ok (tk, db') → Used h db'.tokens)
      → Used h db.tokens
      → Used h (settled p db r).1.tokens
  Used-settled h p db (ok (tk, db')) k u = k tk db' refl
  Used-settled h p db (err e) k u = u

  Used-rotate :
      (h : String) (env : Env) (client : Client) (p : Principal) (id : ℕ) (db db' : Db Form)
      (tk : Tokens)
      → rotate env client p id db ≡ ok (tk, db')
      → Used h db.tokens
      → Used h db'.tokens
  Used-rotate h env client p id db db' tk e u =
      let (_, ts, _) = rotate-parts env client p id db db' tk e in
      rw ts (
        Used-append h (update (λ t. t.id == id && is_live t) (revoke env.now rotated) db.tokens)
          (token_of env client p.user_id tk.refresh_token ∷ [])
          (Used-update h (λ t. t.id == id && is_live t) env.now rotated db.tokens u))

  pub Used-revoke_all :
      (h : String) (at : ℕ) (why : RevokedReason) (user_id : ℕ) (db : Db Form)
      → Used h db.tokens
      → Used h (revoke_all at why user_id db).tokens
  unfolding revoke_all
  Used-revoke_all h at why user_id db =
      Used-update h (λ t. t.user_id == user_id && is_live t) at why db.tokens

  pub Used-finish :
      (h : String) (env : Env) (client : Client) (db : Db Form) (f : Found Form)
      → ((e : AuthError) (db' : Db Form) → f ≡ refused e db' → Used h db'.tokens)
      → Used h db.tokens
      → Used h (finish env client db f).1.tokens
  Used-finish h env client db (refused e db') k u = k e db' refl
  Used-finish h env client db (to_rotate id p) k u =
      Used-settled h p db (rotate env client p id db)
        (λ tk db' e. Used-rotate h env client p id db db' tk e u) u

  -- Where the read refuses, the tables are as they were, or every session of a user is revoked.
  read_token-refused :
      (env : Env) (plaintext : String) (db db' : Db Form) (e : AuthError)
      → read_token env plaintext db ≡ refused e db'
      → (db' ≡ db) ⊎ ((user_id : ℕ) × (db' ≡ revoke_all env.now reuse_detected user_id db))
  unfolding read_token
  read_token-refused env plaintext db db' e r =
      elim (Option-cases (first (λ t. text_eq t.token_hash (env.hash_token plaintext)) db.tokens)) [
        | inl n ↦ inl (ground (arith, n, r))
        | inr (t, f) ↦ elim (Bool-cases (is_live t)) [
          | inl l ↦ elim (Bool-cases (ltb env.now t.expires_at)) [
            | inl x ↦ elim (Result-cases (load_principal t.user_id db)) [
              | inl (p, g) ↦ absurd (ground (arith, f, l, x, g, r))
              | inr (e', g) ↦ inl (ground (arith, f, l, x, g, r))
            ]
            | inr x ↦ inl (ground (arith, f, l, x, r))
          ]
          | inr l ↦ inr (t.user_id, ground (arith, f, l, r))
        ]
      ]

  pub Used-read_token :
      (h : String) (env : Env) (plaintext : String) (db db' : Db Form) (e : AuthError)
      → read_token env plaintext db ≡ refused e db'
      → Used h db.tokens
      → Used h db'.tokens
  Used-read_token h env plaintext db db' e r u =
      elim (read_token-refused env plaintext db db' e r) [
        | inl same ↦ subst (λ d. Used h d.tokens) (sym same) u
        | inr (id, all) ↦
            subst (λ d. Used h d.tokens) (sym all)
              (Used-revoke_all h env.now reuse_detected id db u)
      ]
