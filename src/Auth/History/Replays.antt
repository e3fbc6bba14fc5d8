-- ===== src/Auth/History/Replays.antt =====
-- A refresh token is good for one refresh, in every history.
use Prim.Native.String.{String}
use evermore.Base.{
  ℕ, ◌==◌, ◌≡◌, refl, sym, subst, ltb, inl, inr, arith, Bool, true, false, ◌&&◌, List, [], ◌∷◌,
  some, ok, err, first, update, Bool-cases, Option-cases, Result-cases, first_updated,
}
use evermore.Text.{text_eq}
use evermore.Auth.Tables.{
  User, RefreshToken, rotated, logged_out, logged_out_all, Db, Principal, Tokens, Env,
  invalid_credentials,
}
use evermore.Auth.Principals.{load_principal}
use evermore.Auth.Sessions.{
  Client, Found, token_of, refused, to_rotate, is_live, revoke, issue, rotate, read_token, finish,
  refresh, logout, logout_all,
}
use evermore.Auth.Sessions.Rotation.{rotate-parts}
use evermore.Auth.Logins.{login, sign_in, is_locked, note_failure, note_success}
use evermore.Auth.History.{Operation, signs_in, refreshes, logs_out, logs_out_everywhere, step, run}
use evermore.Auth.History.Used.{
  Used, Used-append, Used-finish, Used-issue, Used-read_token, Used-revoke_all, Used-settled,
  Used-update,
}

module _ {ℓ} {Form : Type ℓ} where
  Used-sign_in :
      (h : String) (env : Env) (client : Client) (password : String) (u : User) (db : Db Form)
      → Used h db.tokens
      → Used h (sign_in env client password u db).1.tokens
  unfolding sign_in note_failure note_success
  Used-sign_in h env client password u db k =
      elim (Option-cases (env.verify_password password u.password_hash)) [
        | inl n ↦ rw (sign_in, n) k
        | inr (true, v) ↦ elim (Bool-cases u.is_active) [
          | inl a ↦ elim (Result-cases (load_principal u.id db)) [
            | inl (p, l) ↦
                let db1 = note_success env u.id password u.password_hash db in
                rw (sign_in, v, a, l)
                  (Used-settled h p db1 (issue env client p db1)
                    (λ tk db' e. Used-issue h env client p db1 db' tk e k) k)
            | inr (e, l) ↦ rw (sign_in, v, a, l) k
          ]
          | inr a ↦ rw (sign_in, v, a) k
        ]
        | inr (false, v) ↦ rw (sign_in, v) k
      ]

  Used-login :
      (h : String) (env : Env) (client : Client) (email password : String) (db : Db Form)
      → Used h db.tokens
      → Used h (login env client email password db).1.tokens
  unfolding login
  Used-login h env client email password db k = elim (Option-cases (env.clean_email email)) [
    | inl n ↦ rw (login, n) k
    | inr (address, c) ↦
        elim (Option-cases (first (λ u. env.same_email u.email address) db.users)) [
          | inl n ↦ rw (login, c, n) k
          | inr (u, f) ↦ elim (Bool-cases (is_locked env.now u.locked_until)) [
            | inl l ↦ rw (login, c, f, l) k
            | inr l ↦ rw (login, c, f, l) (Used-sign_in h env client password u db k)
          ]
        ]
  ]

  Used-step :
      (h : String) (o : Operation) (db : Db Form) → Used h db.tokens → Used h (step o db).tokens
  unfolding step refresh logout logout_all
  Used-step h (signs_in env client email password) db u =
      Used-login h env client email password db u
  Used-step h (refreshes env client plaintext) db u =
      Used-finish h env client db (read_token env plaintext db)
        (λ e db' r. Used-read_token h env plaintext db db' e r u) u
  Used-step h (logs_out env plaintext) db u =
      Used-update h (λ t. text_eq t.token_hash (env.hash_token plaintext) && is_live t) env.now
        logged_out db.tokens u
  Used-step h (logs_out_everywhere env user_id) db u =
      Used-revoke_all h env.now logged_out_all user_id db u

  Used-run :
      (h : String) (os : List Operation) (db : Db Form)
      → Used h db.tokens
      → Used h (run os db).tokens
  unfolding run
  Used-run h [] db u = u
  Used-run h (o ∷ os) db u = Used-run h os (step o db) (Used-step h o db u)

  -- A used token is refused.
  Used-refused :
      (env : Env) (client : Client) (plaintext : String) (db : Db Form)
      → Used (env.hash_token plaintext) db.tokens
      → (refresh env client plaintext db).0 ≡ err invalid_credentials
  unfolding refresh read_token
  Used-refused env client plaintext db (t, f, l) = rw (refresh, read_token, f, l) refl

  read_token-to_rotate :
      (env : Env) (plaintext : String) (db : Db Form) (id : ℕ) (p : Principal)
      → read_token env plaintext db ≡ to_rotate id p
      → (t : RefreshToken) × (first (λ t. text_eq t.token_hash (env.hash_token plaintext)) db.tokens
          ≡ some t)
        × (is_live t ≡ true)
        × (t.id ≡ id)
  unfolding read_token
  read_token-to_rotate env plaintext db id p r =
      elim (Option-cases (first (λ t. text_eq t.token_hash (env.hash_token plaintext)) db.tokens)) [
        | inl n ↦ absurd (ground (arith, n, r))
        | inr (t, f) ↦ elim (Bool-cases (is_live t)) [
          | inl l ↦ elim (Bool-cases (ltb env.now t.expires_at)) [
            | inl x ↦ elim (Result-cases (load_principal t.user_id db)) [
              | inl (p, g) ↦ (t, f, l, ground (arith, f, l, x, g, r))
              | inr (e', g) ↦ absurd (ground (arith, f, l, x, g, r))
            ]
            | inr x ↦ absurd (ground (arith, f, l, x, r))
          ]
          | inr l ↦ absurd (ground (arith, f, l, r))
        ]
      ]

  -- A rotation of the first token of a hash leaves it used.
  rotate-Used :
      (h : String) (env : Env) (client : Client) (p : Principal) (t : RefreshToken)
      (db db' : Db Form) (tk : Tokens)
      → first (λ t. text_eq t.token_hash h) db.tokens ≡ some t
      → is_live t ≡ true
      → rotate env client p t.id db ≡ ok (tk, db')
      → Used h db'.tokens
  rotate-Used h env client p t db db' tk f l e =
      let (_, ts, _) = rotate-parts env client p t.id db db' tk e in
      let key : RefreshToken → Bool = λ x. x.id == t.id && is_live x in
      let hit : key t ≡ true = ground (arith, l) in
      rw ts (
        Used-append h (update key (revoke env.now rotated) db.tokens)
          (token_of env client p.user_id tk.refresh_token ∷ [])
          (
            revoke env.now rotated t,
            first_updated (λ t. text_eq t.token_hash h) key (revoke env.now rotated) db.tokens t
                (λ _. refl) hit f,
            refl,
          ))

  finish-Used :
      (h : String) (env : Env) (client : Client) (db : Db Form) (f : Found Form)
      (r : Tokens × Principal)
      → ((id : ℕ) (p : Principal)
          → f ≡ to_rotate id p
          → (t : RefreshToken) × (first (λ t. text_eq t.token_hash h) db.tokens ≡ some t)
            × (is_live t ≡ true)
            × (t.id ≡ id))
      → (finish env client db f).0 ≡ ok r
      → Used h (finish env client db f).1.tokens
  finish-Used h env client db (refused e db') r k o = cc
  finish-Used h env client db (to_rotate id p) r k o =
      let (t, f, l, same) = k id p refl in
      elim (Result-cases (rotate env client p id db)) [
        | inl ((tk, db'), e) ↦ rw e (rotate-Used h env client p t db db' tk f l (rw same e))
        | inr (x, e) ↦ absurd (ground (arith, e, o))
      ]

  -- A refresh that succeeds leaves its token used.
  refresh-Used :
      (env : Env) (client : Client) (plaintext : String) (db : Db Form) (r : Tokens × Principal)
      → (refresh env client plaintext db).0 ≡ ok r
      → Used (env.hash_token plaintext) (refresh env client plaintext db).1.tokens
  unfolding refresh
  refresh-Used env client plaintext db r e =
      finish-Used (env.hash_token plaintext) env client db (read_token env plaintext db) r
        (λ id p. read_token-to_rotate env plaintext db id p) e

-- A refresh token is good for one refresh: after it has been exchanged, and after any sign-ins,
-- refreshes and logouts of whomever since, a refresh with it is refused as invalid credentials. The
-- hash of a token does not change between the calls.
pub used_once {ℓ} :
    {Form : Type ℓ} (env env' : Env) (client client' : Client) (plaintext : String) (db : Db Form)
    (r : Tokens × Principal) (os : List Operation)
    → (refresh env client plaintext db).0 ≡ ok r
    → env'.hash_token plaintext ≡ env.hash_token plaintext
    → (refresh env' client' plaintext (run os (refresh env client plaintext db).1)).0
      ≡ err invalid_credentials
used_once env env' client client' plaintext db r os e same =
    let after = (refresh env client plaintext db).1 in
    Used-refused env' client' plaintext (run os after) (
      subst (λ h. Used h (run os after).tokens) (sym same)
        (Used-run (env.hash_token plaintext) os after (refresh-Used env client plaintext db r e)))
