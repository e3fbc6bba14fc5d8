-- ===== src/Auth/Sessions/Rotation.antt =====
-- What a rotation leaves.
use evermore.Base.{
  ℕ, ◌==◌, ==_iff, ◌≡◌, ◌≢◌, inl, inr, arith, not, ◌&&◌, List, [], ◌∷◌, ◌++◌, some, ok, err, update,
  Bool-cases, Option-cases, refuse-eq-ok, tally,
}
use evermore.Auth.Tables.{
  RefreshToken, RevokedReason, rotated, Db, Principal, Tokens, Env, invalid_credentials,
}
use evermore.Auth.Sessions.{Client, is_live, revoke, token_of, issue, rotate}

module _ {ℓ} {Form : Type ℓ} where
  -- A token that is issued is one more row, of the user, with its hash and not revoked.
  pub issue-parts :
      (env : Env) (client : Client) (p : Principal) (db db' : Db Form) (tk : Tokens)
      → issue env client p db ≡ ok (tk, db')
      → (db'.tokens ≡ db.tokens ++ token_of env client p.user_id tk.refresh_token ∷ [])
        × (env.sign p env.now ≡ some tk.access_token)
        × (env.new_token ≡ some tk.refresh_token)
        × (db'.users ≡ db.users)
  unfolding issue
  issue-parts env client p db db' tk e = elim (Option-cases (env.sign p env.now)) [
    | inl n ↦ absurd (ground (arith, n, e))
    | inr (access, s) ↦ elim (Option-cases env.new_token) [
      | inl n ↦ absurd (ground (arith, s, n, e))
      | inr (plain, d) ↦ (
        ground (arith, s, d, e),
        ground (arith, s, d, e),
        ground (arith, s, d, e),
        ground (arith, s, d, e),
      )
    ]
  ]

  pub rotate-parts :
      (env : Env) (client : Client) (p : Principal) (id : ℕ) (db db' : Db Form) (tk : Tokens)
      → rotate env client p id db ≡ ok (tk, db')
      → (tally (λ t. t.id == id && is_live t) db.tokens ≡ 1)
        × (db'.tokens
            ≡ update (λ t. t.id == id && is_live t) (revoke env.now rotated) db.tokens
              ++ token_of env client p.user_id tk.refresh_token ∷ [])
        × (env.new_token ≡ some tk.refresh_token)
  unfolding rotate
  rotate-parts env client p id db db' tk e =
      let (one, e') =
        refuse-eq-ok (not (tally (λ t. t.id == id && is_live t) db.tokens == 1)) invalid_credentials
          e in
      let (ts, _, d, _) =
        issue-parts env client p
          (record db {
            tokens = update (λ t. t.id == id && is_live t) (revoke env.now rotated) db.tokens;
          })
          db' tk e' in
      (ground (arith, one), ts, d)

-- Once its rotation revoked it, no live row has the identifier, but for the new token.
none_live :
    (id at : ℕ) (why : RevokedReason) (ts : List RefreshToken) (fresh : RefreshToken)
    → fresh.id ≢ id
    → tally
        (λ t. t.id == id && is_live t)
        (update (λ t. t.id == id && is_live t) (revoke at why) ts ++ fresh ∷ [])
      ≡ 0
none_live id at why [] fresh n = elim (Bool-cases (fresh.id == id)) [
  | inl e ↦ absurd (n ((==_iff fresh.id id).0 e))
  | inr e ↦ ground (arith, e)
]
none_live id at why (x ∷ xs) fresh n = elim (Bool-cases (x.id == id && is_live x)) [
  | inl e ↦ ground (arith, e, none_live id at why xs fresh n)
  | inr e ↦ ground (arith, e, none_live id at why xs fresh n)
]

-- Two refreshes that both read a token before either rotated it do not both succeed: after the first
-- has rotated the token, the rotation of the other is refused as invalid credentials, whatever it
-- draws. The first one's new row has an identifier of its own.
pub rotated_once {ℓ} :
    {Form : Type ℓ} (env env' : Env) (client client' : Client) (p p' : Principal) (id : ℕ)
    (db db' : Db Form) (tk : Tokens)
    → env.new_id ≢ id
    → rotate env client p id db ≡ ok (tk, db')
    → rotate env' client' p' id db' ≡ err invalid_credentials
unfolding rotate
rotated_once env env' client client' p p' id db db' tk n e =
    let (_, ts, _) = rotate-parts env client p id db db' tk e in
    let gone =
      none_live id env.now rotated db.tokens (token_of env client p.user_id tk.refresh_token) n in
    let zero_left : tally (λ t. t.id == id && is_live t) db'.tokens ≡ 0 = rw ts gone in
    ground (arith, zero_left)
