-- ===== src/Auth/Logins/Lockout.antt =====
-- An account that has seen eight wrong passwords in a row is locked.
use Prim.Native.String.{String}
use evermore.Base.{
  ℕ, suc, ◌+◌, ◌<◌, ◌==◌, ◌≡◌, refl, sym, ap, subst, ◌∙◌, ◌≤◌, lt→ltb, inl, inr, arith, Bool, false,
  List, [], ◌∷◌, Option, none, some, Result, err, first, Bool-cases, first_updated, length, All,
}
use evermore.Int64.{ℤ, pos, ◌+ℤ◌, ◌<ℤ◌}
use evermore.Int64.Laws.{+ℤ-pos}
use evermore.Auth.Tables.{User, Db, Principal, Tokens, Env, AuthError, account_locked}
use evermore.Auth.Sessions.{Client}
use evermore.Auth.Logins.{login, sign_in, note_failure, failed, is_locked, lock_window, max_failed}

-- A sign-in for an address, with what it takes from outside.
pub record Attempt : Type 0 where
  pub env : Env
  pub client : Client
  pub email : String
  pub password : String

abbrev pub attempt {ℓ} :
    {Form : Type ℓ} → Attempt → Db Form → Result AuthError (Tokens × Principal) × Db Form
attempt a db = login a.env a.client a.email a.password db

-- The attempts one after the other.
unfoldable pub attempts {ℓ} : {Form : Type ℓ} → List Attempt → Db Form → Db Form
attempts [] db = db
attempts (a ∷ rest) db = attempts rest (attempt a db).1

-- The attempt is for the address, and its password is not that of the hash.
abbrev Wrong : (String → String → Bool) → String → String → Attempt → Type 0
Wrong same address hash a =
    (a.env.same_email ≡ same)
    × (a.env.clean_email a.email ≡ some address)
    × (a.env.verify_password a.password hash ≡ some false)

-- The account of an address: its hash, its count of failures, and until when it is locked.
abbrev Account {ℓ} :
    {Form : Type ℓ} → (String → String → Bool) → String → String → ℕ → Option ℕ → Db Form → Type 0
Account same address hash n lock db =
    (u : User) × (first (λ u. same u.email address) db.users ≡ some u)
    × (u.password_hash ≡ hash)
    × (u.failed_login_count ≡ pos n)
    × (u.locked_until ≡ lock)

failed-few :
    (now n : ℕ) (u : User)
    → n < 7
    → failed now (pos n) u ≡ record u { failed_login_count = pos (suc n) }
unfolding failed
failed-few now n u low =
    let sum : pos n +ℤ pos 1 ≡ pos (n + 1) = +ℤ-pos n 1 (omega (arith)) in ground (arith, sum)

failed-many :
    (now : ℕ) (u : User)
    → failed now (pos 7) u
      ≡ record u { failed_login_count = pos 8; locked_until = some (now + lock_window) }
unfolding failed
failed-many now u =
    let sum : pos 7 +ℤ pos 1 ≡ pos 8 = +ℤ-pos 7 1 (omega (arith)) in ground (arith, sum)

failed-email : (now : ℕ) (c : ℤ) (u : User) → (failed now c u).email ≡ u.email
unfolding failed
failed-email now c u = elim (Bool-cases ((c +ℤ pos 1) <ℤ max_failed)) [
  | inl e ↦ rw (failed, e) refl
  | inr e ↦ rw (failed, e) refl
]

module _ {ℓ} {Form : Type ℓ} where
  -- A wrong password on an account that is not locked counts one more failure.
  wrong_counts :
      (a : Attempt) (address : String) (u : User) (db : Db Form)
      → a.env.clean_email a.email ≡ some address
      → first (λ u. a.env.same_email u.email address) db.users ≡ some u
      → a.env.verify_password a.password u.password_hash ≡ some false
      → u.locked_until ≡ none
      → first (λ u. a.env.same_email u.email address) (attempt a db).1.users
        ≡ some (failed a.env.now u.failed_login_count u)
  unfolding login sign_in note_failure
  wrong_counts a address u db c f v l =
      let unlocked : is_locked a.env.now u.locked_until ≡ false = rw l refl in
      rw (login, sign_in, c, f, unlocked, v)
        (first_updated (λ u. a.env.same_email u.email address) (λ x. x.id == u.id)
          (failed a.env.now u.failed_login_count) db.users u
          (λ x.
            ap (λ e. a.env.same_email e address) (failed-email a.env.now u.failed_login_count x))
          (ground arith) f)

  one_more :
      (a : Attempt) (same : String → String → Bool) (address hash : String) (n : ℕ) (db : Db Form)
      → n < 7
      → Wrong same address hash a
      → Account same address hash n none db
      → Account same address hash (suc n) none (attempt a db).1
  one_more a same address hash n db low (e, c, v) (u, f, own, count, free) =
      let after =
        wrong_counts a address u db c
          (subst (λ m. first (λ u. m u.email address) db.users ≡ some u) (sym e) f) (rw own v)
          free in
      let few = failed-few a.env.now n u low in
      (
        record u { failed_login_count = pos (suc n) },
        ground (arith, after, few, count, e),
        own,
        refl,
        free,
      )

  counted :
      (same : String → String → Bool) (address hash : String) (n : ℕ) (tries : List Attempt)
      (db : Db Form)
      → length tries + n ≤ 7
      → All (Wrong same address hash) tries
      → Account same address hash n none db
      → Account same address hash (length tries + n) none (attempts tries db)
  unfolding attempts
  counted same address hash n [] db low all k =
      subst (λ m. Account same address hash m none db) (omega arith) k
  counted same address hash n (a ∷ tries) db low (w, all) k =
      subst (λ m. Account same address hash m none (attempts (a ∷ tries) db)) (omega arith)
        (counted same address hash (suc n) tries (attempt a db).1 (omega (arith, low)) all
          (one_more a same address hash n db (omega (arith, low)) w k))

  -- A locked account refuses whatever comes before the lock ends, and nothing changes.
  locked_refuses :
      (a : Attempt) (same : String → String → Bool) (address hash : String) (n until : ℕ)
      (db : Db Form)
      → a.env.same_email ≡ same
      → a.env.clean_email a.email ≡ some address
      → a.env.now < until
      → Account same address hash n (some until) db
      → attempt a db ≡ (err account_locked, db)
  unfolding login
  locked_refuses a same address hash n until db e c early (u, f, _, _, locked) =
      let test = lt→ltb a.env.now until early in
      let f' = subst (λ m. first (λ u. m u.email address) db.users ≡ some u) (sym e) f in
      rw (login, c, f', locked, test) refl

-- Eight wrong passwords in a row lock an account: after seven of them on an account with no failures
-- and no lock, and an eighth, any sign-in for the address within the next fifteen minutes, with the
-- right password as well, is refused as locked and changes nothing.
pub eight_lock {ℓ} :
    {Form : Type ℓ} (same : String → String → Bool) (address hash : String) (tries : List Attempt)
    (last next : Attempt) (db : Db Form)
    → Account same address hash 0 none db
    → length tries ≡ 7
    → All (Wrong same address hash) tries
    → Wrong same address hash last
    → next.env.same_email ≡ same
    → next.env.clean_email next.email ≡ some address
    → next.env.now < last.env.now + lock_window
    → attempt next (attempt last (attempts tries db)).1
      ≡ (err account_locked, (attempt last (attempts tries db)).1)
eight_lock same address hash tries last next db start seven all (e, c, v) e' c' early =
    let (u, f, own, count, free) =
      counted same address hash 0 tries db (omega (arith, seven)) all start in
    let after =
      wrong_counts last address u (attempts tries db) c
        (subst (λ m. first (λ u. m u.email address) (attempts tries db).users ≡ some u) (sym e) f)
        (rw own v) free in
    let seven_failures : u.failed_login_count ≡ pos 7 = count ∙ ap pos (omega (arith, seven)) in
    locked_refuses next same address hash 8 (last.env.now + lock_window)
      (attempt last (attempts tries db)).1 e' c' early
      (
        record u { failed_login_count = pos 8; locked_until = some (last.env.now + lock_window) },
        subst
              (λ m.
                first (λ u. m u.email address) (attempt last (attempts tries db)).1.users
                ≡ some (failed last.env.now u.failed_login_count u))
              e after
            ∙ ap some
                (ap (λ c. failed last.env.now c u) seven_failures ∙ failed-many last.env.now u),
        own,
        refl,
        refl,
      )
