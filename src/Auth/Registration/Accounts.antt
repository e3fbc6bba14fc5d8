-- ===== src/Auth/Registration/Accounts.antt =====
-- What a registration leaves.
use Prim.Native.String.{String}
use evermore.Base.{
  ℕ, ◌+◌, ◌≤◌, ltb, ◌≡◌, refl, sym, subst, inl, inr, arith, Bool, true, false, not, ◌&&◌, List, [],
  ◌∷◌, ◌++◌, Option, none, some, ok, ◌>>=◌, first, tally, All, Bool-cases, >>=-eq-ok, >>-eq-ok,
  refuse-eq-ok, if◌then◌else◌,
}
use evermore.Text.{text_eq, text_eq_iff}
use evermore.Auth.Tables.{User, Role, Db, Env, AuthError}
use evermore.Auth.Principals.{member}
use evermore.Auth.Passwords.{validate_password}
use evermore.Auth.Registration.{
  RegisterInput, keep_known, known_allergens, required, user_of, with_address, create_account,
  register,
}

-- No slug twice.
abbrev NoDuplicates : List String → Type 0
NoDuplicates [] = Unit
NoDuplicates (s ∷ ss) = (member s ss ≡ false) × NoDuplicates ss

-- The profile has the slugs that were asked for and that were not seen before, each known, each once.
abbrev pub Kept : List String → List String → List String → List String → Type 0
Kept known seen want out =
    ((s : String) → member s out ≡ (member s want && not (member s seen)))
    × All (λ s. member s known ≡ true) out
    × NoDuplicates out

text_eq_self : (s : String) → text_eq s s ≡ true
text_eq_self s = (text_eq_iff s s).1 refl

-- A slug that was seen before adds nothing.
seen_adds_nothing :
    (known seen xs out : List String) (x : String)
    → member x seen ≡ true
    → Kept known seen xs out
    → Kept known seen (x ∷ xs) out
seen_adds_nothing known seen xs out x seen_before (same, all, once) = (
  λ s. elim (Bool-cases (text_eq x s)) [
    | inl e ↦
        let also : member s seen ≡ true =
          subst (λ y. member y seen ≡ true) ((text_eq_iff x s).0 e) seen_before in
        ground (arith, e, also, same s)
    | inr e ↦ ground (arith, e, same s)
  ],
  all,
  once,
)

-- A slug that was not goes before the rest.
new_goes_first :
    (known seen xs rest : List String) (x : String)
    → member x known ≡ true
    → member x seen ≡ false
    → Kept known (x ∷ seen) xs rest
    → Kept known seen (x ∷ xs) (x ∷ rest)
new_goes_first known seen xs rest x k new (same, all, once) =
    let itself = text_eq_self x in
    (
      λ s. elim (Bool-cases (text_eq x s)) [
        | inl e ↦
            let also : member s seen ≡ false =
              subst (λ y. member y seen ≡ false) ((text_eq_iff x s).0 e) new in
            ground (arith, e, also)
        | inr e ↦ ground (arith, e, same s)
      ],
      (k, all),
      (
        elim (Bool-cases (member x xs)) [
          | inl m ↦ ground (arith, m, itself, same x)
          | inr m ↦ ground (arith, m, itself, same x)
        ],
        once,
      ),
    )

keep_known-Kept :
    (known seen want out : List String)
    → keep_known known seen want ≡ ok out
    → Kept known seen want out
unfolding keep_known
keep_known-Kept known seen [] out h =
    let none_left : [] ≡ out = ground (arith, h) in
    subst (λ o. Kept known seen [] o) none_left ((λ s. refl), tt, tt)
keep_known-Kept known seen (x ∷ xs) out h = elim (Bool-cases (member x known)) [
  | inl k ↦ elim (Bool-cases (member x seen)) [
    | inl s ↦
        seen_adds_nothing known seen xs out x s
          (keep_known-Kept known seen xs out (ground (arith, k, s, h)))
    | inr s ↦
        let chain : (keep_known known (x ∷ seen) xs >>= λ out. ok (x ∷ out)) ≡ ok out =
          ground (arith, k, s, h) in
        let (rest, e, o) = >>=-eq-ok (keep_known known (x ∷ seen) xs) (λ out. ok (x ∷ out)) chain in
        let whole : x ∷ rest ≡ out = ground (arith, o) in
        subst (λ o. Kept known seen (x ∷ xs) o) whole
          (new_goes_first known seen xs rest x k s (keep_known-Kept known (x ∷ seen) xs rest e))
  ]
  | inr k ↦ absurd (ground (arith, k, h))
]

-- The allergens of a registration that succeeds are those that were asked for: a slug is in the
-- profile if and only if it was asked for, each slug stands there once, and each is a known one.
known_allergens_exact :
    (known want out : List String)
    → known_allergens known want ≡ ok out
    → ((s : String) → member s out ≡ member s want)
      × All (λ s. member s known ≡ true) out
      × NoDuplicates out
unfolding known_allergens
known_allergens_exact known [] out h =
    let none_left : [] ≡ out = ground (arith, h) in
    subst
      (λ o.
        ((s : String) → member s o ≡ false) × All (λ s. member s known ≡ true) o × NoDuplicates o)
      none_left ((λ s. refl), tt, tt)
known_allergens_exact known (x ∷ xs) out h =
    let (same, all, once) = keep_known-Kept known [] (x ∷ xs) out h in
    ((λ s. ground (arith, same s)), all, once)

-- No two users have one email.
abbrev pub UniqueEmails : (String → String → Bool) → List User → Type 0
UniqueEmails same users = (email : String) → tally (λ u. same u.email email) users ≤ 1

-- What the comparison of the column is: reflexive, symmetric and transitive.
abbrev pub IsEquality : (String → String → Bool) → Type 0
IsEquality same =
    ((a : String) → same a a ≡ true)
    × ((a b : String) → same a b ≡ true → same b a ≡ true)
    × ((a b c : String) → same a b ≡ true → same b c ≡ true → same a c ≡ true)

tally-same :
    (same : String → String → Bool) (a b : String) (us : List User)
    → IsEquality same
    → same a b ≡ true
    → tally (λ u. same u.email a) us ≡ tally (λ u. same u.email b) us
tally-same same a b [] q e = refl
tally-same same a b (u ∷ us) (r, s, t) e =
    let rest = tally-same same a b us (r, s, t) e in
    elim (Bool-cases (same u.email a)) [
      | inl x ↦ let y = t u.email a b x e in ground (arith, x, y, rest)
      | inr x ↦ elim (Bool-cases (same u.email b)) [
        | inl y ↦ absurd (ground (arith, x, t u.email b a y (s a b e)))
        | inr y ↦ ground (arith, x, y, rest)
      ]
    ]

tally-end :
    (test : User → Bool) (us : List User) (u : User)
    → tally test (us ++ u ∷ []) ≡ tally test us + (if test u then 1 else 0)
tally-end test [] u = omega arith
tally-end test (x ∷ xs) u = omega (arith, tally-end test xs u)

insert-UniqueEmails :
    (same : String → String → Bool) (us : List User) (u : User)
    → IsEquality same
    → tally (λ x. same x.email u.email) us ≡ 0
    → UniqueEmails same us
    → UniqueEmails same (us ++ u ∷ [])
insert-UniqueEmails same us u q free unique email = elim (Bool-cases (same u.email email)) [
  | inl e ↦
      let moved = tally-same same u.email email us q e in
      ground (arith, e, moved, free, tally-end (λ x. same x.email email) us u)
  | inr e ↦ ground (arith, e, unique email, tally-end (λ x. same x.email email) us u)
]

required-eq-ok {ℓ} :
    {A : Type ℓ} (o : Option A) (e : AuthError) (a : A) → required o e ≡ ok a → o ≡ some a
required-eq-ok none e a h = cc
required-eq-ok (some b) e a h = ground (arith, h)

-- What an account that was created leaves.
abbrev pub Created {ℓ} :
    {Form : Type ℓ} → Env → RegisterInput Form → String → Db Form → Db Form → Type ℓ
Created env i email db db' =
    (phone : String) × (hash : String) × (role : Role) × (tally (λ u. env.same_email u.email email)
        db.users
      ≡ 0)
    × (first (λ r. text_eq r.slug "customer") db.roles ≡ some role)
    × (db'.users ≡ db.users ++ user_of env email hash phone ∷ [])
    × (db'.user_roles ≡ db.user_roles ++ record { user_id = env.new_id; role_id = role.id } ∷ [])
    × (db'.addresses ≡ (with_address env i.address db).addresses)
    × (db'.tokens ≡ (with_address env i.address db).tokens)

create_account-Created {ℓ} :
    {Form : Type ℓ} (env : Env) (i : RegisterInput Form) (email name phone hash : String)
    (db db' : Db Form)
    → create_account env i email name phone hash db ≡ ok db'
    → Created env i email db db'
unfolding create_account
create_account-Created env i email name phone hash db db' h =
    let (free, h1) =
      refuse-eq-ok (ltb 0 (tally (λ u. env.same_email u.email email) db.users)) _ h in
    let (retail, _, h2) =
      >>=-eq-ok (required (first (λ c. text_eq c.slug "retail" && c.is_active) db.customer_types) _)
        _ h1 in
    let (allergens, _, h3) = >>=-eq-ok (known_allergens db.allergens i.allergens) _ h2 in
    let (role, r, h4) =
      >>=-eq-ok (required (first (λ r. text_eq r.slug "customer") db.roles) _) _ h3 in
    (
      phone,
      hash,
      role,
      ground (arith, free),
      required-eq-ok (first (λ r. text_eq r.slug "customer") db.roles) _ role r,
      ground (arith, h4),
      ground (arith, h4),
      ground (arith, h4),
      ground (arith, h4),
    )

-- A registration that succeeds makes an account of an email that no user had, so that emails stay
-- unique, with a password that the policy accepts; the account has the role 'customer' and no other
-- row of roles changes; the address that came with it, if any, is a default one; and no session is
-- opened. The comparison of the email column is an equality.
pub register_makes_account {ℓ} :
    {Form : Type ℓ} (env : Env) (i : RegisterInput Form) (id : ℕ) (db db' : Db Form)
    → IsEquality env.same_email
    → UniqueEmails env.same_email db.users
    → register env i db ≡ ok (id, db')
    → (email : String) × (env.clean_email i.email ≡ some email)
      × UniqueEmails env.same_email db'.users
      × (validate_password env.to_lower (env.runes i.password) ≡ ok tt)
      × (id ≡ env.new_id)
      × Created env i email db db'
unfolding register
register_makes_account env i id db db' q unique h =
    let (email, e, h1) = >>=-eq-ok (required (env.clean_email i.email) _) _ h in
    let (name, _, h2) = >>=-eq-ok (required (env.clean_name i.full_name) _) _ h1 in
    let (phone, _, h3) = >>=-eq-ok (required (env.clean_phone i.phone) _) _ h2 in
    let (policy, h4) = >>-eq-ok (validate_password env.to_lower (env.runes i.password)) h3 in
    let (hash, _, h5) = >>=-eq-ok (required (env.hash_password i.password) _) _ h4 in
    let (db1, made, h6) = >>=-eq-ok (create_account env i email name phone hash db) _ h5 in
    let same : db1 ≡ db' = ground (arith, h6) in
    let (phone', hash', role, free, r, users, roles, addresses, tokens) =
      subst (λ d. Created env i email db d) same
        (create_account-Created env i email name phone hash db db1 made) in
    (
      email,
      required-eq-ok (env.clean_email i.email) _ email e,
      subst (UniqueEmails env.same_email) (sym users) (
          insert-UniqueEmails env.same_email db.users (user_of env email hash' phone') q free
            unique),
      policy,
      ground (arith, h6),
      (phone', hash', role, free, r, users, roles, addresses, tokens),
    )
