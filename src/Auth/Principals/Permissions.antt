-- ===== src/Auth/Principals/Permissions.antt =====
-- What a principal that was loaded may do.
use Prim.Native.String.{String}
use evermore.Base.{
  ℕ, ◌==◌, ==_iff, ◌≡◌, refl, ◌⊎◌, ◌↔◌, inl, inr, arith, Bool, true, false, ◌||◌, List, [], ◌∷◌,
  ◌++◌, some, ok, Any, if◌then◌else◌, first, Bool-cases, Option-cases,
}
use evermore.Text.{text_eq, text_eq_iff}
use evermore.Auth.Tables.{UserRole, RolePermission, Permission, Db, Principal}
use evermore.Auth.Principals.{member, can, codes_with, codes_of_role, codes_of, load_principal}

-- The row names a permission of the code; the row gives the role such a permission; the row gives the
-- user such a role.
abbrev pub Names : ℕ → String → Permission → Type 0
Names id code p = (p.id ≡ id) × (p.code ≡ code)

abbrev Grants : ℕ → String → List Permission → RolePermission → Type 0
Grants role_id code perms g = (g.role_id ≡ role_id) × Any (Names g.permission_id code) perms

abbrev pub Holds : ℕ → String → List RolePermission → List Permission → UserRole → Type 0
Holds user_id code grants perms u = (u.user_id ≡ user_id) × Any (Grants u.role_id code perms) grants

member-append :
    (c : String) (xs ys : List String) → member c (xs ++ ys) ≡ (member c xs || member c ys)
member-append c [] ys = refl
member-append c (x ∷ xs) ys = ground (arith, member-append c xs ys)

member-codes_with :
    (c : String) (id : ℕ) (ps : List Permission)
    → (member c (codes_with id ps) ≡ true) ↔ Any (Names id c) ps
unfolding codes_with
member-codes_with c id [] = (λ h. absurd (ground (arith, h)), λ x. absurd x)
member-codes_with c id (p ∷ ps) =
    let (f, g) = member-codes_with c id ps in
    (
      λ h. elim (Bool-cases (p.id == id)) [
        | inl e ↦ elim (Bool-cases (text_eq p.code c)) [
          | inl t ↦ inl ((==_iff p.id id).0 e, (text_eq_iff p.code c).0 t)
          | inr t ↦ inr (f (ground (arith, e, t, h)))
        ]
        | inr e ↦ inr (f (ground (arith, e, h)))
      ],
      λ x. elim x [
        | inl (e, t) ↦
            let e' = (==_iff p.id id).1 e in
            let t' = (text_eq_iff p.code c).1 t in ground (arith, e', t')
        | inr more ↦
            let rest = g more in
            elim (Bool-cases (p.id == id)) [
              | inl e ↦ ground (arith, e, rest)
              | inr e ↦ ground (arith, e, rest)
            ]
      ],
    )

-- A row whose test holds puts its codes before those of the rest.
with_rest :
    (test : Bool) (c : String) (xs rest : List String) {X Y Z : Type 0}
    → (test ≡ true) ↔ X
    → (member c xs ≡ true) ↔ Y
    → (member c rest ≡ true) ↔ Z
    → (member c (if test then xs ++ rest else rest) ≡ true) ↔ ((X × Y) ⊎ Z)
with_rest true c xs rest x y z = (
  λ h. elim (Bool-cases (member c xs)) [
    | inl m ↦ inl (x.0 refl, y.0 m)
    | inr m ↦ inr (z.0 (ground (arith, m, h, member-append c xs rest)))
  ],
  λ s. elim s [
    | inl (_, b) ↦ let m = y.1 b in ground (arith, m, member-append c xs rest)
    | inr r ↦
        let m = z.1 r in
        elim (Bool-cases (member c xs)) [
          | inl k ↦ ground (arith, k, member-append c xs rest)
          | inr k ↦ ground (arith, k, m, member-append c xs rest)
        ]
  ],
)
with_rest false c xs rest x y z =
    (λ h. inr (z.0 h), λ s. elim s [ inl (a, _) ↦ absurd (ground (arith, x.1 a)) | inr r ↦ z.1 r ])

member-codes_of_role :
    (c : String) (role_id : ℕ) (gs : List RolePermission) (ps : List Permission)
    → (member c (codes_of_role role_id gs ps) ≡ true) ↔ Any (Grants role_id c ps) gs
unfolding codes_of_role
member-codes_of_role c role_id [] ps = (λ h. absurd (ground (arith, h)), λ x. absurd x)
member-codes_of_role c role_id (g ∷ gs) ps =
    with_rest (g.role_id == role_id) c (codes_with g.permission_id ps) (codes_of_role role_id gs ps)
      (==_iff g.role_id role_id) (member-codes_with c g.permission_id ps)
      (member-codes_of_role c role_id gs ps)

member-codes_of :
    (c : String) (user_id : ℕ) (us : List UserRole) (gs : List RolePermission)
    (ps : List Permission)
    → (member c (codes_of user_id us gs ps) ≡ true) ↔ Any (Holds user_id c gs ps) us
unfolding codes_of
member-codes_of c user_id [] gs ps = (λ h. absurd (ground (arith, h)), λ x. absurd x)
member-codes_of c user_id (u ∷ us) gs ps =
    with_rest (u.user_id == user_id) c (codes_of_role u.role_id gs ps) (codes_of user_id us gs ps)
      (==_iff u.user_id user_id) (member-codes_of_role c u.role_id gs ps)
      (member-codes_of c user_id us gs ps)

load_principal-codes {ℓ} :
    {Form : Type ℓ} (user_id : ℕ) (db : Db Form) (p : Principal)
    → load_principal user_id db ≡ ok p
    → p.permissions ≡ codes_of user_id db.user_roles db.role_permissions db.permissions
unfolding load_principal
load_principal-codes user_id db p h = elim (Option-cases (first (λ u. u.id == user_id) db.users)) [
  | inl n ↦ absurd (ground (arith, n, h))
  | inr (u, f) ↦ ground (arith, f, h)
]

-- Deny by default: a principal that was loaded can do what a permission names if and only if one of
-- the user's roles has been granted a permission of that code.
pub can_iff_granted {ℓ} :
    {Form : Type ℓ} (user_id : ℕ) (code : String) (db : Db Form) (p : Principal)
    → load_principal user_id db ≡ ok p
    → (can (some p) code ≡ true)
      ↔ Any (Holds user_id code db.role_permissions db.permissions) db.user_roles
unfolding can
can_iff_granted user_id code db p h =
    rw (can, load_principal-codes user_id db p h)
      (member-codes_of code user_id db.user_roles db.role_permissions db.permissions)
