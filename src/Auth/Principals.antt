-- ===== src/Auth/Principals.antt =====
-- `LoadPrincipal` and `Can`: what a request may do.
pub mod Permissions
use Prim.Native.String.{String}
use evermore.Base.{
  ℕ, ◌==◌, ==_iff, ◌≡◌, refl, sym, ◌⊎◌, ◌↔◌, inl, inr, arith, Bool, true, false, ◌||◌, List, [],
  ◌∷◌, ◌++◌, Option, none, some, if◌then◌else◌, Result, ok, err, ◌>>=◌, Any, first, Bool-cases,
}
use evermore.Text.{text_eq, text_eq_iff}
use evermore.Auth.Tables.{
  User, Role, UserRole, RolePermission, Permission, Customer, StaffProfile, Db, Principal,
  AuthError, no_rows,
}

-- Whether a text stands in a list.
abbrev pub member : String → List String → Bool
member s [] = false
member s (x ∷ xs) = text_eq x s || member s xs

unfoldable pub can : Option Principal → String → Bool
can none perm = false
can (some p) perm = member perm p.permissions

abbrev roles_with : ℕ → List Role → List Role
roles_with id [] = []
roles_with id (r ∷ rs) = let rest = roles_with id rs in if r.id == id then r ∷ rest else rest

-- The roles of the first query, a row of user_role at a time.
unfoldable pub roles_of : ℕ → List UserRole → List Role → List Role
roles_of user_id [] roles = []
roles_of user_id (u ∷ us) roles =
    let rest = roles_of user_id us roles in
    if u.user_id == user_id then roles_with u.role_id roles ++ rest else rest

unfoldable pub slugs : List Role → List String
slugs [] = []
slugs (r ∷ rs) = r.slug ∷ slugs rs

unfoldable pub any_staff : List Role → Bool
any_staff [] = false
any_staff (r ∷ rs) = r.is_staff || any_staff rs

-- The second query's joins, from the inside out: the codes of a permission, of a role, of a user.
unfoldable pub codes_with : ℕ → List Permission → List String
codes_with id [] = []
codes_with id (p ∷ ps) = let rest = codes_with id ps in if p.id == id then p.code ∷ rest else rest

unfoldable pub codes_of_role : ℕ → List RolePermission → List Permission → List String
codes_of_role role_id [] perms = []
codes_of_role role_id (g ∷ gs) perms =
    let rest = codes_of_role role_id gs perms in
    if g.role_id == role_id then codes_with g.permission_id perms ++ rest else rest

unfoldable pub codes_of : ℕ → List UserRole → List RolePermission → List Permission → List String
codes_of user_id [] grants perms = []
codes_of user_id (u ∷ us) grants perms =
    let rest = codes_of user_id us grants perms in
    if u.user_id == user_id then codes_of_role u.role_id grants perms ++ rest else rest

abbrev pub customer_of : Option Customer → Option ℕ
customer_of none = none
customer_of (some c) = some c.id

abbrev kitchen_of : Option StaffProfile → Option ℕ
kitchen_of none = none
kitchen_of (some s) = s.kitchen_id

unfoldable pub load_principal {ℓ} : {Form : Type ℓ} → ℕ → Db Form → Result AuthError Principal
load_principal user_id db = elim (first (λ u. u.id == user_id) db.users) [
  | none ↦ err no_rows
  | some u ↦ ok (record {
    user_id = user_id;
    email = u.email;
    roles = slugs (roles_of user_id db.user_roles db.roles);
    permissions = codes_of user_id db.user_roles db.role_permissions db.permissions;
    customer_id = customer_of (first (λ c. c.user_id == user_id) db.customers);
    kitchen_id = kitchen_of (first (λ s. s.user_id == user_id) db.staff);
    is_staff = any_staff (roles_of user_id db.user_roles db.roles);
  })
]
