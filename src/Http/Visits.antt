-- ===== src/Http/Visits.antt =====
-- A member of staff opens the back office, and a visitor registers with a text that is no email.
use evermore.Base.{
  ℕ, ◌≡◌, refl, inl, inr, true, false, List, [], ◌∷◌, ◌++◌, none, some, Any, ok, replicate,
}
use evermore.Int64.{pos}
use evermore.Auth.Tables.{Db, Env, Principal}
use evermore.Auth.Principals.{
  can, roles_of, slugs, any_staff, codes_with, codes_of_role, codes_of, load_principal,
}
use evermore.Http.Addresses.Forms.{AddressForm}
use evermore.Http.Guards.{
  Incoming, Service, verified, authenticate, require_auth_page, require_permission_page, rate_limit,
}
use evermore.Http.Routes.{
  Route, routes, api_routes, public_routes, app_routes, office_routes, office, at, post, permitted,
  limited, publish_meal, pass, pass_all,
}
use evermore.Http.Routes.Access.{routes-guard}
use evermore.Http.Limits.{rl_write, find, put, sweep, allow}
use evermore.Http.Accounts.{RegisterRequest, status, register}
use evermore.Http.Accounts.Answers.{register-guarded}
use evermore.Http.Examples.{floats, unicode}

later {ℓ} : {A : Type ℓ} (P : A → Type 0) (xs ys : List A) → Any P ys → Any P (xs ++ ys)
later P [] ys h = h
later P (x ∷ xs) ys h = inr (later P xs ys h)

abbrev db : Db (AddressForm ℕ)
db = record {
  users =
      record {
        id = 1;
        email = "a@b.id";
        password_hash = "right";
        phone = "+62812";
        is_active = true;
        failed_login_count = pos 0;
        locked_until = none;
        last_login_at = none;
      }
      ∷ [];
  tokens = [];
  roles = record { id = 3; slug = "kitchen"; is_staff = true } ∷ [];
  user_roles = record { user_id = 1; role_id = 3 } ∷ [];
  role_permissions = record { role_id = 3; permission_id = 4 } ∷ [];
  permissions = record { id = 4; code = "menu.manage" } ∷ [];
  customer_types = record { id = 9; slug = "retail"; is_active = true } ∷ [];
  customers = [];
  staff = [];
  addresses = [];
  allergens = [];
}

abbrev service : Service (AddressForm ℕ)
service = record { verify = λ t. some 1; db = db }

abbrev incoming : Incoming
incoming = record {
  token = b't' ∷ [];
  client_ip = "10.0.0.1";
  uri = "/bo/menu/publish";
  now = 20;
  later = 21;
}

abbrev member : Principal
member = record {
  user_id = 1;
  email = "a@b.id";
  roles = "kitchen" ∷ [];
  permissions = "menu.manage" ∷ [];
  customer_id = none;
  kitchen_id = none;
  is_staff = true;
}

abbrev publish : Route
publish =
    at post "/bo/menu/publish" (office (permitted "menu.manage" ∷ limited rl_write ∷ []))
      publish_meal

is_route : Any (λ x. x ≡ publish) routes
is_route =
    later (λ x. x ≡ publish) api_routes (public_routes ++ (app_routes ++ office_routes))
      (later (λ x. x ≡ publish) public_routes (app_routes ++ office_routes)
        (later (λ x. x ≡ publish) app_routes office_routes (inr (inr (inl refl)))))

goes_on : (pass_all service incoming publish.guards none []).0 ≡ ok (some member)
unfolding pass_all pass authenticate require_auth_page require_permission_page rate_limit allow find
    put sweep can load_principal roles_of slugs any_staff codes_with codes_of_role codes_of
goes_on = refl

routes-guard_example :
    (some member ≡ verified service (b't' ∷ [])) × (can (some member) "menu.manage" ≡ true)
routes-guard_example =
    routes-guard service incoming publish "menu.manage" (some member) [] is_route refl goes_on

abbrev env : Env
env = record {
  refresh_ttl = 1000;
  same_email = λ a b. false;
  clean_email = λ e. none;
  clean_name = λ e. some e;
  clean_phone = λ e. some e;
  verify_password = λ p h. none;
  hash_password = λ p. some p;
  needs_rehash = λ h. false;
  hash_token = λ t. t;
  sign = λ p t. none;
  runes = λ p. replicate 12 b'x';
  to_lower = λ p. p;
  now = 5;
  new_id = 5;
  new_customer_id = 6;
  new_address_id = 7;
  new_token = none;
}

abbrev sign_up : RegisterRequest ℕ
sign_up = record {
  email = "nobody";
  password = "a long password";
  full_name = "A B";
  phone = "+62812345678";
  address = none;
  allergens = [];
}

register-guarded_example :
    (status (register unicode floats env (some sign_up) db).0.outcome ≡ 500)
    × ((register unicode floats env (some sign_up) db).1 ≡ db)
register-guarded_example = register-guarded unicode floats env sign_up db none refl refl
