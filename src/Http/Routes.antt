-- ===== src/Http/Routes.antt =====
-- The routes of `NewRouter` in internal/adapter/http/router.go that a handler of the adapter serves,
-- with the middleware of each in its order.
pub mod Access
use Prim.Native.String.{String}
use evermore.Base.{List, [], ◌∷◌, ◌++◌, Option, none, some, Result, ok, err, map}
use evermore.Auth.Tables.{Principal}
use evermore.Http.Sessions.{Reply}
use evermore.Http.Limits.{Limit, Limiter, rl_login, rl_register, rl_refresh, rl_write}
use evermore.Http.Guards.{
  Incoming, Service, authenticate, authenticate_optional, require_auth, require_auth_page,
  require_permission_page, rate_limit,
}

pub data Method : Type 0 where
  get post : Method

pub data Guard : Type 0 where
  authenticated optional signed_in signed_in_page : Guard
  permitted : String → Guard
  limited : Limit → Guard

pub data Handler : Type 0 where
  login register refresh logout me : Handler
  home menu meal packages how_it_works corporate coverage privacy terms : Handler
  login_page sign_out_page register_page cart add_to_cart checkout place_order payment : Handler
  upload_proof orders my_packages addresses add_address edit_address default_address : Handler
  remove_address allergies save_allergies buy_package : Handler
  dashboard menu_calendar publish_meal payment_queue verify_payment reject_payment : Handler

pub record Route : Type 0 where
  pub method : Method
  pub path : String
  pub guards : List Guard
  pub handler : Handler

abbrev pub at : Method → String → List Guard → Handler → Route
at method path guards handler = record {
  method = method;
  path = path;
  guards = guards;
  handler = handler;
}

abbrev pub api_routes : List Route
api_routes =
    at post "/api/v1/auth/login" (authenticated ∷ limited rl_login ∷ []) login
    ∷ at post "/api/v1/auth/register" (authenticated ∷ limited rl_register ∷ []) register
    ∷ at post "/api/v1/auth/refresh" (authenticated ∷ limited rl_refresh ∷ []) refresh
    ∷ at post "/api/v1/auth/logout" (authenticated ∷ []) logout
    ∷ at get "/api/v1/auth/me" (authenticated ∷ signed_in ∷ []) me
    ∷ []

abbrev pub public_routes : List Route
public_routes =
    at get "/" (optional ∷ []) home
    ∷ at get "/menu" (optional ∷ []) menu
    ∷ at get "/menu/:id" (optional ∷ []) meal
    ∷ at get "/packages" (optional ∷ []) packages
    ∷ at get "/how-it-works" (optional ∷ []) how_it_works
    ∷ at get "/corporate" (optional ∷ []) corporate
    ∷ at get "/delivery-area" (optional ∷ []) coverage
    ∷ at get "/privacy-policy" (optional ∷ []) privacy
    ∷ at get "/terms" (optional ∷ []) terms
    ∷ []

abbrev pub app_routes : List Route
app_routes =
    at get "/app/sign-in" (authenticated ∷ []) login_page
    ∷ at post "/app/sign-out" (authenticated ∷ limited rl_write ∷ []) sign_out_page
    ∷ at get "/app/register" (authenticated ∷ []) register_page
    ∷ at get "/app/cart" (authenticated ∷ []) cart
    ∷ at post "/app/cart/add" (authenticated ∷ limited rl_write ∷ []) add_to_cart
    ∷ at get "/app/checkout" (authenticated ∷ []) checkout
    ∷ at post "/app/checkout" (authenticated ∷ signed_in ∷ limited rl_write ∷ []) place_order
    ∷ at get "/app/payment/:id" (authenticated ∷ []) payment
    ∷ at post "/app/payment/:id/proof" (authenticated ∷ signed_in ∷ limited rl_write ∷ [])
        upload_proof
    ∷ at get "/app/orders" (authenticated ∷ []) orders
    ∷ at get "/app/packages" (authenticated ∷ []) my_packages
    ∷ at get "/app/addresses" (authenticated ∷ []) addresses
    ∷ at post "/app/addresses" (authenticated ∷ limited rl_write ∷ []) add_address
    ∷ at post "/app/addresses/:id/edit" (authenticated ∷ limited rl_write ∷ []) edit_address
    ∷ at post "/app/addresses/:id/default" (authenticated ∷ limited rl_write ∷ []) default_address
    ∷ at post "/app/addresses/:id/delete" (authenticated ∷ limited rl_write ∷ []) remove_address
    ∷ at get "/app/allergies" (authenticated ∷ []) allergies
    ∷ at post "/app/allergies" (authenticated ∷ limited rl_write ∷ []) save_allergies
    ∷ at post "/app/packages/buy" (authenticated ∷ limited rl_write ∷ []) buy_package
    ∷ []

-- The guards of the back office before those of a route.
abbrev pub office : List Guard → List Guard
office guards = authenticated ∷ signed_in_page ∷ guards

abbrev pub office_routes : List Route
office_routes =
    at get "/bo" (office (permitted "dashboard.view" ∷ [])) dashboard
    ∷ at get "/bo/menu" (office (permitted "menu.view" ∷ [])) menu_calendar
    ∷ at post "/bo/menu/publish" (office (permitted "menu.manage" ∷ limited rl_write ∷ []))
        publish_meal
    ∷ at get "/bo/payments" (office (permitted "payment.view" ∷ [])) payment_queue
    ∷ at post "/bo/payments/verify" (office (permitted "payment.verify" ∷ limited rl_write ∷ []))
        verify_payment
    ∷ at post "/bo/payments/reject" (office (permitted "payment.verify" ∷ limited rl_write ∷ []))
        reject_payment
    ∷ []

abbrev pub routes : List Route
routes = api_routes ++ (public_routes ++ (app_routes ++ office_routes))

-- What follows a guard that lets a request pass.
abbrev pub then_pass :
    Result Reply (Option Principal) × Limiter
    → (Option Principal → Limiter → Result Reply (Option Principal) × Limiter)
    → Result Reply (Option Principal) × Limiter
then_pass (err reply, ws) next = (err reply, ws)
then_pass (ok p, ws) next = next p ws

module _ {ℓ} {Form : Type ℓ} where
  -- One guard: the request goes on with its principal, or is answered.
  unfoldable pub pass :
      Service Form
      → Incoming
      → Guard
      → Option Principal
      → Limiter
      → Result Reply (Option Principal) × Limiter
  pass s i authenticated p ws = (authenticate s i.token, ws)
  pass s i optional p ws = (ok (authenticate_optional s i.token).0, ws)
  pass s i signed_in p ws = (require_auth p, ws)
  pass s i signed_in_page p ws = (require_auth_page i.uri p, ws)
  pass s i (permitted perm) p ws = (require_permission_page perm p, ws)
  pass s i (limited lim) p ws = rate_limit lim i p ws

  -- The chain of a route, up to its handler.
  unfoldable pub pass_all :
      Service Form
      → Incoming
      → List Guard
      → Option Principal
      → Limiter
      → Result Reply (Option Principal) × Limiter
  pass_all s i [] p ws = (ok p, ws)
  pass_all s i (g ∷ gs) p ws = then_pass (pass s i g p ws) (pass_all s i gs)
