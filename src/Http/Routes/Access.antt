-- ===== src/Http/Routes/Access.antt =====
-- Who reaches a handler.
use Prim.Native.String.{String}
use evermore.Base.{
  Bool, true, false, ◌&&◌, ◌||◌, ◌≡◌, refl, sym, subst, ◌∙◌, ◌⊎◌, inl, inr, List, [], ◌∷◌, Option,
  none, some, Any, Result, ok, err, ok_inj, Bool-cases, arith,
}
use evermore.Text.{text_eq, text_eq_iff}
use evermore.Auth.Tables.{Principal}
use evermore.Auth.Principals.{can}
use evermore.Platform.Sanitize.{same_text}
use evermore.Http.Sessions.{Reply}
use evermore.Http.Limits.{Limiter}
use evermore.Http.Guards.{
  Incoming, Service, verified, authenticate, authenticate_optional, require_auth, require_auth_page,
  require_permission_page, rate_limit,
}
use evermore.Http.Routes.{
  Guard, authenticated, optional, signed_in, signed_in_page, permitted, limited, Handler, dashboard,
  menu_calendar, publish_meal, payment_queue, verify_payment, reject_payment, Route, routes, pass,
  then_pass, pass_all,
}

-- The permission that a handler of the back office stands for.
abbrev permission_of : Handler → Option String
permission_of dashboard = some "dashboard.view"
permission_of menu_calendar = some "menu.view"
permission_of publish_meal = some "menu.manage"
permission_of payment_queue = some "payment.view"
permission_of verify_payment = some "payment.verify"
permission_of reject_payment = some "payment.verify"
permission_of _ = none

-- A guard that leaves the principal as it is.
abbrev keeps_principal : Guard → Bool
keeps_principal authenticated = false
keeps_principal optional = false
keeps_principal signed_in = true
keeps_principal signed_in_page = true
keeps_principal (permitted perm) = true
keeps_principal (limited lim) = true

abbrev all_keep : List Guard → Bool
all_keep [] = true
all_keep (g ∷ gs) = keeps_principal g && all_keep gs

-- A chain asks for a permission of the principal that it goes on with.
abbrev is_permitted : String → Guard → Bool
is_permitted perm authenticated = false
is_permitted perm optional = false
is_permitted perm signed_in = false
is_permitted perm signed_in_page = false
is_permitted perm (permitted p) = text_eq p perm
is_permitted perm (limited lim) = false

abbrev pub asks : String → List Guard → Bool
asks perm [] = false
asks perm (g ∷ gs) = (is_permitted perm g && all_keep gs) || asks perm gs

abbrev asks_of : Option String → List Guard → Bool
asks_of none gs = true
asks_of (some perm) gs = asks perm gs

abbrev all_routes : (Route → Bool) → List Route → Bool
all_routes p [] = true
all_routes p (r ∷ rs) = p r && all_routes p rs

-- The routes of the back office ask for the permissions of their handlers.
routes_ask : all_routes (λ r. asks_of (permission_of r.handler) r.guards) routes ≡ true
routes_ask = refl

at_route :
    (p : Route → Bool) (rs : List Route) (r : Route)
    → all_routes p rs ≡ true
    → Any (λ x. x ≡ r) rs
    → p r ≡ true
at_route p [] r h m = elim m [ ]
at_route p (x ∷ xs) r h (inl e) = subst (λ y. p y ≡ true) e (ground (arith, h))
at_route p (x ∷ xs) r h (inr m) = at_route p xs r (ground (arith, h)) m

then_pass-eq-ok :
    (out : Result Reply (Option Principal) × Limiter)
    (next : Option Principal → Limiter → Result Reply (Option Principal) × Limiter)
    (q : Option Principal)
    → (then_pass out next).0 ≡ ok q
    → (p : Option Principal) × (out.0 ≡ ok p) × ((next p out.1).0 ≡ ok q)
then_pass-eq-ok (err reply, ws) next q h = cc
then_pass-eq-ok (ok p, ws) next q h = (p, refl, h)

module _ {ℓ} {Form : Type ℓ} (s : Service Form) (i : Incoming) where
  -- The principal of a request is none, or was loaded for its token.
  abbrev Fresh : Option Principal → Type 0
  Fresh p = (p ≡ none) ⊎ (p ≡ verified s i.token)

  kept_principal :
      (g : Guard) (p q : Option Principal) (ws : Limiter)
      → keeps_principal g ≡ true
      → (pass s i g p ws).0 ≡ ok q
      → q ≡ p
  unfolding pass require_auth require_auth_page require_permission_page rate_limit
  kept_principal authenticated p q ws k h = cc
  kept_principal optional p q ws k h = cc
  kept_principal signed_in none q ws k h = cc
  kept_principal signed_in (some p) q ws k h = cc
  kept_principal signed_in_page none q ws k h = cc
  kept_principal signed_in_page (some p) q ws k h = cc
  kept_principal (permitted perm) p q ws k h = ground arith
  kept_principal (limited lim) p q ws k h = ground arith

  kept_chain :
      (gs : List Guard) (p q : Option Principal) (ws : Limiter)
      → all_keep gs ≡ true
      → (pass_all s i gs p ws).0 ≡ ok q
      → q ≡ p
  unfolding pass_all
  kept_chain [] p q ws k h = cc
  kept_chain (g ∷ gs) p q ws k h =
      let (p', e, rest) = then_pass-eq-ok (pass s i g p ws) (pass_all s i gs) q h in
      kept_chain gs p' q (pass s i g p ws).1 (ground (arith, k)) rest
      ∙ kept_principal g p p' ws (ground (arith, k)) e

  permitted_step :
      (perm : String) (g : Guard) (p q : Option Principal) (ws : Limiter)
      → is_permitted perm g ≡ true
      → (pass s i g p ws).0 ≡ ok q
      → can q perm ≡ true
  unfolding pass require_permission_page
  permitted_step perm authenticated p q ws k h = cc
  permitted_step perm optional p q ws k h = cc
  permitted_step perm signed_in p q ws k h = cc
  permitted_step perm signed_in_page p q ws k h = cc
  permitted_step perm (permitted x) p q ws k h =
      subst (λ y. can q y ≡ true) ((text_eq_iff x perm).0 k) (ground arith)
  permitted_step perm (limited lim) p q ws k h = cc

  asks_chain :
      (perm : String) (gs : List Guard) (p q : Option Principal) (ws : Limiter)
      → asks perm gs ≡ true
      → (pass_all s i gs p ws).0 ≡ ok q
      → can q perm ≡ true
  unfolding pass_all
  asks_chain perm [] p q ws k h = cc
  asks_chain perm (g ∷ gs) p q ws k h =
      let (p', e, rest) = then_pass-eq-ok (pass s i g p ws) (pass_all s i gs) q h in
      elim (Bool-cases (is_permitted perm g && all_keep gs)) [
        | inl y ↦
            subst (λ x. can x perm ≡ true)
              (sym (kept_chain gs p' q (pass s i g p ws).1 (ground (arith, y)) rest))
              (permitted_step perm g p p' ws (ground (arith, y)) e)
        | inr y ↦ asks_chain perm gs p' q (pass s i g p ws).1 (ground (arith, k, y)) rest
      ]

  Fresh-step :
      (g : Guard) (p q : Option Principal) (ws : Limiter)
      → Fresh p
      → (pass s i g p ws).0 ≡ ok q
      → Fresh q
  unfolding pass authenticate authenticate_optional
  Fresh-step authenticated p q ws f h = elim (Bool-cases (same_text i.token [])) [
    | inl y ↦ inl (ground (arith, y))
    | inr y ↦ inr (ground (arith, y))
  ]
  Fresh-step optional p q ws f h = elim (Bool-cases (same_text i.token [])) [
    | inl y ↦ inl (ground (arith, y))
    | inr y ↦ inr (ground (arith, y))
  ]
  Fresh-step signed_in p q ws f h = subst Fresh (sym (kept_principal signed_in p q ws refl h)) f
  Fresh-step signed_in_page p q ws f h =
      subst Fresh (sym (kept_principal signed_in_page p q ws refl h)) f
  Fresh-step (permitted perm) p q ws f h =
      subst Fresh (sym (kept_principal (permitted perm) p q ws refl h)) f
  Fresh-step (limited lim) p q ws f h =
      subst Fresh (sym (kept_principal (limited lim) p q ws refl h)) f

  Fresh-chain :
      (gs : List Guard) (p q : Option Principal) (ws : Limiter)
      → Fresh p
      → (pass_all s i gs p ws).0 ≡ ok q
      → Fresh q
  unfolding pass_all
  Fresh-chain [] p q ws f h = subst Fresh (ok_inj p q h) f
  Fresh-chain (g ∷ gs) p q ws f h =
      let (p', e, rest) = then_pass-eq-ok (pass s i g p ws) (pass_all s i gs) q h in
      Fresh-chain gs p' q (pass s i g p ws).1 (Fresh-step g p p' ws f e) rest

-- A request that reaches a handler of the back office has a principal which was loaded from the
-- database for the token it carries, and which has the handler's permission there: on every route,
-- whatever the limiter holds.
pub routes-guard {ℓ} :
    {Form : Type ℓ} (s : Service Form) (i : Incoming) (r : Route) (perm : String)
    (q : Option Principal) (ws : Limiter)
    → Any (λ x. x ≡ r) routes
    → permission_of r.handler ≡ some perm
    → (pass_all s i r.guards none ws).0 ≡ ok q
    → (q ≡ verified s i.token) × (can q perm ≡ true)
unfolding can
routes-guard s i r perm q ws m needs h =
    let asked : asks perm r.guards ≡ true =
      subst (λ o. asks_of o r.guards ≡ true) needs
        (at_route (λ x. asks_of (permission_of x.handler) x.guards) routes r routes_ask m) in
    let allowed = asks_chain s i perm r.guards none q ws asked h in
    (elim (Fresh-chain s i r.guards none q ws (inl refl) h) [ inl e ↦ cc | inr e ↦ e ], allowed)
