-- ===== src/Http/Guards.antt =====
-- The middleware that decides whether a request goes on: `Authenticate`, `AuthenticateOptional`,
-- `RequireAuth`, `RequireAuthPage`, `RequirePermission`, `RequirePermissionPage` and `bearer` of
-- internal/adapter/http/auth.go, and `RateLimit` of ratelimit.go.
use Prim.Native.String.{String}
use Prim.Native.String.{◌++◌ as concat}
use evermore.Base.{
  ℕ, ◌+◌, ◌-◌, ◌/◌, Bool, true, false, ◌&&◌, ltb, leb, ◌==◌, [], ◌∷◌, Option, none, some,
  if◌then◌else◌, length, Result, ok, err,
}
use evermore.Auth.Tables.{Db, Principal}
use evermore.Auth.Principals.{load_principal, can}
use evermore.Auth.Sessions.{take}
use evermore.Platform.Sanitize.{Text, same_text, trim_space}
use evermore.Platform.Errors.{as_error, unauthenticated, forbidden, rate_limited}
use evermore.Http.Sessions.{Reply, to_sign_in, forbidden_page, failed, too_many}
use evermore.Http.Decimals.{itoa}
use evermore.Http.Limits.{Limit, Limiter, find, allow}

-- `strings.EqualFold` with a text of ASCII letters that no other letter folds to.
abbrev pub lower : ℕ → ℕ
lower r = if leb b'A' r && leb r b'Z' then r + 32 else r

abbrev equal_fold : Text → Text → Bool
equal_fold [] [] = true
equal_fold [] (b ∷ bs) = false
equal_fold (a ∷ rest) [] = false
equal_fold (a ∷ rest) (b ∷ bs) = lower a == lower b && equal_fold rest bs

abbrev drop_runes : ℕ → Text → Text
drop_runes n [] = []
drop_runes n (r ∷ rs) = if n == 0 then r ∷ rs else drop_runes (n - 1) rs

-- "Bearer "
abbrev bearer_prefix : Text
bearer_prefix = b'B' ∷ b'e' ∷ b'a' ∷ b'r' ∷ b'e' ∷ b'r' ∷ b' ' ∷ []

-- The token of a request: of its Authorization header, or else of its session cookie; a missing
-- cookie is an empty one.
unfoldable bearer : (ℕ → Bool) → Text → Text → Text
bearer is_space header cookie =
    if ltb 7 (length header) && equal_fold (take 7 header) bearer_prefix
    then trim_space is_space (drop_runes 7 header)
    else cookie

-- A request as the middleware sees it, with the clock before and after the limiter's answer.
pub record Incoming : Type 0 where
  pub token : Text
  pub client_ip : String
  pub uri : String
  pub now : ℕ
  pub later : ℕ

-- What the middleware reads beside the request; `verify` is the token issuer's, and none is an error.
pub record Service {ℓ} (Form : Type ℓ) : Type ℓ where
  pub verify : Text → Option ℕ
  pub db : Db Form

abbrev session_over : Reply
session_over = failed (as_error (unauthenticated "Your session is invalid or has expired."))

module _ {ℓ} {Form : Type ℓ} where
  -- The principal of a token that is there.
  abbrev pub verified : Service Form → Text → Option Principal
  verified s token = elim (s.verify token) [
    | none ↦ none
    | some user_id ↦ elim (load_principal user_id s.db) [ err e ↦ none | ok p ↦ some p ]
  ]

  unfoldable pub authenticate : Service Form → Text → Result Reply (Option Principal)
  authenticate s token =
      if same_text token []
      then ok none
      else elim (verified s token) [ none ↦ err session_over | some p ↦ ok (some p) ]

  -- The principal, and whether the session cookie is cleared.
  unfoldable pub authenticate_optional : Service Form → Text → Option Principal × Bool
  authenticate_optional s token =
      if same_text token []
      then (none, false)
      else elim (verified s token) [ none ↦ (none, true) | some p ↦ (some p, false) ]

unfoldable pub require_auth : Option Principal → Result Reply (Option Principal)
require_auth none = err (failed (as_error (unauthenticated "")))
require_auth (some p) = ok (some p)

unfoldable pub require_auth_page : String → Option Principal → Result Reply (Option Principal)
require_auth_page uri none = err (to_sign_in uri)
require_auth_page uri (some p) = ok (some p)

unfoldable require_permission : String → Option Principal → Result Reply (Option Principal)
require_permission perm none = err (failed (as_error (unauthenticated "")))
require_permission perm (some p) =
    if can (some p) perm
    then ok (some p)
    else err
        (failed (as_error (forbidden (concat "You do not have permission " (concat perm ".")))))

unfoldable pub require_permission_page : String → Option Principal → Result Reply (Option Principal)
require_permission_page perm p = if can p perm then ok p else err forbidden_page

-- `itoa(int(retry.Seconds())+1)`, where the window of the key is over at its reset.
abbrev retry_after : String → ℕ → Limiter → Option Text
retry_after key later ws = elim (find key ws) [
  | none ↦ itoa false 1
  | some w ↦ itoa false ((w.reset - later) / 1000000000 + 1)
]

unfoldable pub rate_limit :
    Limit → Incoming → Option Principal → Limiter → Result Reply (Option Principal) × Limiter
rate_limit lim i p ws =
    let key = concat lim.name (concat "|" i.client_ip) in
    let (pass, ws') = allow key lim i.now ws in
    if pass then (ok p, ws') else (
      err (
          too_many (retry_after key i.later ws')
            (as_error (rate_limited "Too many requests. Try again shortly."))),
      ws',
    )
