-- ===== src/Http/Pages.antt =====
-- What the HTTP surface puts around its pages: `RequestID`, `SecurityHeaders` and `CORS` of
-- internal/adapter/http/middleware.go, and the redirects, `Robots`, `Sitemap` and `xmlEscape` of
-- router.go.
use Prim.Native.String.{String}
use Prim.Native.String.{◌++◌ as concat}
use evermore.Base.{
  ℕ, Bool, not, ◌&&◌, ◌==◌, List, [], ◌∷◌, ◌++◌, map, Option, none, some, if◌then◌else◌,
}
use evermore.Platform.Sanitize.{Text, same_text, trim_right}
use evermore.Platform.Locales.{has_locale}

-- The trace of a request: the client's when it is a UUID, or a new one.
unfoldable request_id : (String → Bool) → String → String → String
request_id is_uuid new_id header = if is_uuid header then header else new_id

abbrev join_with : String → List String → String
join_with sep [] = ""
join_with sep (s ∷ []) = s
join_with sep (s ∷ t ∷ ts) = concat s (concat sep (join_with sep (t ∷ ts)))

-- The content security policy; a production host also upgrades insecure requests.
unfoldable directives : Bool → List String → List String
directives is_prod extra_connect =
    ("default-src 'self'"
      ∷ "base-uri 'self'"
      ∷ "form-action 'self'"
      ∷ "frame-ancestors 'none'"
      ∷ "object-src 'none'"
      ∷ "style-src 'self' 'unsafe-inline'"
      ∷ "script-src 'self' https://maps.googleapis.com"
      ∷ "img-src 'self' data: blob: https://maps.gstatic.com https://maps.googleapis.com https://*.googleapis.com"
      ∷ "font-src 'self'"
      ∷ concat "connect-src "
          (concat (join_with " " ("'self'" ∷ extra_connect)) " https://maps.googleapis.com")
      ∷ "manifest-src 'self'"
      ∷ [])
    ++ (if is_prod then "upgrade-insecure-requests" ∷ [] else [])

unfoldable security_headers : Bool → List String → List (String × String)
security_headers is_prod extra_connect =
    (("Content-Security-Policy", join_with "; " (directives is_prod extra_connect))
      ∷ ("X-Content-Type-Options", "nosniff")
      ∷ ("X-Frame-Options", "DENY")
      ∷ ("Referrer-Policy", "strict-origin-when-cross-origin")
      ∷ ("Cross-Origin-Opener-Policy", "same-origin")
      ∷ ("Cross-Origin-Resource-Policy", "same-origin")
      ∷ (
        "Permissions-Policy",
        "geolocation=(self), camera=(), microphone=(), payment=(), interest-cohort=()",
      )
      ∷ [])
    ++ (if is_prod
        then ("Strict-Transport-Security", "max-age=31536000; includeSubDomains") ∷ []
        else [])

-- `strings.TrimRight(s, "/")`
abbrev pub bare : Text → Text
bare = trim_right (λ r. r == b'/')

-- The origin that a response allows, if it allows one.
unfoldable cors : List Text → Text → Option Text
cors allowed origin =
    if not (same_text (bare origin) []) && has_locale (bare origin) (map bare allowed)
    then some (bare origin)
    else none

-- The permanent redirects of the paths that were renamed.
abbrev renamed : List (String × String)
renamed =
    ("/paket", "/packages")
    ∷ ("/cara-kerja", "/how-it-works")
    ∷ ("/untuk-kantor", "/corporate")
    ∷ ("/wilayah-antar", "/delivery-area")
    ∷ ("/kebijakan-privasi", "/privacy-policy")
    ∷ ("/syarat-ketentuan", "/terms")
    ∷ ("/app/masuk", "/app/sign-in")
    ∷ ("/app/daftar", "/app/register")
    ∷ ("/app/keranjang", "/app/cart")
    ∷ ("/app/pesanan", "/app/orders")
    ∷ ("/app/paket", "/app/packages")
    ∷ ("/app/alamat", "/app/addresses")
    ∷ ("/app/alergi", "/app/allergies")
    ∷ ("/bo/pembayaran", "/bo/payments")
    ∷ []

-- `Robots`; `base` is the base URL without the slashes at its end.
unfoldable robots : Bool → String → String
robots is_prod base = concat "User-agent: *\n" (
    concat (if is_prod then "Allow: /\n" else "Disallow: /\n") (
      concat "Disallow: /app/\nDisallow: /api/\nDisallow: /healthz\nDisallow: /readyz\n"
        (concat "\nSitemap: " (concat base "/sitemap.xml\n"))))

-- An entry of the sitemap; `day` renders a date.
pub record SitemapEntry : Type 0 where
  pub loc : String
  pub lastmod : String
  pub priority : String
  pub freq : String

abbrev page_entry : String → String → String → String → String → SitemapEntry
page_entry base today path priority freq = record {
  loc = concat base path;
  lastmod = today;
  priority = priority;
  freq = freq;
}

-- The published meals of a date; a date whose query fails is passed over.
abbrev meal_entries : (ℕ → String) → (ℕ → String) → String → ℕ → Option (List ℕ) → List SitemapEntry
meal_entries day id_text base d none = []
meal_entries day id_text base d (some meals) =
    map
      (λ m. record {
        loc = concat base (concat "/menu/" (id_text m));
        lastmod = day d;
        priority = "0.5";
        freq = "weekly";
      })
      meals

abbrev dated_entries :
    (ℕ → String) → (ℕ → String) → (ℕ → Option (List ℕ)) → String → List ℕ → List SitemapEntry
dated_entries day id_text meals base [] = []
dated_entries day id_text meals base (d ∷ ds) =
    meal_entries day id_text base d (meals d) ++ dated_entries day id_text meals base ds

unfoldable sitemap_entries :
    (ℕ → String)
    → (ℕ → String)
    → (ℕ → Option (List ℕ))
    → String
    → ℕ
    → Option (List ℕ)
    → List SitemapEntry
sitemap_entries day id_text meals base today dates =
    (page_entry base (day today) "/" "1.0" "daily"
      ∷ page_entry base (day today) "/menu" "0.9" "daily"
      ∷ page_entry base (day today) "/packages" "0.8" "weekly"
      ∷ page_entry base (day today) "/how-it-works" "0.6" "monthly"
      ∷ page_entry base (day today) "/corporate" "0.6" "monthly"
      ∷ page_entry base (day today) "/delivery-area" "0.7" "weekly"
      ∷ [])
    ++ (elim dates [ none ↦ [] | some ds ↦ dated_entries day id_text meals base ds ])

unfoldable xml_escape : Text → Text
xml_escape [] = []
xml_escape (r ∷ rs) =
    let rest = xml_escape rs in
    if r == b'&'
    then b'&' ∷ b'a' ∷ b'm' ∷ b'p' ∷ b';' ∷ rest
    else if r == b'<'
    then b'&' ∷ b'l' ∷ b't' ∷ b';' ∷ rest
    else if r == b'>'
    then b'&' ∷ b'g' ∷ b't' ∷ b';' ∷ rest
    else if r == b'"'
    then b'&' ∷ b'q' ∷ b'u' ∷ b'o' ∷ b't' ∷ b';' ∷ rest
    else if r == b'\''
    then b'&' ∷ b'a' ∷ b'p' ∷ b'o' ∷ b's' ∷ b';' ∷ rest
    else r ∷ rest
