-- ===== src/Platform/Locales.antt =====
-- internal/platform/i18n/i18n.go: the locales of a site and the choice of one for a request.
pub mod Choice
use evermore.Base.{
  ℕ, Bool, true, false, not, ◌&&◌, ◌||◌, ltb, ◌==◌, List, [], ◌∷◌, ◌++◌, Option, none, some,
  if◌then◌else◌, keep,
}
use evermore.Sorting.{sort}
use evermore.Platform.Sanitize.{Text, Unicode, same_text, trim_space}
use evermore.Platform.Sanitize.Coordinates.{Floats}

-- What stands before the first rune that passes a test.
abbrev pub before : (ℕ → Bool) → Text → Text
before test [] = []
before test (r ∷ rs) = if test r then [] else r ∷ before test rs

abbrev is_subtag : ℕ → Bool
is_subtag r = r == b'-' || r == b'_'

-- `strings.IndexAny(tag, "-_") > 0`: a separator at the start is kept.
abbrev language : Text → Text
language [] = []
language (r ∷ rs) = if is_subtag r then r ∷ rs else r ∷ before is_subtag rs

unfoldable pub base : Unicode → Text → Text
base u tag = language (trim_space u.is_space (u.to_lower tag))

pub record LocaleSet : Type 0 where
  pub default_locale : Text
  pub supported : List Text

abbrev pub has_locale : Text → List Text → Bool
has_locale l [] = false
has_locale l (x ∷ xs) = same_text x l || has_locale l xs

unfoldable pub has : LocaleSet → Text → Bool
has s l = has_locale l s.supported

-- The loop of `NewSet`, with the locales seen so far.
unfoldable pub fold_tags : Unicode → List Text → List Text → List Text
fold_tags u seen [] = []
fold_tags u seen (t ∷ ts) =
    let skipped = fold_tags u seen ts in
    let kept = fold_tags u (base u t ∷ seen) ts in
    if same_text (base u t) [] || has_locale (base u t) seen then skipped else base u t ∷ kept

abbrev english : Text
english = b'e' ∷ b'n' ∷ []

abbrev pub set_of : List Text → LocaleSet
set_of [] = record { default_locale = english; supported = english ∷ [] }
set_of (l ∷ ls) = record { default_locale = l; supported = l ∷ ls }

unfoldable pub new_set : Unicode → List Text → LocaleSet
new_set u tags = set_of (fold_tags u [] tags)

-- `strings.Split`
abbrev pub split_on : ℕ → Text → Text × List Text
split_on sep [] = ([], [])
split_on sep (r ∷ rs) =
    let (first, rest) = split_on sep rs in
    if r == sep then ([], first ∷ rest) else (r ∷ first, rest)

pub record Weighted {ℓ} (F : Type ℓ) : Type ℓ where
  pub locale : Text
  pub quality : F

abbrev pub first_locale {ℓ} : {F : Type ℓ} → List (Weighted F) → Option Text
first_locale [] = none
first_locale (w ∷ ws) = some w.locale

module _ {ℓ} {F : Type ℓ} (u : Unicode) (n : Floats F) where
  -- The parameters of an entry: the last readable quality counts.
  abbrev param : Text → F → F
  param [] q = q
  param (r ∷ []) q = q
  param (r ∷ s ∷ rs) q =
      if r == b'q' && s == b'=' then elim (n.parse_float rs) [ none ↦ q | some v ↦ v ] else q

  abbrev pub params : List Text → F → F
  params [] q = q
  params (p ∷ ps) q = params ps (param (trim_space u.is_space p) q)

  -- One entry of the header; none is passed over.
  abbrev pub weighted : LocaleSet → Text → F → Option (Weighted F)
  weighted s tag q =
      if n.at_most q (n.decimal false 0)
      then none
      else if same_text tag (b'*' ∷ [])
      then none
      else if not (same_text (base u tag) []) && has s (base u tag)
      then some (record { locale = base u tag; quality = q })
      else none

  abbrev pub entry : LocaleSet → Text → Option (Weighted F)
  entry s [] = none
  entry s (r ∷ rs) =
      let (tag, rest) = split_on b';' (r ∷ rs) in
      elim rest [
        | [] ↦ weighted s (r ∷ rs) (n.decimal false 10)
        | p ∷ ps ↦ weighted s (trim_space u.is_space tag) (params (p ∷ ps) (n.decimal false 10))
      ]

  abbrev pub entries : LocaleSet → List Text → List (Weighted F)
  entries s [] = []
  entries s (p ∷ ps) = elim (entry s (trim_space u.is_space p)) [
    | none ↦ entries s ps
    | some w ↦ w ∷ entries s ps
  ]

  abbrev pub preferred : Weighted F → Weighted F → Bool
  preferred a b = n.less b.quality a.quality

  unfoldable pub from_accept_language : LocaleSet → Text → Option Text
  from_accept_language s header =
      let (part, rest) = split_on b',' header in
      if same_text (trim_space u.is_space header) []
      then none
      else first_locale (sort preferred (entries s (part ∷ rest)))

  -- The locale of a request: its lang parameter, its cookie, its header and the default.
  unfoldable pub negotiate : LocaleSet → Text → Option Text → Text → Text
  negotiate s lang cookie header =
      let by_header = elim (from_accept_language s header) as (λ _. Text) [
        | none ↦ s.default_locale
        | some l ↦ l
      ] in
      if not (same_text (base u lang) []) && has s (base u lang) then base u lang else elim cookie [
        | none ↦ by_header
        | some c ↦ if has s (base u c) then base u c else by_header
      ]

-- The catalogues: the strings of a locale by their keys.
abbrev Catalogs : Type 0
Catalogs = Text → Text → Option Text

-- A string that is there and not empty.
abbrev pub filled : Option Text → Option Text
filled none = none
filled (some []) = none
filled (some (r ∷ rs)) = some (r ∷ rs)

-- The string of a key, in the locale, in the default locale, or the key itself.
unfoldable translate : Catalogs → LocaleSet → Text → Text → Text
translate c s l key = elim (filled (c l key)) [
  | some v ↦ v
  | none ↦ elim (filled (c s.default_locale key)) [ none ↦ key | some v ↦ v ]
]

-- The keys of the default catalogue that another lacks; the order of the result is not modelled.
unfoldable pub missing : Catalogs → LocaleSet → List Text → Text → List Text
missing c s keys l =
    keep
      (λ k. elim (filled (c s.default_locale k)) [
        | none ↦ false
        | some _ ↦ elim (filled (c l k)) [ none ↦ true | some _ ↦ false ]
      ])
      keys
