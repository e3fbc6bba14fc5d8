-- ===== src/Http/Addresses/Allergies.antt =====
-- The allergen profile: `validSlugs` and `SaveAllergies` of internal/adapter/http/app_address.go.
use Prim.Native.String.{String}
use Prim.Native.String.{◌++◌ as concat}
use evermore.Base.{
  ℕ, not, ◌==◌, ◌≡◌, refl, List, [], ◌∷◌, Option, none, some, if◌then◌else◌, update, arith, Result,
  ok, err, ◌>>=◌,
}
use evermore.Auth.Tables.{Principal, Customer}
use evermore.Auth.Principals.{member}
use evermore.Auth.Registration.{keep_known, known_allergens}
use evermore.Platform.Errors.{GoError, as_error, validation}
use evermore.Http.Sessions.{Reply, saved, sent_back, require_customer, notice_of}

-- The loop, with the slugs seen so far.
unfoldable pub valid_from : List String → List String → List String → Result GoError (List String)
valid_from known seen [] = ok []
valid_from known seen (s ∷ ss) =
    let again = valid_from known seen ss in
    let fresh = valid_from known (s ∷ seen) ss in
    if not (member s known)
    then err (as_error (validation (concat "Unknown allergen: " s)))
    else if member s seen
    then again
    else fresh >>= λ out. ok (s ∷ out)

unfoldable pub valid_slugs : List String → List String → Result GoError (List String)
valid_slugs known want = valid_from known [] want

-- What stands in the customer's row.
abbrev save_profile : ℕ → List String → List Customer → List Customer
save_profile c slugs = update (λ x. x.id == c) (λ x. record x { allergen_profile = slugs })

unfoldable pub save_allergies :
    Option Principal → List String → List String → List Customer → Reply × List Customer
save_allergies p known want customers = elim (require_customer p "/app/allergies") [
  | err reply ↦ (reply, customers)
  | ok c ↦ elim (valid_slugs known want) [
    | err e ↦ (sent_back (notice_of e), customers)
    | ok slugs ↦ (saved "Profil alergi disimpan.", save_profile c slugs customers)
  ]
]

-- The slugs that a check of allergens accepts.
abbrev slugs_of {ℓ} : {E : Type ℓ} → Result E (List String) → Option (List String)
slugs_of (ok slugs) = some slugs
slugs_of (err e) = none

valid_from-keep_known :
    (known seen want : List String)
    → slugs_of (valid_from known seen want) ≡ slugs_of (keep_known known seen want)
unfolding valid_from keep_known
valid_from-keep_known known seen [] = refl
valid_from-keep_known known seen (s ∷ ss) =
    ground (arith, valid_from-keep_known known seen ss, valid_from-keep_known known (s ∷ seen) ss)

-- The allergen screen accepts the selections that the sign-up accepts, and keeps the same slugs.
valid_slugs-known_allergens :
    (known want : List String)
    → slugs_of (valid_slugs known want) ≡ slugs_of (known_allergens known want)
unfolding valid_slugs known_allergens valid_from
valid_slugs-known_allergens known [] = refl
valid_slugs-known_allergens known (s ∷ ss) = valid_from-keep_known known [] (s ∷ ss)
