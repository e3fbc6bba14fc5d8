-- ===== src/Platform/Sanitize/Coordinates.antt =====
-- `LatLng`, over what strconv and the machine say of floating-point numbers.
use Prim.Native.String.{String}
use evermore.Base.{ℕ, Bool, true, false, ◌||◌, Option, if◌then◌else◌, Result, ok, err}
use evermore.Platform.Sanitize.{Text, FieldFailure, fail}

-- `strconv.ParseFloat`, `<`, `<=`, and a constant of the source by its sign and its tenths.
pub record Floats {ℓ} (F : Type ℓ) : Type ℓ where
  pub parse_float : Text → Option F
  pub less : F → F → Bool
  pub at_most : F → F → Bool
  pub decimal : Bool → ℕ → F

-- `x < -low || x > high`, for bounds in tenths; `below` says whether the lower one is negative.
abbrev pub outside {ℓ} : {F : Type ℓ} → Floats F → Bool → ℕ → ℕ → F → Bool
outside n below low high x = n.less x (n.decimal below low) || n.less (n.decimal false high) x

unfoldable pub lat_lng {ℓ} :
    {F : Type ℓ} → Floats F → String → F → F → Result FieldFailure (Unit {0})
lat_lng n field lat lng =
    if outside n true 900 900 lat
    then err (fail field "OUT_OF_RANGE")
    else if outside n true 1800 1800 lng
    then err (fail field "OUT_OF_RANGE")
    else ok tt
