-- ===== src/Text.antt =====
-- Text where the code only compares it with a constant or with another text.
use Prim.Native.String.{String}
use text.Mathlib.Text.{◌==◌ as str_eq}
use text.Mathlib.TextEquality.{eq_iff}
use evermore.Base.{Bool, true, ◌≡◌, ◌↔◌}

-- `s == ""`
abbrev pub is_empty : String → Bool
is_empty s = str_eq s ""

-- `s == t`
abbrev pub text_eq : String → String → Bool
text_eq s t = str_eq s t

pub text_eq_iff : (s t : String) → (text_eq s t ≡ true) ↔ (s ≡ t)
text_eq_iff = eq_iff
