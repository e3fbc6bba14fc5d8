-- ===== src/Platform/Sanitize.antt =====
-- internal/platform/sanitize/sanitize.go, on the code points of a text.
pub mod Cells
pub mod Coordinates
pub mod Phones
pub mod Texts
use Prim.Native.String.{String}
use evermore.Base.{
  ℕ, ◌+◌, Bool, true, false, not, ◌&&◌, ◌||◌, ltb, leb, ◌==◌, List, [], ◌∷◌, ◌++◌, Option, none,
  some, if◌then◌else◌, length, keep, sum_by, Result, ok, err, refuse, ◌>>=◌, ◌>>◌,
}

abbrev pub Text : Type 0
Text = List ℕ

-- The message is left out: it follows from the field, the code and the bounds.
pub record FieldFailure : Type 0 where
  pub field : String
  pub code : String

abbrev pub fail : String → String → FieldFailure
fail field code = record { field = field; code = code }

-- What the Unicode tables and net/mail say.
pub record Unicode : Type 0 where
  pub nfc : Text → Text
  pub is_control : ℕ → Bool
  pub is_space : ℕ → Bool
  pub to_lower : Text → Text
  pub parse_address : Text → Option Text

abbrev pub same_text : Text → Text → Bool
same_text [] [] = true
same_text [] (b ∷ bs) = false
same_text (a ∷ as') [] = false
same_text (a ∷ as') (b ∷ bs) = a == b && same_text as' bs

-- `len` of a string counts the bytes of its UTF-8 encoding.
abbrev pub byte_length : Text → ℕ
byte_length =
    sum_by (λ r. if ltb r 128 then 1 else if ltb r 2048 then 2 else if ltb r 65536 then 3 else 4)

-- `strings.Fields`: `word` is the word that is being read.
abbrev pub fields : (ℕ → Bool) → Text → Text → List Text
fields is_space [] [] = []
fields is_space (w ∷ ws) [] = (w ∷ ws) ∷ []
fields is_space [] (r ∷ rs) =
    let apart = fields is_space [] rs in
    let going = fields is_space (r ∷ []) rs in if is_space r then apart else going
fields is_space (w ∷ ws) (r ∷ rs) =
    let apart = fields is_space [] rs in
    let going = fields is_space (w ∷ ws ++ r ∷ []) rs in
    if is_space r then (w ∷ ws) ∷ apart else going

-- `strings.Join(words, " ")`
abbrev pub join_words : List Text → Text
join_words [] = []
join_words (w ∷ []) = w
join_words (w ∷ v ∷ ws) = w ++ b' ' ∷ join_words (v ∷ ws)

-- The function that `strings.Map` applies, and the map.
abbrev pub printable : (ℕ → Bool) → ℕ → Option ℕ
printable is_control r =
    if r == b'\t' || (r == b'\n' || r == b'\r')
    then some b' '
    else if is_control r
    then none
    else some r

abbrev pub map_runes : (ℕ → Option ℕ) → Text → Text
map_runes f [] = []
map_runes f (r ∷ rs) = elim (f r) [ none ↦ map_runes f rs | some s ↦ s ∷ map_runes f rs ]

unfoldable pub normalise : Unicode → Text → Text
normalise u s =
    let mapped = map_runes (printable u.is_control) (u.nfc s) in
    join_words (fields u.is_space [] mapped)

unfoldable pub text : Unicode → String → Text → ℕ → ℕ → Result FieldFailure Text
text u field value min_len max_len =
    let v = normalise u value in
    if ltb (length v) min_len
    then err (fail field "TOO_SHORT")
    else if ltb max_len (length v)
    then err (fail field "TOO_LONG")
    else ok v

unfoldable pub required : Unicode → String → Text → ℕ → Result FieldFailure Text
required u field value max_len = text u field value 1 max_len

-- `strings.TrimSpace`
abbrev pub trim_left : (ℕ → Bool) → Text → Text
trim_left test [] = []
trim_left test (r ∷ rs) = if test r then trim_left test rs else r ∷ rs

abbrev pub trim_right : (ℕ → Bool) → Text → Text
trim_right test [] = []
trim_right test (r ∷ rs) = elim (trim_right test rs) [
  | [] ↦ if test r then [] else r ∷ []
  | s ∷ ss ↦ r ∷ s ∷ ss
]

abbrev pub trim_space : (ℕ → Bool) → Text → Text
trim_space is_space s = trim_right is_space (trim_left is_space s)

-- What the expression `[^0-9+]` does not match.
abbrev pub is_digit : ℕ → Bool
is_digit r = leb b'0' r && leb r b'9'

abbrev pub dialled : ℕ → Bool
dialled r = is_digit r || r == b'+'

-- The switch on the prefix: +62, 62, 0 or none of them.
unfoldable pub local_part : Text → Text
local_part [] = []
local_part (a ∷ []) = if a == b'0' then [] else a ∷ []
local_part (a ∷ b ∷ []) =
    if a == b'6' && b == b'2' then [] else if a == b'0' then b ∷ [] else a ∷ b ∷ []
local_part (a ∷ b ∷ c ∷ rest) =
    if a == b'+' && (b == b'6' && c == b'2')
    then rest
    else if a == b'6' && b == b'2'
    then c ∷ rest
    else if a == b'0'
    then b ∷ c ∷ rest
    else a ∷ b ∷ c ∷ rest

abbrev pub has_rune : ℕ → Text → Bool
has_rune r [] = false
has_rune r (s ∷ ss) = s == r || has_rune r ss

unfoldable pub prefixed : String → Text → Result FieldFailure Text
prefixed field v =
    if has_rune b'+' v
    then err (fail field "INVALID")
    else if ltb (length v) 8 || ltb 13 (length v)
    then err (fail field "INVALID")
    else ok (b'+' ∷ b'6' ∷ b'2' ∷ v)

abbrev pub dialled_number : String → Text → Result FieldFailure Text
dialled_number field [] = err (fail field "REQUIRED")
dialled_number field (r ∷ rs) = prefixed field (local_part (r ∷ rs))

unfoldable pub phone : Unicode → String → Text → Result FieldFailure Text
phone u field value = dialled_number field (keep dialled (trim_space u.is_space value))

-- The loop over the allowed values.
unfoldable allowed_value : Text → List Text → Bool
allowed_value v [] = false
allowed_value v (a ∷ rest) = same_text v a || allowed_value v rest

unfoldable one_of : Unicode → String → Text → List Text → Result FieldFailure Text
one_of u field value allowed =
    let v = trim_space u.is_space value in
    if allowed_value v allowed then ok v else err (fail field "NOT_ALLOWED")

-- The expression `^[a-z0-9]+(?:-[a-z0-9]+)*$`: `seen` says that a letter or a digit stands before.
abbrev is_slug : Bool → Text → Bool
is_slug seen [] = seen
is_slug seen (r ∷ rs) =
    let next = is_slug true rs in
    let dashed = is_slug false rs in
    if is_digit r || (leb b'a' r && leb r b'z') then next else (r == b'-' && seen) && dashed

unfoldable pub slug : Unicode → String → Text → Result FieldFailure Text
slug u field value =
    let v = u.to_lower (trim_space u.is_space value) in
    if not (is_slug false v)
    then err (fail field "INVALID")
    else if ltb 120 (byte_length v)
    then err (fail field "TOO_LONG")
    else ok v

-- `strings.LastIndex(v, "@")`: what stands before the last `@`, and what starts at it.
abbrev split_last : Text → Option (Text × Text)
split_last [] = none
split_last (r ∷ rs) = elim (split_last rs) [
  | some (before, from) ↦ some (r ∷ before, from)
  | none ↦ if r == b'@' then some ([], r ∷ rs) else none
]

-- `strings.Index(domain, ".")`
abbrev first_dot : Text → Option ℕ
first_dot [] = none
first_dot (r ∷ rs) =
    if r == b'.' then some 0 else elim (first_dot rs) [ none ↦ none | some i ↦ some (i + 1) ]

abbrev dotted : Text → Bool
dotted domain = elim (first_dot domain) [
  | none ↦ false
  | some i ↦ ltb 0 i && not (i + 1 == length domain)
]

-- A text without an `@` has the index -1: the local part is then not a text, and Go panics. The
-- parser of addresses excludes it; the model answers INVALID there.
unfoldable pub email : Unicode → String → Text → Result FieldFailure Text
email u field value = do
  let v = trim_space u.is_space (u.nfc value)
  refuse (same_text v []) (fail field "REQUIRED")
  refuse (ltb 254 (byte_length v)) (fail field "TOO_LONG")
  refuse (not (elim (u.parse_address v) [ none ↦ false | some a ↦ same_text a v ]))
      (fail field "INVALID")
  elim (split_last v) [
    | none ↦ err (fail field "INVALID")
    | some (before, []) ↦ err (fail field "INVALID")
    | some (before, at ∷ domain) ↦
        if dotted domain
        then ok (before ++ u.to_lower (at ∷ domain))
        else err (fail field "INVALID")
  ]

unfoldable pub csv_cell : Text → Text
csv_cell [] = []
csv_cell (r ∷ rs) =
    if r == b'=' || (r == b'+' || (r == b'-' || (r == b'@' || (r == b'\t' || r == b'\r'))))
    then b'\'' ∷ r ∷ rs
    else r ∷ rs

unfoldable pub log_value : Text → Text
log_value [] = []
log_value (r ∷ rs) =
    if r == b'\n'
    then b'\\' ∷ b'n' ∷ log_value rs
    else if r == b'\r'
    then b'\\' ∷ b'r' ∷ log_value rs
    else r ∷ log_value rs

-- `v == "."` and `v == ".."` cannot hold after the dots are trimmed, but the code asks.
unfoldable filename : Unicode → String → Text → Result FieldFailure Text
filename u field value =
    let plain = keep (λ r. not (r == b'\\')) (keep (λ r. not (r == b'/')) (normalise u value)) in
    let v = trim_left (λ r. r == b'.') plain in
    if same_text v [] || (same_text v (b'.' ∷ []) || same_text v (b'.' ∷ b'.' ∷ []))
    then err (fail field "INVALID")
    else if ltb 255 (byte_length v)
    then err (fail field "TOO_LONG")
    else ok v
