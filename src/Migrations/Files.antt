-- ===== src/Migrations/Files.antt =====
-- `Load` of internal/platform/database/migrate.go: the migrations of a directory, from the names and
-- contents of its files. Texts are bytes; `digest` is the hex SHA-256 of a content, and `arrange` the
-- order in which Go's loop meets the keys of a map.
pub mod Names
pub mod Loading
use Prim.Native.String.{String}
use evermore.Base.{
  ℕ, zero, suc, ◌+◌, ◌*◌, ◌-◌, ltb, leb, ◌==◌, Bool, true, false, not, ◌&&◌, ◌||◌, List, [], ◌∷◌,
  ◌++◌, Option, none, some, if◌then◌else◌, length, first, Result, ok, err, refuse, ◌>>=◌, ◌>>◌,
}
use evermore.Sorting.{sort}
use evermore.Migrations.{Migration}

pub record Entry : Type 0 where
  pub is_dir : Bool
  pub name : List ℕ
  pub body : Option (List ℕ)

pub data Direction : Type 0 where
  upward downward : Direction

pub data LoadError : Type 0 where
  bad_name unreadable : LoadError
  two_names missing_up missing_down not_contiguous : ℕ → LoadError

abbrev pub is_digit : ℕ → Bool
is_digit c = leb b'0' c && leb c b'9'

-- `[a-z0-9_]`
abbrev pub is_name_char : ℕ → Bool
is_name_char c = (leb b'a' c && leb c b'z') || is_digit c || c == b'_'

abbrev pub bytes_eq : List ℕ → List ℕ → Bool
bytes_eq [] [] = true
bytes_eq [] (y ∷ ys) = false
bytes_eq (x ∷ xs) [] = false
bytes_eq (x ∷ xs) (y ∷ ys) = x == y && bytes_eq xs ys

abbrev pub up_suffix : List ℕ
up_suffix = b'.' ∷ b'u' ∷ b'p' ∷ b'.' ∷ b's' ∷ b'q' ∷ b'l' ∷ []

abbrev pub down_suffix : List ℕ
down_suffix = b'.' ∷ b'd' ∷ b'o' ∷ b'w' ∷ b'n' ∷ b'.' ∷ b's' ∷ b'q' ∷ b'l' ∷ []

-- The longest prefix of name characters, and what comes after it.
unfoldable pub span_name : List ℕ → List ℕ × List ℕ
span_name [] = ([], [])
span_name (c ∷ s) =
    let (name, rest) = span_name s in if is_name_char c then (c ∷ name, rest) else ([], c ∷ s)

abbrev pub direction_of : List ℕ → Option Direction
direction_of s =
    if bytes_eq s up_suffix
    then some upward
    else if bytes_eq s down_suffix
    then some downward
    else none

abbrev pub number : ℕ → ℕ → ℕ → ℕ → ℕ
number a b c d = 1000 * (a - b'0') + 100 * (b - b'0') + 10 * (c - b'0') + (d - b'0')

-- `^(\d{4})_([a-z0-9_]+)\.(up|down)\.sql$` and the number of its first group.
unfoldable pub parse_name : List ℕ → Option (ℕ × List ℕ × Direction)
parse_name (a ∷ b ∷ c ∷ d ∷ u ∷ s) =
    let (name, rest) = span_name s in
    if is_digit a && is_digit b && is_digit c && is_digit d && u == b'_' && not (length name == 0)
    then (elim (direction_of rest) [ none ↦ none | some way ↦ some (number a b c d, name, way) ])
    else none
parse_name s = none

abbrev with_body : (List ℕ → String) → Direction → List ℕ → Migration → Migration
with_body digest upward body m = record m { up_sql = body; checksum = digest body }
with_body digest downward body m = record m { down_sql = body }

abbrev pub fresh : ℕ → List ℕ → Migration
fresh version name = record {
  version = version;
  name = name;
  up_sql = [];
  down_sql = [];
  checksum = "";
}

-- The map's entry of the version, new where there is none, takes the file.
unfoldable pub put :
    (Migration → Migration) → ℕ → List ℕ → List Migration → Result LoadError (List Migration)
put change version name [] = ok (change (fresh version name) ∷ [])
put change version name (m ∷ ms) =
    let rest = put change version name ms in
    if m.version == version
    then (if bytes_eq m.name name then ok (change m ∷ ms) else err (two_names version))
    else rest >>= λ out. ok (m ∷ out)

-- The first loop, over the files.
unfoldable pub collect :
    (List ℕ → String) → List Entry → List Migration → Result LoadError (List Migration)
collect digest [] acc = ok acc
collect digest (e ∷ es) acc = elim e.is_dir [
  | true ↦ collect digest es acc
  | false ↦ elim (parse_name e.name) [
    | none ↦ err bad_name
    | some (version, name, way) ↦ elim e.body [
      | none ↦ err unreadable
      | some body ↦
          put (with_body digest way body) version name acc >>= λ acc'. collect digest es acc'
    ]
  ]
]

-- The second loop, over the map.
unfoldable pub check_halves : List Migration → Result LoadError (Unit {0})
check_halves [] = ok tt
check_halves (m ∷ ms) = do
  refuse (length m.up_sql == 0) (missing_up m.version)
  refuse (length m.down_sql == 0) (missing_down m.version)
  check_halves ms

-- The third, over the sorted slice, from the version that is expected.
unfoldable pub check_contiguous : ℕ → List Migration → Result LoadError (Unit {0})
check_contiguous n [] = ok tt
check_contiguous n (m ∷ ms) = do
  refuse (not (m.version == n)) (not_contiguous m.version)
  check_contiguous (suc n) ms

abbrev pub by_version : Migration → Migration → Bool
by_version a b = ltb a.version b.version

unfoldable pub load :
    (List ℕ → String)
    → (List Migration → List Migration)
    → List Entry
    → Result LoadError (List Migration)
load digest arrange entries = do
  found ← collect digest entries []
  check_halves (arrange found)
  let out = sort by_version (arrange found)
  check_contiguous 1 out
  ok out
