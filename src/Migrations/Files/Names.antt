-- ===== src/Migrations/Files/Names.antt =====
-- The name of a migration's file is read back as it was written.
use evermore.Base.{
  ℕ, ◌+◌, ◌/◌, ◌%◌, ◌≤◌, ◌<◌, ◌==◌, ◌≡◌, refl, ap, arith, true, false, List, [], ◌∷◌, ◌++◌, some,
  length, All,
}
use evermore.Migrations.Files.{
  Direction, upward, downward, is_digit, is_name_char, up_suffix, down_suffix, span_name,
  direction_of, number, parse_name,
}

abbrev suffix_of : Direction → List ℕ
suffix_of upward = up_suffix
suffix_of downward = down_suffix

-- `NNNN_name.(up|down).sql`
abbrev pub file_name : ℕ → List ℕ → Direction → List ℕ
file_name version name way =
    (b'0' + version / 1000)
      ∷ (b'0' + version / 100 % 10)
      ∷ (b'0' + version / 10 % 10)
      ∷ (b'0' + version % 10)
      ∷ b'_'
      ∷ name
    ++ suffix_of way

span_name-stops :
    (name rest : List ℕ)
    → All (λ c. is_name_char c ≡ true) name
    → span_name (name ++ b'.' ∷ rest) ≡ (name, b'.' ∷ rest)
unfolding span_name
span_name-stops [] rest all = refl
span_name-stops (c ∷ name) rest (h, all) = ground (arith, h, span_name-stops name rest all)

span_name-suffix :
    (name : List ℕ) (way : Direction)
    → All (λ c. is_name_char c ≡ true) name
    → span_name (name ++ suffix_of way) ≡ (name, suffix_of way)
span_name-suffix name upward all = span_name-stops name _ all
span_name-suffix name downward all = span_name-stops name _ all

direction_of-suffix : (way : Direction) → direction_of (suffix_of way) ≡ some way
direction_of-suffix upward = refl
direction_of-suffix downward = refl

digits :
    (v : ℕ)
    → v < 10000
    → number (b'0' + v / 1000) (b'0' + v / 100 % 10) (b'0' + v / 10 % 10) (b'0' + v % 10) ≡ v
digits v low = omega (arith, low)

digit : (d : ℕ) → d < 10 → is_digit (b'0' + d) ≡ true
digit d low = ground (arith, low)

-- A file's name that is written from a version below 10000, a name of the characters a-z, 0-9 and _,
-- at least one, and a direction, is read back as these three.
parse_name-file_name :
    (v : ℕ) (name : List ℕ) (way : Direction)
    → v < 10000
    → 1 ≤ length name
    → All (λ c. is_name_char c ≡ true) name
    → parse_name (file_name v name way) ≡ some (v, name, way)
unfolding parse_name
parse_name-file_name v name way low some_char all =
    let a = digit (v / 1000) (omega (arith, low)) in
    let b = digit (v / 100 % 10) (omega arith) in
    let c = digit (v / 10 % 10) (omega arith) in
    let d = digit (v % 10) (omega arith) in
    let split = span_name-suffix name way all in
    let way_back = direction_of-suffix way in
    let number_back = digits v low in
    let nonempty : (length name == 0) ≡ false = ground (arith, some_char) in
    rw (parse_name, split, a, b, c, d, nonempty, way_back, number_back)
      (ap (λ s. some (v, s.0, way)) split)
