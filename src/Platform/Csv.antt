-- ===== src/Platform/Csv.antt =====
-- internal/platform/csvexport/csv.go. What encoding/csv does with a record is not modelled: the
-- writer keeps the records that it was given.
pub mod Guarded
use evermore.Base.{
  ℕ, ◌+◌, Bool, true, false, not, ◌&&◌, ltb, ◌==◌, List, [], ◌∷◌, ◌++◌, map, if◌then◌else◌, length,
  Result, ok, err, ◌>>=◌,
}
use evermore.Platform.Sanitize.{Text, csv_cell}

pub record Writer : Type 0 where
  pub cols : ℕ
  pub rows : ℕ
  pub header_line : List Text
  pub records : List (List Text)

-- The row, its cells and the cells that the header declared.
pub data CsvError : Type 0 where
  wrong_cells : ℕ → ℕ → ℕ → CsvError

abbrev new_writer : Writer
new_writer = record { cols = 0; rows = 0; header_line = []; records = [] }

unfoldable pub header : List Text → Writer → Writer
header cols w = record w { cols = length cols; header_line = cols }

unfoldable pub row : List Text → Writer → Result CsvError Writer
row cells w =
    if ltb 0 w.cols && not (length cells == w.cols)
    then err (wrong_cells (w.rows + 1) (length cells) w.cols)
    else ok (record w { rows = w.rows + 1; records = w.records ++ map csv_cell cells ∷ [] })

-- A report: its rows one after another.
unfoldable pub write_rows : List (List Text) → Writer → Result CsvError Writer
write_rows [] w = ok w
write_rows (r ∷ rs) w = row r w >>= λ w'. write_rows rs w'

unfoldable boolean_cell : Bool → Text
boolean_cell true = b'Y' ∷ b'a' ∷ []
boolean_cell false = b'T' ∷ b'i' ∷ b'd' ∷ b'a' ∷ b'k' ∷ []
