-- ===== src/Platform/Sanitize/Cells.antt =====
-- Values on the way out: spreadsheet cells, log lines and file names.
use evermore.Base.{Bool, false, ◌||◌, ◌==◌, ◌≡◌, refl, [], ◌∷◌, arith}
use evermore.Platform.Sanitize.{Text, csv_cell, log_value, has_rune}

-- A cell that a spreadsheet reads as a formula.
abbrev pub is_formula : Text → Bool
is_formula [] = false
is_formula (r ∷ rs) =
    r == b'=' || (r == b'+' || (r == b'-' || (r == b'@' || (r == b'\t' || r == b'\r'))))

pub is_formula-csv_cell : (v : Text) → is_formula (csv_cell v) ≡ false
unfolding csv_cell
is_formula-csv_cell [] = refl
is_formula-csv_cell (r ∷ rs) = ground arith

csv_cell-twice : (v : Text) → csv_cell (csv_cell v) ≡ csv_cell v
unfolding csv_cell
csv_cell-twice [] = refl
csv_cell-twice (r ∷ rs) = ground arith

-- A log value is one line: it holds neither a newline nor a carriage return.
log_value-one_line :
    (v : Text) → (has_rune b'\n' (log_value v) ≡ false) × (has_rune b'\r' (log_value v) ≡ false)
unfolding log_value
log_value-one_line [] = (refl, refl)
log_value-one_line (r ∷ rs) = ground (arith, log_value-one_line rs)
