-- ===== src/Platform/Examples.antt =====
-- A code, an error, a connection text and an export.
use evermore.Base.{◌⊎◌, ◌+◌, ◌≡◌, refl, List, [], ◌∷◌, none, some, length, All, ok, arith}
use evermore.Platform.Sanitize.{Text, csv_cell}
use evermore.Platform.Errors.{Body, driver, wrapped, fail_with}
use evermore.Platform.Errors.Answers.{public_part, hidden, traced, fail_with-hides}
use evermore.Platform.Codes.{code, Letters, code-total}
use evermore.Platform.Csv.{Writer, write_rows, row}
use evermore.Platform.Csv.Guarded.{Guarded, write_rows-Guarded}

code-total_example : (s : Text) × (code 8 (λ i. some 77) 8 ≡ some s) × (length s ≡ 8) × Letters s
code-total_example =
    code-total 8 (λ i. some 77) 8 (λ i. (77, refl, omega arith)) (omega arith) (omega arith)

fail_with-hides_example :
    ((fail_with (some "t1") (wrapped "load" (driver "password=1"))).response
      ≡ (fail_with (some "t1") (driver "password=2")).response)
    × (((public_part (wrapped "load" (driver "password=1")) ≡ none)
          × ((fail_with (some "t1") (wrapped "load" (driver "password=1"))).response
              ≡ traced (some "t1") hidden))
        ⊎ ((part : Body) × (public_part (wrapped "load" (driver "password=1")) ≡ some part)
            × ((fail_with (some "t1") (wrapped "load" (driver "password=1"))).response
                ≡ traced (some "t1") part)))
fail_with-hides_example =
    fail_with-hides (some "t1") (wrapped "load" (driver "password=1")) (driver "password=2") refl

-- A report of two columns, with a cell that a spreadsheet would evaluate.
abbrev report : Writer
report = record { cols = 2; rows = 0; header_line = (b'a' ∷ []) ∷ (b'b' ∷ []) ∷ []; records = [] }

abbrev lines : List (List Text)
lines = ((b'=' ∷ b'1' ∷ []) ∷ (b'2' ∷ []) ∷ []) ∷ []

abbrev written : Writer
written = record report { rows = 1; records = ((b'\'' ∷ b'=' ∷ b'1' ∷ []) ∷ (b'2' ∷ []) ∷ []) ∷ [] }

is_written : write_rows lines report ≡ ok written
unfolding write_rows row csv_cell
is_written = refl

write_rows-Guarded_example :
    (written.cols ≡ report.cols)
    × All (Guarded written.cols) written.records
    × (written.rows ≡ report.rows + length lines)
write_rows-Guarded_example = write_rows-Guarded lines report written (omega arith) tt is_written
