-- ===== src/Platform/Csv/Guarded.antt =====
-- The records of an export: aligned with the header, and no formula in a cell.
use evermore.Base.{
  ℕ, ◌+◌, ◌<◌, false, ◌≡◌, refl, List, [], ◌∷◌, ◌++◌, map, length, All, All-append, ok, >>=-eq-ok,
  arith, ap, sym, ◌∙◌, suc, subst,
}
use evermore.Platform.Sanitize.{Text, csv_cell}
use evermore.Platform.Sanitize.Cells.{is_formula, is_formula-csv_cell}
use evermore.Platform.Csv.{Writer, row, write_rows}

-- A record as wide as the header, without a formula.
abbrev pub Guarded : ℕ → List Text → Type 0
Guarded cols cells = (length cells ≡ cols) × All (λ c. is_formula c ≡ false) cells

cells-guarded : (cells : List Text) → All (λ c. is_formula c ≡ false) (map csv_cell cells)
cells-guarded [] = tt
cells-guarded (c ∷ cs) = (is_formula-csv_cell c, cells-guarded cs)

length-map : (cells : List Text) → length (map csv_cell cells) ≡ length cells
length-map [] = refl
length-map (c ∷ cs) = ap suc (length-map cs)

row-eq-ok :
    (cells : List Text) (w w' : Writer)
    → 0 < w.cols
    → row cells w ≡ ok w'
    → (length cells ≡ w.cols)
      × (w' ≡ record w { rows = w.rows + 1; records = w.records ++ map csv_cell cells ∷ [] })
unfolding row
row-eq-ok cells w w' pos h = ground arith

unchanged : (w w' : Writer) → write_rows [] w ≡ ok w' → w ≡ w'
unfolding write_rows
unchanged w w' h = cc

row-Guarded :
    (cells : List Text) (w w' : Writer)
    → 0 < w.cols
    → All (Guarded w.cols) w.records
    → row cells w ≡ ok w'
    → (w'.cols ≡ w.cols) × All (Guarded w'.cols) w'.records × (w'.rows ≡ w.rows + 1)
row-Guarded cells w w' pos all h =
    let (wide, same) = row-eq-ok cells w w' pos h in
    subst (λ v. (v.cols ≡ w.cols) × All (Guarded v.cols) v.records × (v.rows ≡ w.rows + 1))
      (sym same)
      (
        refl,
        All-append (Guarded w.cols) w.records (map csv_cell cells ∷ []) all
            ((length-map cells ∙ wide, cells-guarded cells), tt),
        refl,
      )

-- A report that is written, below a header with columns, adds its rows to the count, and every
-- record of the file is as wide as the header and has no cell that is read as a formula, when those
-- before it are.
pub write_rows-Guarded :
    (rows : List (List Text)) (w w' : Writer)
    → 0 < w.cols
    → All (Guarded w.cols) w.records
    → write_rows rows w ≡ ok w'
    → (w'.cols ≡ w.cols) × All (Guarded w'.cols) w'.records × (w'.rows ≡ w.rows + length rows)
unfolding write_rows
write_rows-Guarded [] w w' pos all h =
    subst (λ v. (v.cols ≡ w.cols) × All (Guarded v.cols) v.records × (v.rows ≡ w.rows + 0))
      (unchanged w w' h) (refl, all, omega arith)
write_rows-Guarded (r ∷ rs) w w' pos all h =
    let (v, first, rest) = >>=-eq-ok (row r w) _ h in
    let (same, kept, count) = row-Guarded r w v pos all first in
    let (same', kept', count') = write_rows-Guarded rs v w' (rw same pos) kept rest in
    (same' ∙ same, kept', omega (arith, count, count'))
