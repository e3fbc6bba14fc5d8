-- ===== src/Http/Office/Grid.antt =====
-- The grid holds every row of the query once, in the row of its kitchen.
use Prim.Native.String.{String}
use mathlib.Core.List.{append-nil, append_assoc}
use evermore.Base.{
  ◌≡◌, refl, sym, subst, inl, inr, List, [], ◌∷◌, ◌++◌, if◌then◌else◌, map, keep, Bool-cases, arith,
}
use evermore.Text.{text_eq, text_eq_iff}
use evermore.Http.Office.{SlotRow, CapacityCell, CapacityRow, cell_of, add_cell, grid}

-- The cells of a kitchen in a grid, and the rows of the query that are its.
abbrev cells_of : String → List CapacityRow → List CapacityCell
cells_of code [] = []
cells_of code (k ∷ ks) = if text_eq k.code code then k.cells else cells_of code ks

abbrev rows_of : String → List SlotRow → List SlotRow
rows_of code = keep (λ r. text_eq r.code code)

cells-add :
    (code : String) (r : SlotRow) (ks : List CapacityRow)
    → cells_of code (add_cell r ks)
      ≡ (if text_eq r.code code then cells_of code ks ++ cell_of r ∷ [] else cells_of code ks)
unfolding add_cell
cells-add code r [] = refl
cells-add code r (k ∷ ks) = elim (Bool-cases (text_eq k.code r.code)) [
  | inl e ↦
      let same = (text_eq_iff k.code r.code).0 e in
      ground (arith, e, subst (λ x. text_eq x code ≡ text_eq r.code code) (sym same) refl)
  | inr e ↦ ground (
    arith,
    e,
    cells-add code r ks,
    text_eq_iff r.code code,
    text_eq_iff k.code code,
    text_eq_iff k.code r.code,
  )
]

cells-grid :
    (code : String) (rs : List SlotRow) (out : List CapacityRow)
    → cells_of code (grid rs out) ≡ cells_of code out ++ map cell_of (rows_of code rs)
unfolding grid
cells-grid code [] out = sym (append-nil (cells_of code out))
cells-grid code (r ∷ rs) out =
    let rest = cells-grid code rs (add_cell r out) in
    ground (
      arith,
      rest,
      cells-add code r out,
      append_assoc (cells_of code out) (cell_of r ∷ []) (map cell_of (rows_of code rs)),
    )

-- The grid shows, for every kitchen, exactly the cells of its rows of the query, in their order.
grid-cells :
    (code : String) (rs : List SlotRow) → cells_of code (grid rs []) ≡ map cell_of (rows_of code rs)
grid-cells code rs = cells-grid code rs []
