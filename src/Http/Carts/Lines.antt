-- ===== src/Http/Carts/Lines.antt =====
-- `AddToCart` on the lines of a cart.
use evermore.Base.{
  ℕ, Bool, not, ◌&&◌, ◌==◌, ◌≡◌, refl, List, [], ◌∷◌, if◌then◌else◌, tally, keep, keep-append,
  tally-append, arith,
}
use mathlib.Core.List.{append-nil}
use evermore.Http.Carts.{CartEntry, of_meal, replace_line, add_line}

-- A line of the meal with another quantity.
abbrev pub off : ℕ → ℕ → CartEntry → Bool
off meal qty e = of_meal meal e && not (e.qty == qty)

replaced-others :
    (meal qty : ℕ) (es : List CartEntry)
    → keep (λ e. not (of_meal meal e)) (replace_line meal qty es).0
      ≡ keep (λ e. not (of_meal meal e)) es
unfolding replace_line
replaced-others meal qty [] = refl
replaced-others meal qty (e ∷ es) = ground (arith, replaced-others meal qty es)

replaced-off :
    (meal qty : ℕ) (es : List CartEntry) → tally (off meal qty) (replace_line meal qty es).0 ≡ 0
unfolding replace_line
replaced-off meal qty [] = refl
replaced-off meal qty (e ∷ es) = ground (arith, replaced-off meal qty es)

replaced-count :
    (meal qty : ℕ) (es : List CartEntry)
    → tally (of_meal meal) (replace_line meal qty es).0
      ≡ (if qty == 0 then 0 else tally (of_meal meal) es)
unfolding replace_line
replaced-count meal qty [] = ground arith
replaced-count meal qty (e ∷ es) = ground (arith, replaced-count meal qty es)

replaced-found :
    (meal qty : ℕ) (es : List CartEntry)
    → (replace_line meal qty es).1 ≡ not (tally (of_meal meal) es == 0)
unfolding replace_line
replaced-found meal qty [] = refl
replaced-found meal qty (e ∷ es) = ground (arith, replaced-found meal qty es)

-- Adding a meal leaves the lines of the other meals as they are, in their order; every line of the
-- meal has the quantity asked for afterwards, and there is one exactly when that is not 0.
add_line_lem :
    (meal qty : ℕ) (es : List CartEntry)
    → (keep (λ e. not (of_meal meal e)) (add_line meal qty es)
        ≡ keep (λ e. not (of_meal meal e)) es)
      × (tally (off meal qty) (add_line meal qty es) ≡ 0)
      × ((tally (of_meal meal) (add_line meal qty es) == 0) ≡ (qty == 0))
unfolding add_line
add_line_lem meal qty es =
    let next = (replace_line meal qty es).0 in
    let new : CartEntry = record { meal_id = meal; qty = qty } in
    (
      ground (
        arith,
        replaced-others meal qty es,
        keep-append (λ e. not (of_meal meal e)) next (new ∷ []),
        append-nil (keep (λ e. not (of_meal meal e)) next),
      ),
      ground (arith, replaced-off meal qty es, tally-append (off meal qty) next (new ∷ [])),
      ground (
        arith,
        replaced-count meal qty es,
        replaced-found meal qty es,
        tally-append (of_meal meal) next (new ∷ []),
      ),
    )
