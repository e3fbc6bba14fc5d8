-- ===== src/Nutrition/Examples.antt =====
-- A meal of two foods, one of them without a panel.
use evermore.Base.{◌≡◌, refl, List, [], ◌∷◌, none, some}
use evermore.Int64.{pos, to_word, of_word, ◌+ℤ◌}
use evermore.Nutrition.{
  Panel, Component, add_panel, add_extra, add_extras, aggregate_from, empty_panel, aggregate,
}

abbrev rice : Panel
rice = record empty_panel { calories_kcal = pos 200; extras = ("iron", pos 3) ∷ [] }

abbrev foods : List Component
foods =
    record { food_id = "1"; food_name = "Nasi"; panel = some rice }
    ∷ record { food_id = "2"; food_name = "Sambal"; panel = none }
    ∷ record { food_id = "3"; food_name = "Nasi"; panel = some rice }
    ∷ []

iron_adds_up : (aggregate foods).extras ≡ ("iron", pos 6) ∷ []
unfolding aggregate aggregate_from add_panel add_extras add_extra ◌+ℤ◌ to_word of_word
iron_adds_up = refl
