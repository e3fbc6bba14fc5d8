-- ===== src/Nutrition.antt =====
-- internal/domain/nutrition/aggregate.go: the nutrition panel of a meal, from those of its foods. The
-- map of further nutrients is a list of keys and amounts, in the order in which a loop visits it.
pub mod Panels
mod Examples
use Prim.Native.String.{String}
use evermore.Base.{Bool, true, false, List, [], ◌∷◌, ◌++◌, Option, none, some, if◌then◌else◌}
use evermore.Int64.{ℤ, pos, ◌+ℤ◌}
use evermore.Text.{text_eq}

pub record Panel : Type 0 where
  pub calories_kcal : ℤ
  pub protein_mg : ℤ
  pub fat_mg : ℤ
  pub saturated_fat_mg : ℤ
  pub carbohydrate_mg : ℤ
  pub sugar_mg : ℤ
  pub fibre_mg : ℤ
  pub sodium_mg : ℤ
  pub cholesterol_mg : ℤ
  pub extras : List (String × ℤ)
  pub complete : Bool
  pub missing_foods : List String

pub record Component : Type 0 where
  pub food_id : String
  pub food_name : String
  pub panel : Option Panel

-- `out.Extras[k] += v`, where a missing key counts as zero.
unfoldable pub add_extra : String → ℤ → List (String × ℤ) → List (String × ℤ)
add_extra k v [] = (k, pos 0 +ℤ v) ∷ []
add_extra k v ((key, amount) ∷ rest) =
    let more = add_extra k v rest in
    if text_eq key k then (key, amount +ℤ v) ∷ rest else (key, amount) ∷ more

unfoldable pub add_extras : List (String × ℤ) → List (String × ℤ) → List (String × ℤ)
add_extras [] extras = extras
add_extras ((k, v) ∷ more) extras = add_extras more (add_extra k v extras)

-- One round of the loop.
unfoldable pub add_panel : Panel → Panel → Panel
add_panel out p = record out {
  calories_kcal = out.calories_kcal +ℤ p.calories_kcal;
  protein_mg = out.protein_mg +ℤ p.protein_mg;
  fat_mg = out.fat_mg +ℤ p.fat_mg;
  saturated_fat_mg = out.saturated_fat_mg +ℤ p.saturated_fat_mg;
  carbohydrate_mg = out.carbohydrate_mg +ℤ p.carbohydrate_mg;
  sugar_mg = out.sugar_mg +ℤ p.sugar_mg;
  fibre_mg = out.fibre_mg +ℤ p.fibre_mg;
  sodium_mg = out.sodium_mg +ℤ p.sodium_mg;
  cholesterol_mg = out.cholesterol_mg +ℤ p.cholesterol_mg;
  extras = add_extras p.extras out.extras;
}

abbrev pub add_component : Panel → String → Option Panel → Panel
add_component out name none = record out {
  complete = false;
  missing_foods = out.missing_foods ++ name ∷ [];
}
add_component out name (some p) = add_panel out p

unfoldable pub aggregate_from : Panel → List Component → Panel
aggregate_from out [] = out
aggregate_from out (c ∷ components) =
    aggregate_from (add_component out c.food_name c.panel) components

-- `Panel{Complete: true}`
abbrev pub empty_panel : Panel
empty_panel = record {
  calories_kcal = pos 0;
  protein_mg = pos 0;
  fat_mg = pos 0;
  saturated_fat_mg = pos 0;
  carbohydrate_mg = pos 0;
  sugar_mg = pos 0;
  fibre_mg = pos 0;
  sodium_mg = pos 0;
  cholesterol_mg = pos 0;
  extras = [];
  complete = true;
  missing_foods = [];
}

unfoldable pub aggregate : List Component → Panel
aggregate [] = record empty_panel { complete = false }
aggregate (c ∷ components) = aggregate_from empty_panel (c ∷ components)
