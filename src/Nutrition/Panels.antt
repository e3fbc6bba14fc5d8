-- ===== src/Nutrition/Panels.antt =====
-- A meal's panel is complete only if every food has one.
use Prim.Native.String.{String}
use mathlib.Core.List.{append_assoc, append-nil}
use evermore.Base.{
  ◌≡◌, ◌≢◌, refl, sym, ◌∙◌, ap, ◌↔◌, arith, Bool, true, false, List, [], ◌∷◌, ◌++◌, Option, none,
  some, map, keep, All, if◌then◌else◌,
}
use evermore.Nutrition.{
  Panel, Component, add_panel, add_component, aggregate_from, empty_panel, aggregate,
}

abbrev has_none : Option Panel → Bool
has_none none = true
has_none (some p) = false

-- The names of the foods without a panel, in the order of the components.
abbrev pub missing : List Component → List String
missing cs = map (λ c. c.food_name) (keep (λ c. has_none c.panel) cs)

missing_of : Option Panel → String → List String
missing_of o name = if has_none o then name ∷ [] else []

add_component-missing :
    (out : Panel) (name : String) (o : Option Panel)
    → (add_component out name o).missing_foods ≡ out.missing_foods ++ missing_of o name
unfolding add_panel missing_of
add_component-missing out name none = refl
add_component-missing out name (some p) = sym (append-nil out.missing_foods)

missing-cons :
    (c : Component) (cs : List Component)
    → missing (c ∷ cs) ≡ missing_of c.panel c.food_name ++ missing cs
unfolding missing_of
missing-cons c cs = ground arith

aggregate_from-missing :
    (out : Panel) (cs : List Component)
    → (aggregate_from out cs).missing_foods ≡ out.missing_foods ++ missing cs
unfolding aggregate_from
aggregate_from-missing out [] = sym (append-nil out.missing_foods)
aggregate_from-missing out (c ∷ cs) =
    let one = add_component-missing out c.food_name c.panel in
    aggregate_from-missing (add_component out c.food_name c.panel) cs
    ∙ (ap (λ ms. ms ++ missing cs) one
        ∙ (append_assoc out.missing_foods (missing_of c.panel c.food_name) (missing cs)
            ∙ ap (λ ms. out.missing_foods ++ ms) (sym (missing-cons c cs))))

add_component-complete :
    (out : Panel) (name : String) (o : Option Panel)
    → ((add_component out name o).complete ≡ true) ↔ ((out.complete ≡ true) × (o ≢ none))
unfolding add_panel
add_component-complete out name none = ((λ h. cc), λ (_, some_panel). absurd (some_panel refl))
add_component-complete out name (some p) = ((λ h. (h, λ e. cc)), λ (h, _). h)

aggregate_from-complete :
    (out : Panel) (cs : List Component)
    → ((aggregate_from out cs).complete ≡ true)
      ↔ ((out.complete ≡ true) × All (λ c. c.panel ≢ none) cs)
unfolding aggregate_from
aggregate_from-complete out [] = ((λ h. (h, tt)), λ (h, _). h)
aggregate_from-complete out (c ∷ cs) =
    let (to, from) = aggregate_from-complete (add_component out c.food_name c.panel) cs in
    let (one_to, one_from) = add_component-complete out c.food_name c.panel in
    (
      (λ h. let (one, rest) = to h in let (before, has) = one_to one in (before, (has, rest))),
      λ (before, (has, rest)). from (one_from (before, has), rest),
    )

-- A meal's panel is complete exactly if the meal has at least one food and every food of it has a
-- panel; and it names the foods that have none, in the order of the components.
aggregate-complete :
    (cs : List Component)
    → (((aggregate cs).complete ≡ true) ↔ ((cs ≢ []) × All (λ c. c.panel ≢ none) cs))
      × ((aggregate cs).missing_foods ≡ missing cs)
unfolding aggregate
aggregate-complete [] = (((λ h. cc), λ (some_food, _). absurd (some_food refl)), refl)
aggregate-complete (c ∷ cs) =
    let (to, from) = aggregate_from-complete empty_panel (c ∷ cs) in
    (
      ((λ h. let (_, all) = to h in ((λ e. cc), all)), λ (_, all). from (refl, all)),
      aggregate_from-missing empty_panel (c ∷ cs),
    )
