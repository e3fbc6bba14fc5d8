-- ===== src/Ordering/Examples.antt =====
-- A basket of two deliveries, paid from two packages.
use mathlib.Core.List.Perm
use evermore.Base.{ℕ, ◌+◌, refl, ◌⊎◌, arith, List, [], ◌∷◌, none, some}
use evermore.Int64.{pos}
use evermore.Credit.{Entry, active, purchase}
use evermore.Ordering.Spending.{CreditPackage, CreditLine, Order, spend_credits}
use evermore.Ordering.Spending.Conservation.{spend_credits_cases, Paid, Refused}

abbrev bought : ℕ → Entry
bought id = record {
  id = id;
  customer_id = 1;
  customer_package_id = id;
  entry_type = purchase;
  qty = pos 2;
  reference_type = "customer_order";
  reference_id = some 5;
  occurred_at = 0;
  created_by = none;
  note = "";
}

abbrev pack : ℕ → CreditPackage
pack id = record {
  pkg = record { id = id; customer_id = 1; meal_credits = pos 2; expires_at = 30; status = active };
  entries = bought id ∷ [];
}

abbrev packs : List CreditPackage
packs = pack 7 ∷ pack 8 ∷ []

abbrev basket : List CreditLine
basket = record { service_date = 10; qty = pos 3 } ∷ record { service_date = 11; qty = pos 1 } ∷ []

abbrev ids : ℕ → ℕ
ids i = 100 + i

abbrev order : Order
order = record { order_id = 6; now = 8; actor = none; new_id = ids }

abbrev as_given : List CreditLine → List CreditLine
as_given lines = lines

spend_credits_cases_example :
    Paid packs basket (spend_credits as_given order packs basket)
    ⊎ Refused (spend_credits as_given order packs basket)
spend_credits_cases_example =
    spend_credits_cases as_given order packs basket (Perm.refl basket) (refl, (refl, tt))
      ((3, refl, omega arith, omega arith), ((1, refl, omega arith, omega arith), tt))
