-- ===== src/Credit/Examples.antt =====
-- A package of three credits: redeemed, expired and extended.
use evermore.Base.{ℕ, ◌+◌, ◌≡◌, refl, arith, List, [], ◌∷◌, ◌++◌, none, some, ok}
use evermore.Int64.{ℤ, pos, to_word, of_word, ◌+ℤ◌, ◌-ℤ◌}
use evermore.Credit.{
  Entry, Package, RedeemRequest, active, purchase, balance, redeem, redeem_loop, expire,
  expire_entry, extend_expiry, reversal_from, adjustment_entry,
}
use evermore.Credit.Expiry.{extend_expiry-balance}

abbrev ids : ℕ → ℕ
ids i = 100 + i

abbrev three_meals : Package
three_meals = record {
  id = 7;
  customer_id = 1;
  meal_credits = pos 3;
  expires_at = 30;
  status = active;
}

abbrev bought : List Entry
bought =
    record {
      id = 1;
      customer_id = 1;
      customer_package_id = 7;
      entry_type = purchase;
      qty = pos 3;
      reference_type = "customer_order";
      reference_id = some 5;
      occurred_at = 0;
      created_by = none;
      note = "";
    }
    ∷ []

abbrev request : ℤ → RedeemRequest
request meals = record {
  pkg = three_meals;
  entries = bought;
  meals = meals;
  service_date = 10;
  occurred_at = 8;
  reference_id = 6;
  reference_typ = "customer_order";
  actor_id = none;
}

abbrev spent : List Entry
spent = unfold redeem_loop in redeem_loop ids (request (pos 2)) 0 2

bought-balance : balance bought ≡ pos 3
unfolding balance ◌+ℤ◌ to_word of_word
bought-balance = refl

redeems_two : redeem ids (request (pos 2)) ≡ ok spent
unfolding redeem redeem_loop balance ◌+ℤ◌ to_word of_word
redeems_two = refl

abbrev after_expiry : List Entry
after_expiry = bought ++ expire_entry 100 three_meals (pos 3) 31 ∷ []

expires : bought ++ expire ids three_meals bought 31 ≡ after_expiry
unfolding expire balance ◌+ℤ◌ to_word of_word
expires = refl

abbrev extended : List Entry
extended = adjustment_entry 100 three_meals (pos 3) 33 9 "perpanjangan" ∷ []

extends :
    extend_expiry ids three_meals (bought ++ expire ids three_meals bought 31) 33 9 "perpanjangan"
    ≡ ok extended
unfolding extend_expiry reversal_from expire balance ◌+ℤ◌ ◌-ℤ◌ to_word of_word
extends = refl

extend_expiry-balance_example :
    balance ((bought ++ expire ids three_meals bought 31) ++ extended) ≡ pos 3
unfolding reversal_from
extend_expiry-balance_example =
    extend_expiry-balance ids three_meals bought extended 31 33 9 3 0 "perpanjangan" bought-balance
      refl (omega arith) extends

-- A second expiry and a second extension: three credits become six.
abbrev cycled : List Entry
cycled = after_expiry ++ extended

second_extension :
    extend_expiry ids three_meals (cycled ++ expire ids three_meals cycled 61) 63 9 "perpanjangan"
    ≡ ok (adjustment_entry 100 three_meals (pos 6) 63 9 "perpanjangan" ∷ [])
unfolding extend_expiry reversal_from expire balance ◌+ℤ◌ ◌-ℤ◌ to_word of_word
second_extension = refl
