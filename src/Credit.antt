-- ===== src/Credit.antt =====
-- internal/domain/credit/ledger.go: the append-only credit ledger. Identifiers are numbers, and a
-- time or a date is the number of its instant or its day. `new_id i` stands for the result of the
-- i-th call of uuid.New within an operation.
pub mod Balance
pub mod Redemption
pub mod Expiry
pub mod Lifecycle
mod Examples
use Prim.Native.String.{String}
use evermore.Base.{
  ℕ, zero, suc, ◌≡◌, Bool, true, false, not, ◌||◌, List, [], ◌∷◌, Option, none, some, ltb,
  if◌then◌else◌, Result, ok, err, refuse, ◌>>=◌, ◌>>◌,
}
use evermore.Int64.{ℤ, pos, negsuc, ◌+ℤ◌, ◌-ℤ◌, ◌<ℤ◌, ◌≤ℤ◌, ◌==ℤ◌}
use evermore.Text.{is_empty}

pub data EntryType : Type 0 where
  purchase redeemed refund expired adjustment : EntryType

pub record Entry : Type 0 where
  pub id : ℕ
  pub customer_id : ℕ
  pub customer_package_id : ℕ
  pub entry_type : EntryType
  pub qty : ℤ
  pub reference_type : String
  pub reference_id : Option ℕ
  pub occurred_at : ℕ
  pub created_by : Option ℕ
  pub note : String

pub data CreditError : Type 0 where
  insufficient_credit package_not_active package_expired reason_required : CreditError
  meals_not_positive adjustment_of_zero : CreditError

pub data Status : Type 0 where
  pending active exhausted lapsed cancelled : Status

pub record Package : Type 0 where
  pub id : ℕ
  pub customer_id : ℕ
  pub meal_credits : ℤ
  pub expires_at : ℕ
  pub status : Status

-- The loop of `Balance`, from the total so far.
unfoldable pub balance_from : ℤ → List Entry → ℤ
balance_from total [] = total
balance_from total (e ∷ rest) = balance_from (total +ℤ e.qty) rest

unfoldable pub balance : List Entry → ℤ
unfolding balance_from
balance entries = balance_from (pos 0) entries

pub record RedeemRequest : Type 0 where
  pub pkg : Package
  pub entries : List Entry
  pub meals : ℤ
  pub service_date : ℕ
  pub occurred_at : ℕ
  pub reference_id : ℕ
  pub reference_typ : String
  pub actor_id : Option ℕ

abbrev pub is_active : Status → Bool
is_active active = true
is_active _ = false

-- The entry that each round of the loop of `Redeem` appends.
abbrev pub redeem_entry : RedeemRequest → ℕ → Entry
redeem_entry req new = record {
  id = new;
  customer_id = req.pkg.customer_id;
  customer_package_id = req.pkg.id;
  entry_type = redeemed;
  qty = negsuc 0;
  reference_type = req.reference_typ;
  reference_id = some req.reference_id;
  occurred_at = req.occurred_at;
  created_by = req.actor_id;
  note = "";
}

-- The loop of `Redeem`, from round i, with the number of rounds left.
unfoldable pub redeem_loop : (ℕ → ℕ) → RedeemRequest → ℕ → ℕ → List Entry
redeem_loop new_id req i zero = []
redeem_loop new_id req i (suc n) = redeem_entry req (new_id i) ∷ redeem_loop new_id req (suc i) n

-- The rounds of a loop `for i := 0; i < n; i++`.
abbrev pub rounds : ℤ → ℕ
rounds (pos n) = n
rounds (negsuc n) = 0

unfoldable pub redeem : (ℕ → ℕ) → RedeemRequest → Result CreditError (List Entry)
redeem new_id req = do
  refuse (req.meals ≤ℤ pos 0) meals_not_positive
  refuse (not (is_active req.pkg.status)) package_not_active
  refuse (ltb req.pkg.expires_at req.service_date) package_expired
  refuse (balance req.entries <ℤ req.meals) insufficient_credit
  ok (redeem_loop new_id req 0 (rounds req.meals))

pub record SkipRequest : Type 0 where
  pub pkg : Package
  pub now : ℕ
  pub cut_off_at : ℕ
  pub reference_id : ℕ
  pub actor_id : Option ℕ

unfoldable skip : (ℕ → ℕ) → SkipRequest → List Entry
skip new_id req =
    if not (ltb req.now req.cut_off_at)
    then []
    else record {
      id = new_id 0;
      customer_id = req.pkg.customer_id;
      customer_package_id = req.pkg.id;
      entry_type = refund;
      qty = pos 1;
      reference_type = "delivery";
      reference_id = some req.reference_id;
      occurred_at = req.now;
      created_by = req.actor_id;
      note = "";
    }
      ∷ []

-- The row that `Expire` appends, for a positive balance.
abbrev pub expire_entry : ℕ → Package → ℤ → ℕ → Entry
expire_entry new pkg bal at = record {
  id = new;
  customer_id = pkg.customer_id;
  customer_package_id = pkg.id;
  entry_type = expired;
  qty = pos 0 -ℤ bal;
  reference_type = "customer_package";
  reference_id = none;
  occurred_at = at;
  created_by = none;
  note = "kredit hangus pada tanggal berakhir";
}

unfoldable pub expire : (ℕ → ℕ) → Package → List Entry → ℕ → List Entry
expire new_id pkg entries at =
    let bal = balance entries in
    if bal ≤ℤ pos 0 then [] else expire_entry (new_id 0) pkg bal at ∷ []

abbrev pub is_expire : EntryType → Bool
is_expire expired = true
is_expire _ = false

-- The loop of `ExtendExpiry`, from the reversal so far.
unfoldable pub reversal_from : ℤ → List Entry → ℤ
reversal_from reversal [] = reversal
reversal_from reversal (e ∷ rest) =
    reversal_from (if is_expire e.entry_type then reversal -ℤ e.qty else reversal) rest

-- The row that `ExtendExpiry` and `Adjust` append.
abbrev pub adjustment_entry : ℕ → Package → ℤ → ℕ → ℕ → String → Entry
adjustment_entry new pkg qty at actor reason = record {
  id = new;
  customer_id = pkg.customer_id;
  customer_package_id = pkg.id;
  entry_type = adjustment;
  qty = qty;
  reference_type = "customer_package";
  reference_id = none;
  occurred_at = at;
  created_by = some actor;
  note = reason;
}

unfoldable pub extend_expiry :
    (ℕ → ℕ) → Package → List Entry → ℕ → ℕ → String → Result CreditError (List Entry)
extend_expiry new_id pkg entries at actor reason = do
  refuse (is_empty reason) reason_required
  let reversal = reversal_from (pos 0) entries
  ok (
      if reversal ==ℤ pos 0
      then []
      else adjustment_entry (new_id 0) pkg reversal at actor reason ∷ [])

unfoldable adjust : (ℕ → ℕ) → Package → ℤ → ℕ → ℕ → String → Result CreditError (List Entry)
adjust new_id pkg qty at actor reason = do
  refuse (is_empty reason) reason_required
  refuse (qty ==ℤ pos 0) adjustment_of_zero
  ok (adjustment_entry (new_id 0) pkg qty at actor reason ∷ [])

-- What `NextStatus` decides once a package is neither pending nor cancelled.
next_spendable : Package → List Entry → ℕ → Status
next_spendable pkg entries today =
    if ltb pkg.expires_at today
    then lapsed
    else if balance entries ≤ℤ pos 0
    then exhausted
    else active

next_status_of : Status → Package → List Entry → ℕ → Status
unfolding next_spendable
next_status_of pending pkg entries today = pending
next_status_of cancelled pkg entries today = cancelled
next_status_of _ pkg entries today = next_spendable pkg entries today

unfoldable pub next_status : Package → List Entry → ℕ → Status
unfolding next_status_of
next_status pkg entries today = next_status_of pkg.status pkg entries today
