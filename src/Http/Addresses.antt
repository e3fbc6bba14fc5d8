-- ===== src/Http/Addresses.antt =====
-- The address screens of internal/adapter/http/app_address.go: their statements on customer_address
-- with the partial unique index of db/migrations/0003_identity.up.sql.
pub mod Forms
pub mod Handlers
pub mod Book
pub mod Allergies
use evermore.Base.{
  ℕ, Bool, true, false, not, ◌&&◌, ◌||◌, ltb, leb, ◌==◌, List, [], ◌∷◌, ◌++◌, Option, none, some,
  if◌then◌else◌, tally, update, first, Result, ok, err, refuse, ◌>>=◌, ◌>>◌,
}
use evermore.Platform.Sanitize.{Text}
use evermore.Platform.Errors.{GoError, driver, as_error, not_found}

-- The columns that the form fills.
pub record AddressFields {ℓ} (F : Type ℓ) : Type ℓ where
  pub label : Text
  pub recipient : Text
  pub phone : Text
  pub line : Text
  pub district : Text
  pub city : Text
  pub province : Text
  pub postal : Text
  pub note : Text
  pub lat : F
  pub lng : F
  pub place_id : Option Text
  pub formatted : Option Text

-- updated_at is not read.
pub record AddressRow {ℓ} (F : Type ℓ) : Type ℓ where
  pub id : ℕ
  pub customer_id : ℕ
  pub fields : AddressFields F
  pub is_default : Bool
  pub is_active : Bool
  pub created_at : ℕ

module _ {ℓ} {F : Type ℓ} where
  -- `customer_id = $1 AND is_active`, and with `is_default`.
  abbrev pub is_live : ℕ → AddressRow F → Bool
  is_live c r = r.customer_id == c && r.is_active

  abbrev pub is_main : ℕ → AddressRow F → Bool
  is_main c r = is_live c r && r.is_default

  -- `id = $1 AND customer_id = $2 AND is_active`
  abbrev pub is_target : ℕ → ℕ → AddressRow F → Bool
  is_target c a r = is_live c r && r.id == a

  abbrev pub set_default : Bool → AddressRow F → AddressRow F
  set_default d r = record r { is_default = d }

  -- Two default addresses of a customer, for a customer of one of the given rows.
  unfoldable pub clash : List (AddressRow F) → List (AddressRow F) → Bool
  clash all [] = false
  clash all (r ∷ rs) = ltb 1 (tally (is_main r.customer_id) all) || clash all rs

  -- The unique index customer_address_one_default_uk, which every statement is checked against.
  unfoldable pub indexed : List (AddressRow F) → Result GoError (List (AddressRow F))
  indexed rows = if clash rows rows then err (driver "customer_address_one_default_uk") else ok rows

  abbrev pub exec :
      (AddressRow F → Bool)
      → (AddressRow F → AddressRow F)
      → List (AddressRow F)
      → Result GoError (List (AddressRow F))
  exec test change rows = indexed (update test change rows)

  -- The INSERT, with the primary key.
  unfoldable pub insert_address :
      AddressRow F → List (AddressRow F) → Result GoError (List (AddressRow F))
  insert_address r rows =
      if ltb 0 (tally (λ x. x.id == r.id) rows)
      then err (driver "customer_address_pkey")
      else indexed (rows ++ r ∷ [])

  -- The transaction of `AddAddress`.
  unfoldable pub add_address :
      ℕ
      → ℕ
      → ℕ
      → AddressFields F
      → Bool
      → List (AddressRow F)
      → Result GoError (List (AddressRow F))
  add_address new_id now c f asked rows = do
    let make_default = asked || tally (is_live c) rows == 0
    cleared ←
        if make_default then exec (λ r. r.customer_id == c) (set_default false) rows else ok rows
    insert_address
        (record {
          id = new_id;
          customer_id = c;
          fields = f;
          is_default = make_default;
          is_active = true;
          created_at = now;
        })
        cleared

  -- A conditional UPDATE: no row is an error.
  abbrev on_one : (AddressRow F → Bool) → List (AddressRow F) → Result GoError (Unit {0})
  on_one test rows = refuse (tally test rows == 0) (as_error (not_found "Address not found."))

  unfoldable pub set_default_address :
      ℕ → ℕ → List (AddressRow F) → Result GoError (List (AddressRow F))
  set_default_address c a rows = do
    marked ← exec (is_target c a) (set_default true) rows
    on_one (is_target c a) rows
    exec (λ r. r.customer_id == c && not (r.id == a)) (set_default false) marked

  -- The UPDATE of `EditAddress`.
  unfoldable pub edit_address :
      ℕ → ℕ → AddressFields F → List (AddressRow F) → Result GoError (List (AddressRow F))
  edit_address c a f rows = exec (is_target c a) (λ r. record r { fields = f }) rows

  -- `SELECT id … AND is_active ORDER BY created_at LIMIT 1`
  abbrev pub elder : Bool → AddressRow F → Option (AddressRow F) → Option (AddressRow F)
  elder false r o = o
  elder true r none = some r
  elder true r (some s) = if leb r.created_at s.created_at then some r else some s

  unfoldable pub oldest : ℕ → List (AddressRow F) → Option (AddressRow F)
  oldest c [] = none
  oldest c (r ∷ rs) = elder (is_live c r) r (oldest c rs)

  -- The UPDATE that promotes the oldest address of a customer without a default one.
  abbrev pub promote_row :
      Option (AddressRow F) → List (AddressRow F) → Result GoError (List (AddressRow F))
  promote_row none rows = indexed rows
  promote_row (some r) rows = exec (λ x. x.id == r.id) (set_default true) rows

  unfoldable pub promote : ℕ → List (AddressRow F) → Result GoError (List (AddressRow F))
  promote c rows =
      let promoted = promote_row (oldest c rows) rows in
      if tally (is_main c) rows == 0 then promoted else indexed rows

  -- The transaction of `RemoveAddress`.
  unfoldable pub remove_address : ℕ → ℕ → List (AddressRow F) → Result GoError (List (AddressRow F))
  remove_address c a rows = do
    removed ← exec (is_target c a) (λ r. record r { is_default = false; is_active = false }) rows
    on_one (is_target c a) rows
    promote c removed
