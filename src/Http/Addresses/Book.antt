-- ===== src/Http/Addresses/Book.antt =====
-- The address book of a customer: one default address as soon as there is an address.
pub mod Statements
pub mod Switching
pub mod Removal
pub mod Requests
use evermore.Base.{
  ℕ, ◌≤◌, Bool, true, false, not, ◌&&◌, ◌||◌, ◌==◌, ◌≡◌, List, [], ◌∷◌, if◌then◌else◌, tally, keep,
}
use evermore.Http.Addresses.{AddressRow, is_live, is_main}

-- Exactly one default address when a customer has an address, and none otherwise.
abbrev pub one_if_any : ℕ → ℕ
one_if_any n = if n == 0 then 0 else 1

module _ {ℓ} {F : Type ℓ} where
  -- Rows of other customers.
  abbrev pub foreign : ℕ → AddressRow F → Bool
  foreign c r = not (r.customer_id == c)

  abbrev pub Settled : ℕ → List (AddressRow F) → Type 0
  Settled c rows = tally (is_main c) rows ≡ one_if_any (tally (is_live c) rows)

  -- An id is that of one row.
  abbrev pub Keyed : List (AddressRow F) → Type 0
  Keyed rows = (i : ℕ) → tally (λ r. r.id == i) rows ≤ 1

  -- The book of every customer is settled.
  abbrev pub Book : List (AddressRow F) → Type 0
  Book rows = Keyed rows × ((c : ℕ) → Settled c rows)
