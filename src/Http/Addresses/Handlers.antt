-- ===== src/Http/Addresses/Handlers.antt =====
-- The handlers of the address screens: `AddAddress`, `EditAddress`, `DefaultAddress` and
-- `RemoveAddress` of internal/adapter/http/app_address.go.
use Prim.Native.String.{String}
use evermore.Base.{
  ℕ, Bool, ◌==◌, List, [], ◌∷◌, Option, none, some, if◌then◌else◌, tally, Result, ok, err,
}
use evermore.Auth.Tables.{Principal}
use evermore.Platform.Sanitize.{Unicode}
use evermore.Platform.Sanitize.Coordinates.{Floats}
use evermore.Platform.Errors.{GoError, as_error, not_found}
use evermore.Http.Sessions.{Reply, saved, sent_back, failed, require_customer, notice_of}
use evermore.Http.Addresses.{
  AddressRow, is_target, add_address, edit_address, set_default_address, remove_address,
}
use evermore.Http.Addresses.Forms.{Posted, AddressForm, read_address_form, columns_of}

-- A request of the address screens; an id that is no UUID is missing.
pub data Request : Type 0 where
  add : Posted → Request
  edit : Option ℕ → Posted → Request
  make_default : Option ℕ → Request
  remove : Option ℕ → Request

-- What the handlers are given beside the request: its session, a new id and the time.
pub record Call : Type 0 where
  pub principal : Option Principal
  pub new_id : ℕ
  pub now : ℕ

-- The answer, and the table after the request.
abbrev pub Outcome {ℓ} : Type ℓ → Type ℓ
Outcome F = Reply × List (AddressRow F)

abbrev absent : Reply
absent = failed (as_error (not_found "Address not found."))

module _ {ℓ} {F : Type ℓ} where
  -- The end of a handler: a transaction that fails leaves the table as it was.
  abbrev pub finish :
      Result GoError (List (AddressRow F)) → String → List (AddressRow F) → Outcome F
  finish (ok rows') done rows = (saved done, rows')
  finish (err e) done rows = (sent_back (notice_of e), rows)

  abbrev pub add_form :
      Call → ℕ → Result GoError (AddressForm F × Bool) → List (AddressRow F) → Outcome F
  add_form call c (err e) rows = (sent_back (notice_of e), rows)
  add_form call c (ok (f, asked)) rows =
      finish (add_address call.new_id call.now c (columns_of f) asked rows) "Alamat disimpan." rows

  -- What follows the UPDATE of an edit, which is not in the transaction of the default.
  abbrev pub edited_form : ℕ → ℕ → Bool → List (AddressRow F) → List (AddressRow F) → Outcome F
  edited_form c a asked edited rows =
      let switched = finish (set_default_address c a edited) "Alamat diperbarui." edited in
      if tally (is_target c a) rows == 0
      then (absent, edited)
      else if asked
      then switched
      else (saved "Alamat diperbarui.", edited)

  abbrev pub edit_form :
      ℕ → ℕ → Result GoError (AddressForm F × Bool) → List (AddressRow F) → Outcome F
  edit_form c a (err e) rows = (sent_back (notice_of e), rows)
  edit_form c a (ok (f, asked)) rows = elim (edit_address c a (columns_of f) rows) [
    | err e ↦ (sent_back (notice_of e), rows)
    | ok edited ↦ edited_form c a asked edited rows
  ]

  abbrev pub serve : Unicode → Floats F → Call → ℕ → Request → List (AddressRow F) → Outcome F
  serve u n call c (add p) rows = add_form call c (read_address_form u n p) rows
  serve u n call c (edit none p) rows = (absent, rows)
  serve u n call c (edit (some a) p) rows = edit_form c a (read_address_form u n p) rows
  serve u n call c (make_default none) rows = (absent, rows)
  serve u n call c (make_default (some a)) rows =
      finish (set_default_address c a rows) "Alamat utama diubah." rows
  serve u n call c (remove none) rows = (absent, rows)
  serve u n call c (remove (some a)) rows = finish (remove_address c a rows) "Alamat dihapus." rows

  unfoldable pub handle : Unicode → Floats F → Call → Request → List (AddressRow F) → Outcome F
  handle u n call r rows = elim (require_customer call.principal "/app/addresses") [
    | err reply ↦ (reply, rows)
    | ok c ↦ serve u n call c r rows
  ]

  -- The requests one after another, and the table at the end.
  unfoldable pub handle_all :
      Unicode → Floats F → List (Call × Request) → List (AddressRow F) → List (AddressRow F)
  handle_all u n [] rows = rows
  handle_all u n ((call, r) ∷ rest) rows = handle_all u n rest (handle u n call r rows).1
