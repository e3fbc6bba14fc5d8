-- ===== src/Http/Addresses/Book/Requests.antt =====
-- What the requests of the address screens do to the books.
use Prim.Native.String.{String}
use evermore.Base.{
  ◌⊎◌, ℕ, Bool, ◌==◌, ==_iff, ◌≡◌, refl, sym, subst, ◌∙◌, inl, inr, List, [], ◌∷◌, none, some,
  tally, keep, Result, ok, err, Bool-cases, Result-cases,
}
use evermore.Platform.Sanitize.{Unicode}
use evermore.Platform.Sanitize.Coordinates.{Floats}
use evermore.Platform.Errors.{GoError}
use evermore.Http.Sessions.{Reply, require_customer}
use evermore.Http.Addresses.{
  AddressRow, is_target, add_address, edit_address, set_default_address, remove_address,
}
use evermore.Http.Addresses.Forms.{AddressForm, read_address_form, columns_of}
use evermore.Http.Addresses.Handlers.{
  Request, add, edit, make_default, remove, Call, finish, add_form, edited_form, edit_form, serve,
  handle, handle_all,
}
use evermore.Http.Addresses.Book.{foreign, Settled, Keyed, Book}
use evermore.Http.Addresses.Book.Statements.{Kept, Own-Settled, add_address-Kept}
use evermore.Http.Addresses.Book.Switching.{set_default-Kept, edit_address-Kept}
use evermore.Http.Addresses.Book.Removal.{remove_address-Kept}

module _ {ℓ} {F : Type ℓ} where
  -- A transaction that keeps the book keeps it under a handler too: it fails, or succeeds.
  finish-Kept :
      (c : ℕ) (t : Result GoError (List (AddressRow F))) (done : String)
      (before rows : List (AddressRow F))
      → Kept c before rows
      → ((rows' : List (AddressRow F)) → t ≡ ok rows' → Kept c rows rows')
      → Kept c before (finish t done rows).1
  finish-Kept c (ok rows') done before rows (own, _, _) h =
      let (own', keyed, settled) = h rows' refl in (own' ∙ own, keyed, settled)
  finish-Kept c (err e) done before rows kept h = kept

  edited_form-Kept :
      (c a : ℕ) (asked : Bool) (edited rows : List (AddressRow F))
      → Kept c rows edited
      → Kept c rows (edited_form c a asked edited rows).1
  edited_form-Kept c a asked edited rows kept =
      elim (Bool-cases (tally (is_target c a) rows == 0)) [
        | inl z ↦ rw (edited_form, z) kept
        | inr p ↦ elim (Bool-cases asked) [
          | inl y ↦
              rw (edited_form, p, y)
                (finish-Kept c (set_default_address c a edited) "Alamat diperbarui." rows edited
                  kept (λ rows' h. set_default-Kept c a edited rows' kept.1 h))
          | inr y ↦ rw (edited_form, p, y) kept
        ]
      ]

  form-Kept :
      (c a : ℕ) (f : AddressForm F) (asked : Bool) (rows : List (AddressRow F))
      → Keyed rows
      → Settled c rows
      → Kept c rows (edit_form c a (ok (f, asked)) rows).1
  form-Kept c a f asked rows keyed settled =
      elim (Result-cases (edit_address c a (columns_of f) rows)) [
        | inl (edited, e) ↦
            rw (edit_form, e)
              (edited_form-Kept c a asked edited rows
                (edit_address-Kept c a (columns_of f) rows edited keyed settled e))
        | inr (g, e) ↦ rw (edit_form, e) (refl, keyed, settled)
      ]

  serve-Kept :
      (u : Unicode) (n : Floats F) (call : Call) (c : ℕ) (r : Request) (rows : List (AddressRow F))
      → Keyed rows
      → Settled c rows
      → Kept c rows (serve u n call c r rows).1
  serve-Kept u n call c (add p) rows keyed settled = elim (Result-cases (read_address_form u n p)) [
    | inl ((f, asked), e) ↦
        rw (add_form, e)
          (finish-Kept c (add_address call.new_id call.now c (columns_of f) asked rows)
            "Alamat disimpan." rows rows (refl, keyed, settled)
            (λ rows' h.
              add_address-Kept call.new_id call.now c (columns_of f) asked rows rows' keyed settled
                h))
    | inr (g, e) ↦ rw (add_form, e) (refl, keyed, settled)
  ]
  serve-Kept u n call c (edit none p) rows keyed settled = (refl, keyed, settled)
  serve-Kept u n call c (edit (some a) p) rows keyed settled =
      elim (Result-cases (read_address_form u n p)) [
        | inl ((f, asked), e) ↦ rw e (form-Kept c a f asked rows keyed settled)
        | inr (g, e) ↦ rw (edit_form, e) (refl, keyed, settled)
      ]
  serve-Kept u n call c (make_default none) rows keyed settled = (refl, keyed, settled)
  serve-Kept u n call c (make_default (some a)) rows keyed settled =
      finish-Kept c (set_default_address c a rows) "Alamat utama diubah." rows rows
        (refl, keyed, settled) (λ rows' h. set_default-Kept c a rows rows' keyed h)
  serve-Kept u n call c (remove none) rows keyed settled = (refl, keyed, settled)
  serve-Kept u n call c (remove (some a)) rows keyed settled =
      finish-Kept c (remove_address c a rows) "Alamat dihapus." rows rows (refl, keyed, settled)
        (λ rows' h. remove_address-Kept c a rows rows' keyed settled h)

  Kept-Book :
      (c : ℕ) (rows rows' : List (AddressRow F)) → Book rows → Kept c rows rows' → Book rows'
  Kept-Book c rows rows' (keyed, settled) (own, keyed', settled') = (
    keyed',
    λ d. elim (Bool-cases (d == c)) [
      | inl e ↦ subst (λ i. Settled i rows') (sym ((==_iff d c).0 e)) settled'
      | inr e ↦ Own-Settled c d rows rows' e own (settled d)
    ],
  )

  pub handle-Book :
      (u : Unicode) (n : Floats F) (call : Call) (r : Request) (rows : List (AddressRow F))
      → Book rows
      → Book (handle u n call r rows).1
  unfolding handle
  handle-Book u n call r rows book =
      elim (Result-cases (require_customer call.principal "/app/addresses")) [
        | inl (c, e) ↦
            rw (handle, e)
              (Kept-Book c rows (serve u n call c r rows).1 book
                (serve-Kept u n call c r rows book.0 (book.1 c)))
        | inr (reply, e) ↦ rw (handle, e) book
      ]

-- Whatever the address screens are asked, by whom and in which order, an id stays that of one
-- address, and every customer with an address has exactly one default address, every other none,
-- when that holds before.
pub handle_all-Book {ℓ} :
    {F : Type ℓ} (u : Unicode) (n : Floats F) (calls : List (Call × Request))
    (rows : List (AddressRow F))
    → Book rows
    → Book (handle_all u n calls rows)
unfolding handle_all
handle_all-Book u n [] rows book = book
handle_all-Book u n ((call, r) ∷ rest) rows book =
    handle_all-Book u n rest (handle u n call r rows).1 (handle-Book u n call r rows book)

-- A request of the address screens that comes from a customer leaves the addresses of all other
-- customers as they were, and one that comes from no customer leaves all addresses, in settled
-- books.
pub handle-own {ℓ} :
    {F : Type ℓ} (u : Unicode) (n : Floats F) (call : Call) (r : Request)
    (rows : List (AddressRow F))
    → Book rows
    → ((c : ℕ) × (require_customer call.principal "/app/addresses" ≡ ok c)
        × (keep (foreign c) (handle u n call r rows).1 ≡ keep (foreign c) rows))
      ⊎ ((reply : Reply) × (require_customer call.principal "/app/addresses" ≡ err reply)
          × (handle u n call r rows ≡ (reply, rows)))
unfolding handle
handle-own u n call r rows book =
    elim (Result-cases (require_customer call.principal "/app/addresses")) [
      | inl (c, e) ↦ inl (c, e, rw (handle, e) (serve-Kept u n call c r rows book.0 (book.1 c)).0)
      | inr (reply, e) ↦ inr (reply, e, rw (handle, e) refl)
    ]
