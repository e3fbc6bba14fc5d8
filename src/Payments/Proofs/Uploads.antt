-- ===== src/Payments/Proofs/Uploads.antt =====
-- When an upload is accepted, and what it moves.
use evermore.Base.{
  ◌*◌, ◌++◌, subst, Bool-cases, Option-cases, ℕ, suc, ◌+◌, ◌≤◌, ltb, ◌==◌, ◌≡◌, refl, ◌↔◌, ◌⊎◌, inl,
  inr, arith, Bool, true, false, ◌&&◌, List, [], ◌∷◌, Option, none, some, ok, tally, length,
  length-append, ◌≢◌,
}
use evermore.Order
use evermore.Order.{transition, customer}
use evermore.Payments.Rows.{Db, PaymentRow, OrderRow, ObjectKey, update, first, same_order_status}
use evermore.Payments.Proofs.{
  Deps, Upload, Mime, starts_with, jpeg_magic, png_magic, allowed, sniff, max_proof_bytes,
  find_owned, late, stored, key_of, to_move, submit_found, submit_proof, proof_writes,
}

submit_found-ok :
    (deps : Deps) (u : Upload) (mime : Mime) (db db' : Db) (found : Option (PaymentRow × OrderRow))
    → submit_found deps u mime db found ≡ ok db'
    → (p : PaymentRow) × (o : OrderRow) × (found ≡ some (p, o))
      × (o.status ≡ Order.awaiting_payment)
      × (late deps o.payment_deadline_at ≡ false)
      × (stored deps (key_of deps u mime) u.bytes mime ≡ true)
      × (tally (to_move u.order_id) db.orders ≡ 1)
      × (db' ≡ proof_writes deps u mime p db)
unfolding transition
submit_found-ok deps u mime db db' none h = cc
submit_found-ok deps u mime db db' (some (p, o)) h =
    (p, o, refl, ground arith, ground arith, ground arith, ground arith, ground arith)

-- The bytes are those of an image of this type: its first bytes say so.
abbrev pub IsImage : Mime → List ℕ → Type 0
IsImage Mime.jpeg bytes = (rest : List ℕ) × (bytes ≡ 255 ∷ 216 ∷ 255 ∷ rest)
IsImage Mime.png bytes = (rest : List ℕ) × (bytes ≡ 137 ∷ 80 ∷ 78 ∷ 71 ∷ 13 ∷ 10 ∷ 26 ∷ 10 ∷ rest)
IsImage Mime.octet_stream bytes = ⊥

-- The payment of the order that was seen, and the order, which is the customer's, awaits payment, and
-- has no deadline or one that is not over.
abbrev pub IsOpen : Deps → Upload → Db → PaymentRow → OrderRow → Type 0
IsOpen deps u seen p o =
    (first (λ p. p.order_id == u.order_id) seen.payments ≡ some p)
    × (first (λ o. o.id == p.order_id) seen.orders ≡ some o)
    × (o.customer_id ≡ u.customer_id)
    × (o.status ≡ Order.awaiting_payment)
    × ((o.payment_deadline_at ≡ none)
        ⊎ ((deadline : ℕ) × (o.payment_deadline_at ≡ some deadline) × (deps.now ≤ deadline)))

-- There is no object store, or it takes the image.
abbrev pub IsStored : Deps → Upload → Mime → Type 0
IsStored deps u mime =
    (deps.put ≡ none)
    ⊎ ((put : ObjectKey → List ℕ → Mime → Bool) × (deps.put ≡ some put)
        × (put (key_of deps u mime) u.bytes mime ≡ true))

-- What the upload asks for: an image of one of the two types and of at most 5 MB, for an order of the
-- customer that awaits payment within its deadline, that can be stored, and of which one row still
-- awaits payment when the transaction runs.
abbrev pub Acceptable : Deps → Upload → Db → Db → Type 0
Acceptable deps u seen db =
    (mime : Mime) × (p : PaymentRow) × (o : OrderRow) × IsImage mime u.bytes
    × (length u.bytes ≤ 5 * 1024 * 1024)
    × IsOpen deps u seen p o
    × IsStored deps u mime
    × (tally (λ q. q.id == u.order_id && same_order_status q.status Order.awaiting_payment)
          db.orders
        ≡ 1)

starts_parts :
    (magic bytes : List ℕ)
    → starts_with magic bytes ≡ true
    → (rest : List ℕ) × (bytes ≡ magic ++ rest)
starts_parts [] bytes h = (bytes, refl)
starts_parts (m ∷ ms) [] h = cc
starts_parts (m ∷ ms) (b ∷ bytes) h =
    let (rest, e) = starts_parts ms bytes (ground (arith, h)) in
    let same : b ≡ m = ground (arith, h) in (rest, rw (same, e) refl)

sniff-IsImage : (bytes : List ℕ) → allowed (sniff bytes) ≡ true → IsImage (sniff bytes) bytes
unfolding sniff
sniff-IsImage bytes h = elim (Bool-cases (starts_with jpeg_magic bytes)) [
  | inl y ↦ rw y (starts_parts jpeg_magic bytes y)
  | inr y ↦ elim (Bool-cases (starts_with png_magic bytes)) [
    | inl z ↦ rw (y, z) (starts_parts png_magic bytes z)
    | inr z ↦ absurd (ground (arith, h, y, z))
  ]
]

IsImage-sniff : (mime : Mime) (bytes : List ℕ) → IsImage mime bytes → sniff bytes ≡ mime
unfolding sniff
IsImage-sniff Mime.jpeg bytes (rest, e) = rw e refl
IsImage-sniff Mime.png bytes (rest, e) = rw e refl
IsImage-sniff Mime.octet_stream bytes h = elim h [ ]

found_parts :
    (seen : Db) (u : Upload) (p : PaymentRow) (o : OrderRow)
    → find_owned seen u ≡ some (p, o)
    → (first (λ p. p.order_id == u.order_id) seen.payments ≡ some p)
      × (first (λ o. o.id == p.order_id) seen.orders ≡ some o)
      × (o.customer_id ≡ u.customer_id)
unfolding find_owned
found_parts seen u p o h =
    elim (Option-cases (first (λ p. p.order_id == u.order_id) seen.payments)) [
      | inl n ↦ absurd (ground (arith, n, h))
      | inr (q, e) ↦ elim (Option-cases (first (λ o. o.id == q.order_id) seen.orders)) [
        | inl n ↦ absurd (ground (arith, e, n, h))
        | inr (r, f) ↦ elim (Bool-cases (r.customer_id == u.customer_id)) [
          | inl own ↦
              let pair : ◌≡◌ {A = Option (PaymentRow × OrderRow)} (some (q, r)) (some (p, o)) =
                ground (arith, e, f, own, h) in
              let same : q ≡ p = ground (arith, pair) in
              let same' : r ≡ o = ground (arith, pair) in
              (
                ground (arith, e, same),
                subst (λ x. first (λ o. o.id == x.order_id) seen.orders ≡ some o) same
                    (ground (arith, f, same')),
                ground (arith, own, same'),
              )
          | inr other ↦ absurd (ground (arith, e, f, other, h))
        ]
      ]
    ]

owned_found :
    (seen : Db) (u : Upload) (p : PaymentRow) (o : OrderRow)
    → first (λ p. p.order_id == u.order_id) seen.payments ≡ some p
    → first (λ o. o.id == p.order_id) seen.orders ≡ some o
    → o.customer_id ≡ u.customer_id
    → find_owned seen u ≡ some (p, o)
unfolding find_owned
owned_found seen u p o paid ordered own =
    let owner : (o.customer_id == u.customer_id) ≡ true = ground (arith, own) in
    rw (find_owned, paid, ordered, owner) refl

timely_parts :
    (deps : Deps) (d : Option ℕ)
    → late deps d ≡ false
    → (d ≡ none) ⊎ ((deadline : ℕ) × (d ≡ some deadline) × (deps.now ≤ deadline))
timely_parts deps none h = inl refl
timely_parts deps (some d) h = inr (d, refl, ground (arith, h))

timely :
    (deps : Deps) (d : Option ℕ)
    → (d ≡ none) ⊎ ((deadline : ℕ) × (d ≡ some deadline) × (deps.now ≤ deadline))
    → late deps d ≡ false
timely deps d (inl e) = rw e refl
timely deps d (inr (deadline, e, h)) = rw e (ground (arith, h))

stored-IsStored :
    (deps : Deps) (u : Upload) (mime : Mime)
    → stored deps (key_of deps u mime) u.bytes mime ≡ true
    → IsStored deps u mime
stored-IsStored deps u mime h = elim (Option-cases deps.put) [
  | inl n ↦ inl n
  | inr (put, e) ↦ inr (put, e, ground (arith, e, h))
]

IsStored-stored :
    (deps : Deps) (u : Upload) (mime : Mime)
    → IsStored deps u mime
    → stored deps (key_of deps u mime) u.bytes mime ≡ true
IsStored-stored deps u mime (inl n) = rw n refl
IsStored-stored deps u mime (inr (put, e, h)) = rw e h

submit_proof-Acceptable :
    (deps : Deps) (u : Upload) (seen db db' : Db)
    → submit_proof deps u seen db ≡ ok db'
    → Acceptable deps u seen db
unfolding submit_proof
submit_proof-Acceptable deps u seen db db' h =
    let small : ltb max_proof_bytes (length u.bytes) ≡ false = ground arith in
    let image : allowed (sniff u.bytes) ≡ true = ground arith in
    let (p, o, found, awaiting, in_time, kept, one, _) =
      submit_found-ok deps u (sniff u.bytes) db db' (find_owned seen u) (ground arith) in
    let (paid, ordered, own) = found_parts seen u p o found in
    (
      sniff u.bytes,
      p,
      o,
      sniff-IsImage u.bytes image,
      ground (arith, small),
      (paid, ordered, own, awaiting, timely_parts deps o.payment_deadline_at in_time),
      stored-IsStored deps u (sniff u.bytes) kept,
      one,
    )

nonempty : (mime : Mime) (bytes : List ℕ) → IsImage mime bytes → (length bytes == 0) ≡ false
nonempty Mime.jpeg bytes (rest, e) = rw e (ground arith)
nonempty Mime.png bytes (rest, e) = rw e (ground arith)
nonempty Mime.octet_stream bytes h = elim h [ ]

image_allowed : (mime : Mime) (bytes : List ℕ) → IsImage mime bytes → allowed mime ≡ true
image_allowed Mime.jpeg bytes h = refl
image_allowed Mime.png bytes h = refl
image_allowed Mime.octet_stream bytes h = elim h [ ]

Acceptable-submit_proof :
    (deps : Deps) (u : Upload) (seen db : Db)
    → Acceptable deps u seen db
    → (db' : Db) × (submit_proof deps u seen db ≡ ok db')
unfolding submit_proof transition
Acceptable-submit_proof deps u seen db
      (mime, p, o, image, high, (paid, ordered, own, awaiting, deadline), kept, one) =
    let type : sniff u.bytes ≡ mime = IsImage-sniff mime u.bytes image in
    let fine : allowed mime ≡ true = image_allowed mime u.bytes image in
    let some_bytes = nonempty mime u.bytes image in
    let small : ltb max_proof_bytes (length u.bytes) ≡ false = ground (arith, high) in
    let in_time = timely deps o.payment_deadline_at deadline in
    let put = IsStored-stored deps u mime kept in
    let found = owned_found seen u p o paid ordered own in
    (
      proof_writes deps u mime p db,
      rw (some_bytes, small, type, fine, found) (ground (arith, awaiting, in_time, put, one)),
    )

-- An upload is accepted exactly if it is an image of at most 5 MB whose first bytes are those of a
-- JPEG or a PNG, for an order of that customer that was seen awaiting payment and whose deadline,
-- if it has one, is not over, that the object store, if there is one, takes, and if exactly one row
-- of that order still awaits payment when the transaction runs.
pub submit_proof_iff :
    (deps : Deps) (u : Upload) (seen db : Db)
    → ((db' : Db) × (submit_proof deps u seen db ≡ ok db')) ↔ Acceptable deps u seen db
submit_proof_iff deps u seen db = (
  (λ (db', h). submit_proof-Acceptable deps u seen db db' h),
  Acceptable-submit_proof deps u seen db,
)

abbrev pub is_moved : ℕ → OrderRow → Bool
is_moved order_id o = o.id == order_id && same_order_status o.status Order.payment_submitted

moved_orders :
    (id : ℕ) (os : List OrderRow)
    → let os' = update (to_move id) (λ o. record o { status = Order.payment_submitted }) os in
      (tally (to_move id) os' ≡ 0)
      × (tally (is_moved id) os' ≡ tally (is_moved id) os + tally (to_move id) os)
moved_orders id [] = (refl, refl)
moved_orders id (o ∷ os) =
    let (none_left, more) = moved_orders id os in (ground (arith, none_left), ground (arith, more))

-- An accepted upload moves the order, one row, from AWAITING_PAYMENT to PAYMENT_SUBMITTED, leaves no
-- row of it awaiting payment, and records one proof and one event; a second transaction that still
-- believes the order to await payment is refused on what the first one leaves.
pub submit_proof_moves :
    (deps : Deps) (u : Upload) (seen db db' : Db)
    → submit_proof deps u seen db ≡ ok db'
    → (tally (is_moved u.order_id) db'.orders ≡ suc (tally (is_moved u.order_id) db.orders))
      × (tally (to_move u.order_id) db'.orders ≡ 0)
      × (length db'.proofs ≡ suc (length db.proofs))
      × (length db'.events ≡ suc (length db.events))
      × ((v : Upload) (later : Db) (more : Db)
          → v.order_id ≡ u.order_id
          → submit_proof deps v later db' ≢ ok more)
unfolding submit_proof
submit_proof_moves deps u seen db db' h =
    let (p, o, _, _, _, _, one, writes) =
      submit_found-ok deps u (sniff u.bytes) db db' (find_owned seen u) (ground arith) in
    let (gone, moved) = moved_orders u.order_id db.orders in
    let empty : tally (to_move u.order_id) db'.orders ≡ 0 = rw writes gone in
    (
      rw writes (omega (arith, moved, one)),
      empty,
      rw writes (omega (arith, length-append db.proofs _)),
      rw writes (omega (arith, length-append db.events _)),
      λ v later more same ok_again.
          let (_, _, _, _, _, _, _, one_again) =
            submit_proof-Acceptable deps v later db' more ok_again in
          absurd (ground (arith, empty, one_again, same)),
    )
