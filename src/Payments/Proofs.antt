-- ===== src/Payments/Proofs.antt =====
-- `SubmitProof`, with `sniff`: a customer uploads the image of a transfer receipt. The reads come
-- before the transaction, so the tables they see (`seen`) may differ from those it changes (`db`).
-- The digest, its hexadecimal prefix, the clock and the object store are parameters.
pub mod Uploads
use Prim.Native.String.{String}
use evermore.Base.{
  ℕ, zero, suc, ◌*◌, ltb, leb, ◌==◌, Bool, true, false, not, ◌&&◌, ◌||◌, List, [], ◌∷◌, ◌++◌,
  Option, none, some, if◌then◌else◌, Result, ok, err, refuse, ◌>>=◌, ◌>>◌, length, tally,
}
use evermore.Int64.{ℤ, pos, ◌==ℤ◌}
use evermore.Money.{Idr}
use evermore.Text.{is_empty}
use evermore.Order
use evermore.Order.{customer, transition}
use evermore.Payments.Rows.{
  Db, PaymentRow, OrderRow, PaymentError, ObjectKey, payment_not_found, not_awaiting_proof,
  deadline_passed, proof_too_large, proof_wrong_type, storage_failed, submitted, update, first,
  order_of, same_order_status, domain,
}

abbrev pub max_proof_bytes : ℕ
max_proof_bytes = 5 * 1024 * 1024

pub data Mime : Type 0 where
  jpeg png octet_stream : Mime

abbrev pub allowed : Mime → Bool
allowed jpeg = true
allowed png = true
allowed octet_stream = false

-- The first bytes are those of the list.
abbrev pub starts_with : List ℕ → List ℕ → Bool
starts_with [] bytes = true
starts_with (m ∷ ms) [] = false
starts_with (m ∷ ms) (b ∷ bytes) = (b == m) && starts_with ms bytes

abbrev jpeg_magic : List ℕ
jpeg_magic = 255 ∷ 216 ∷ 255 ∷ []

abbrev png_magic : List ℕ
png_magic = 137 ∷ 80 ∷ 78 ∷ 71 ∷ 13 ∷ 10 ∷ 26 ∷ 10 ∷ []

unfoldable pub sniff : List ℕ → Mime
sniff bytes =
    if starts_with jpeg_magic bytes
    then jpeg
    else if starts_with png_magic bytes
    then png
    else octet_stream

abbrev null_if_zero : Idr → Option Idr
null_if_zero v = if v ==ℤ pos 0 then none else some v

abbrev null_if_blank : String → Option String
null_if_blank s = if is_empty s then none else some s

-- What a call takes from outside; `put` is none where no object store is configured, and answers
-- whether the object was stored.
pub record Deps : Type 0 where
  pub now : ℕ
  pub digest : List ℕ → String
  pub prefix : String → String
  pub put : Option (ObjectKey → List ℕ → Mime → Bool)

pub record Upload : Type 0 where
  pub customer_id : ℕ
  pub order_id : ℕ
  pub bytes : List ℕ
  pub declared : Idr
  pub sender : String

abbrev pub owned : ℕ → OrderRow → Bool
owned customer_id o = o.customer_id == customer_id

-- `p.order_id = $1 AND o.customer_id = $2`, over the join of payment and order.
unfoldable pub find_owned : Db → Upload → Option (PaymentRow × OrderRow)
find_owned db u = elim (first (λ p. p.order_id == u.order_id) db.payments) [
  | none ↦ none
  | some p ↦ elim (order_of db p) [
    | none ↦ none
    | some o ↦ if owned u.customer_id o then some (p, o) else none
  ]
]

abbrev pub late : Deps → Option ℕ → Bool
late deps none = false
late deps (some deadline) = ltb deadline deps.now

abbrev pub key_of : Deps → Upload → Mime → ObjectKey
key_of deps u mime = record {
  order_id = u.order_id;
  digest_prefix = deps.prefix (deps.digest u.bytes);
  ext = elim mime [ jpeg ↦ ".jpg" | _ ↦ ".png" ];
}

abbrev pub stored : Deps → ObjectKey → List ℕ → Mime → Bool
stored deps key bytes mime = elim deps.put [ none ↦ true | some put ↦ put key bytes mime ]

abbrev is_awaiting : Order.Status → Bool
is_awaiting status = same_order_status status Order.awaiting_payment

-- The rows that the last UPDATE matches, `id = $1 AND status = $2`.
abbrev pub to_move : ℕ → OrderRow → Bool
to_move order_id o = o.id == order_id && is_awaiting o.status

-- The transaction's statements, of which the last tells how many rows it changed.
abbrev pub proof_writes : Deps → Upload → Mime → PaymentRow → Db → Db
proof_writes deps u mime p db = record db {
  proofs =
      db.proofs
      ++ record {
        payment_id = p.id;
        object_key = key_of deps u mime;
        mime_type = elim mime [ jpeg ↦ "image/jpeg" | _ ↦ "image/png" ];
        size_bytes = length u.bytes;
        sha256 = deps.digest u.bytes;
      }
        ∷ [];
  payments =
      update (λ q. q.id == p.id)
        (λ q. record q {
          status = submitted;
          declared_amount = null_if_zero u.declared;
          sender_name = null_if_blank u.sender;
        })
        db.payments;
  events =
      db.events
      ++ record {
        payment_id = p.id;
        from_status = p.status;
        to_status = submitted;
        actor_id = none;
        reason = "customer uploaded proof";
      }
        ∷ [];
  orders =
      update (to_move u.order_id) (λ o. record o { status = Order.payment_submitted }) db.orders;
}

abbrev pub submit_found :
    Deps → Upload → Mime → Db → Option (PaymentRow × OrderRow) → Result PaymentError Db
submit_found deps u mime db none = err payment_not_found
submit_found deps u mime db (some (p, o)) = do
  refuse (not (is_awaiting o.status)) not_awaiting_proof
  refuse (late deps o.payment_deadline_at) deadline_passed
  domain (transition o.status Order.payment_submitted customer "")
  refuse (not (stored deps (key_of deps u mime) u.bytes mime)) storage_failed
  refuse (not (tally (to_move u.order_id) db.orders == 1)) not_awaiting_proof
  ok (proof_writes deps u mime p db)

unfoldable pub submit_proof : Deps → Upload → Db → Db → Result PaymentError Db
submit_proof deps u seen db = do
  refuse (length u.bytes == 0) proof_wrong_type
  refuse (ltb max_proof_bytes (length u.bytes)) proof_too_large
  refuse (not (allowed (sniff u.bytes))) proof_wrong_type
  submit_found deps u (sniff u.bytes) db (find_owned seen u)
