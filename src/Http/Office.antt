-- ===== src/Http/Office.antt =====
-- The back office of internal/adapter/http/backoffice.go: `VerifyPayment`, `RejectPayment`,
-- `PublishMeal`, `actorFor` and the capacity grid of the dashboard.
pub mod Grid
use Prim.Native.String.{String}
use evermore.Base.{
  ℕ, ◌+◌, Bool, true, false, not, ◌&&◌, ◌||◌, ltb, leb, ◌==◌, ◌≡◌, refl, List, [], ◌∷◌, ◌++◌,
  Option, none, some, if◌then◌else◌, tally, update, first, Result, ok, err, arith,
}
use evermore.Text.{text_eq}
use evermore.Order.{Actor, customer, staff, admin, system}
use evermore.Auth.Tables.{Principal}
use evermore.Auth.Principals.{member}
use evermore.Payments.Rows as Rows
use evermore.Payments.Rows.{Db, PaymentError, reason_required}
use evermore.Payments.Decisions.{Call, verify, reject}
use evermore.Platform.Sanitize.{Text, Unicode, required}
use evermore.Platform.Errors.{as_error, validation}
use evermore.Http.Sessions.{Reply, failed}

-- A redirect back to a screen with its message.
pub data Flash : Type 0 where
  done : String → Flash
  warned : String → Flash
  answered : Reply → Flash

unfoldable pub actor_for : Option Principal → Actor
actor_for none = system
actor_for (some p) =
    if member "admin" p.roles then admin else if p.is_staff then staff else customer

abbrev pub told : (PaymentError → String) → String → Result PaymentError Db → Db → Flash × Db
told text_of message (err e) db = (warned (text_of e), db)
told text_of message (ok db') db = (done message, db')

-- The handlers run behind the guards of the back office, so there is a principal.
unfoldable pub verify_payment :
    (PaymentError → String) → Call → Principal → Option ℕ → Db → Flash × Db
verify_payment text_of call p none db =
    (answered (failed (as_error (validation "Unknown payment."))), db)
verify_payment text_of call p (some id) db =
    told text_of "Pembayaran diverifikasi." (verify call p.user_id id (actor_for (some p)) db) db

abbrev reject_text : (PaymentError → String) → PaymentError → String
reject_text text_of reason_required = "Alasan penolakan is required."
reject_text text_of e = text_of e

unfoldable pub reject_payment :
    Unicode
    → (Text → String)
    → (PaymentError → String)
    → Principal
    → Option ℕ
    → Text
    → Db
    → Flash × Db
reject_payment u to_string text_of p none reason db =
    (answered (failed (as_error (validation "Unknown payment."))), db)
reject_payment u to_string text_of p (some id) reason db = elim (required u "reason" reason 240) [
  | err e ↦ (warned "Alasan penolakan is required.", db)
  | ok r ↦
      told (reject_text text_of) "Pembayaran ditolak dan pelanggan diberi tahu."
        (reject p.user_id id (actor_for (some p)) (to_string r) db) db
]

pub data MealStatus : Type 0 where
  draft published : MealStatus

pub record ScheduledMeal : Type 0 where
  pub id : ℕ
  pub status : MealStatus
  pub published_at : Option ℕ

-- A row of scheduled_meal_item, and a food that has a nutrition panel.
pub record MealItem : Type 0 where
  pub scheduled_meal_id : ℕ
  pub food_id : ℕ

abbrev has_panel : List ℕ → ℕ → Bool
has_panel [] f = false
has_panel (p ∷ ps) f = p == f || has_panel ps f

-- `count(smi.id) > 0 AND count(smi.id) = count(n.id)`; a food has at most one panel.
unfoldable pub is_complete : List MealItem → List ℕ → ℕ → Bool
is_complete meal_items panels meal =
    ltb 0 (tally (λ i. i.scheduled_meal_id == meal) meal_items)
    && tally (λ i. i.scheduled_meal_id == meal) meal_items
      == tally (λ i. i.scheduled_meal_id == meal && has_panel panels i.food_id) meal_items

abbrev is_draft : ℕ → ScheduledMeal → Bool
is_draft meal m = m.id == meal && elim m.status [ draft ↦ true | published ↦ false ]

unfoldable pub publish_meal :
    ℕ → List MealItem → List ℕ → Option ℕ → List ScheduledMeal → Flash × List ScheduledMeal
publish_meal now meal_items panels none meals =
    (answered (failed (as_error (validation "Unknown meal."))), meals)
publish_meal now meal_items panels (some meal) meals =
    if not (is_complete meal_items panels meal)
    then (done "Menu belum bisa terbit: gizi salah satu komponen belum lengkap.", meals)
    else (
      done (
          if tally (is_draft meal) meals == 0
          then "Menu itu sudah terbit."
          else "Menu diterbitkan."),
      update (is_draft meal) (λ m. record m { status = published; published_at = some now }) meals,
    )

-- A row of the capacity query, in its order, and the grid.
pub record SlotRow : Type 0 where
  pub code : String
  pub name : String
  pub slot : String
  pub used : ℕ
  pub quota : ℕ
  pub serves : Bool

pub record CapacityCell : Type 0 where
  pub slot_label : String
  pub used : ℕ
  pub quota : ℕ
  pub closed : Bool
  pub full : Bool

pub record CapacityRow : Type 0 where
  pub code : String
  pub name : String
  pub cells : List CapacityCell

abbrev pub cell_of : SlotRow → CapacityCell
cell_of r = record {
  slot_label = r.slot;
  used = r.used;
  quota = r.quota;
  closed = not r.serves;
  full = ltb 0 r.quota && leb r.quota r.used;
}

-- One round of the loop: the cell goes to its kitchen's row, which is made when it is the first.
unfoldable pub add_cell : SlotRow → List CapacityRow → List CapacityRow
add_cell r [] = record { code = r.code; name = r.name; cells = cell_of r ∷ [] } ∷ []
add_cell r (k ∷ ks) =
    let rest = add_cell r ks in
    if text_eq k.code r.code then record k { cells = k.cells ++ cell_of r ∷ [] } ∷ ks else k ∷ rest

unfoldable pub grid : List SlotRow → List CapacityRow → List CapacityRow
grid [] out = out
grid (r ∷ rs) out = grid rs (add_cell r out)
