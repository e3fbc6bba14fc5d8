-- ===== src/Order/Examples.antt =====
-- An order that is placed, paid and verified, and the deliveries of another.
use evermore.Base.{◌≡◌, refl, ◌↔◌, Bool, List, [], ◌∷◌, ok, Any}
use evermore.Order.{
  Status, draft, awaiting_payment, payment_submitted, paid, cancelled, completed, Actor, customer,
  staff, system, transition, DeliveryStatus, delivered, skipped,
}
use evermore.Order.Machine.{Edge, Explained, transition_iff}
use evermore.Order.History.{Change, Follows, IsVerification, paid_was_verified}

transition_iff_example :
    (transition paid cancelled staff "dapur tutup" ≡ ok tt)
    ↔ ((needed : Bool) × Edge paid cancelled staff needed × Explained needed "dapur tutup")
transition_iff_example = transition_iff paid cancelled staff "dapur tutup"

abbrev change : Status → Status → Actor → Change
change s t a = record { from = s; to = t; actor = a; reason = "" }

abbrev history : List Change
history =
    change draft awaiting_payment customer
    ∷ change awaiting_payment payment_submitted customer
    ∷ change payment_submitted paid staff
    ∷ change paid completed system
    ∷ []

history-Follows : Follows draft history completed
unfolding transition
history-Follows = (refl, refl, (refl, refl, (refl, refl, (refl, refl, refl))))

paid_was_verified_example : Any IsVerification history
paid_was_verified_example = paid_was_verified draft completed history refl refl history-Follows

abbrev deliveries : List DeliveryStatus
deliveries = delivered ∷ skipped ∷ delivered ∷ []
