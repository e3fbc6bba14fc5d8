-- ===== src/Order/Machine.antt =====
-- The order machine against the rules that the documents state.
use Prim.Native.String.{String}
use evermore.Base.{◌≡◌, refl, ◌≢◌, ◌↔◌, ◌⊎◌, inl, inr, Bool, true, false, arith, ok, err}
use evermore.Text.{is_empty}
use evermore.Order.{
  Status, draft, awaiting_payment, payment_submitted, paid, completed, cancelled, expired, refunded,
  Actor, customer, staff, admin, system, transition, is_terminal, illegal_transition,
}

-- The edges of the machine, with who may take them and whether they need a reason.
pub data Edge : Status → Status → Actor → Bool → Type 0 where
  place : {a : Actor} → (a ≡ system → ⊥) → Edge draft awaiting_payment a false
  submit : {a : Actor} → (a ≡ system → ⊥) → Edge awaiting_payment payment_submitted a false
  lapse : Edge awaiting_payment expired system false
  call_off : {a : Actor} → (a ≡ system → ⊥) → Edge awaiting_payment cancelled a true
  verify : {a : Actor} → (a ≡ staff) ⊎ (a ≡ admin) → Edge payment_submitted paid a false
  reject : {a : Actor} → (a ≡ staff) ⊎ (a ≡ admin) → Edge payment_submitted awaiting_payment a true
  lapse_submitted : Edge payment_submitted expired system false
  complete : {a : Actor} → (a ≡ customer → ⊥) → Edge paid completed a false
  cancel_paid : {a : Actor} → (a ≡ staff) ⊎ (a ≡ admin) → Edge paid cancelled a true
  refund : Edge paid refunded admin true

-- A reason is given where the edge needs one.
abbrev pub Explained : Bool → String → Type 0
Explained needed reason = needed ≡ true → is_empty reason ≡ false

transition_sound :
    (s t : Status) (a : Actor) (reason : String)
    → transition s t a reason ≡ ok tt
    → (needed : Bool) × Edge s t a needed × Explained needed reason
unfolding transition
transition_sound draft awaiting_payment a r h = (false, place (ground arith), λ e. cc)
transition_sound awaiting_payment payment_submitted a r h = (false, submit (ground arith), λ e. cc)
transition_sound awaiting_payment expired system r h = (false, lapse, λ e. cc)
transition_sound awaiting_payment cancelled a r h = (true, call_off (ground arith), ground arith)
transition_sound payment_submitted paid a r h = (false, verify (ground arith), λ e. cc)
transition_sound payment_submitted awaiting_payment a r h =
    (true, reject (ground arith), ground arith)
transition_sound payment_submitted expired system r h = (false, lapse_submitted, λ e. cc)
transition_sound paid completed a r h = (false, complete (ground arith), λ e. cc)
transition_sound paid cancelled a r h = (true, cancel_paid (ground arith), ground arith)
transition_sound paid refunded admin r h = (true, refund, ground arith)
transition_sound _ _ _ _ h = cc

transition_complete :
    (s t : Status) (a : Actor) (reason : String) (needed : Bool)
    → Edge s t a needed
    → Explained needed reason
    → transition s t a reason ≡ ok tt
unfolding transition
transition_complete _ _ a r _ (place n) x = ground arith
transition_complete _ _ a r _ (submit n) x = ground arith
transition_complete _ _ a r _ lapse x = refl
transition_complete _ _ a r _ (call_off n) x = ground arith
transition_complete _ _ a r _ (verify n) x = ground arith
transition_complete _ _ a r _ (reject n) x = ground arith
transition_complete _ _ a r _ lapse_submitted x = refl
transition_complete _ _ a r _ (complete n) x = ground arith
transition_complete _ _ a r _ (cancel_paid n) x = ground arith
transition_complete _ _ a r _ refund x = ground arith

-- `Transition` allows a change exactly when it is an edge of the machine that this actor may take,
-- with a reason given if the edge needs one.
pub transition_iff :
    (s t : Status) (a : Actor) (reason : String)
    → (transition s t a reason ≡ ok tt)
      ↔ ((needed : Bool) × Edge s t a needed × Explained needed reason)
transition_iff s t a reason =
    (transition_sound s t a reason, λ r. transition_complete s t a reason r.0 r.1 r.2)

Edge_human :
    (s t : Status) (a : Actor) (needed : Bool) (reason : String)
    → Edge s t a needed
    → Explained needed reason
    → (t ≡ cancelled → (a ≢ system) × (is_empty reason ≡ false))
      × (a ≡ system → (t ≡ expired) ⊎ (t ≡ completed))
Edge_human _ _ a _ r (place n) x = (λ e. cc, λ e. absurd (n e))
Edge_human _ _ a _ r (submit n) x = (λ e. cc, λ e. absurd (n e))
Edge_human _ _ a _ r lapse x = (λ e. cc, λ e. inl refl)
Edge_human _ _ a _ r (call_off n) x = (λ e. (n, x refl), λ e. absurd (n e))
Edge_human _ _ a _ r (verify n) x = (λ e. cc, ground arith)
Edge_human _ _ a _ r (reject n) x = (λ e. cc, ground arith)
Edge_human _ _ a _ r lapse_submitted x = (λ e. cc, λ e. inl refl)
Edge_human _ _ a _ r (complete n) x = (λ e. cc, λ e. inr refl)
Edge_human _ _ a _ r (cancel_paid n) x = (λ e. (ground arith, x refl), ground arith)
Edge_human _ _ a _ r refund x = (λ e. cc, ground arith)

-- Nothing automated cancels a booking: whoever moves an order to CANCELLED is not the system and
-- gives a reason; and the system moves orders to EXPIRED and COMPLETED alone.
transition_human :
    (s t : Status) (a : Actor) (reason : String)
    → transition s t a reason ≡ ok tt
    → (t ≡ cancelled → (a ≢ system) × (is_empty reason ≡ false))
      × (a ≡ system → (t ≡ expired) ⊎ (t ≡ completed))
transition_human s t a reason h =
    let (needed, edge, told) = transition_sound s t a reason h in
    Edge_human s t a needed reason edge told

-- REFUNDED is reached from PAID alone, by an admin who gives a reason.
transition-refunded :
    (s : Status) (a : Actor) (reason : String)
    → transition s refunded a reason ≡ ok tt
    → (s ≡ paid) × (a ≡ admin) × (is_empty reason ≡ false)
unfolding transition
transition-refunded paid a r h = ground arith
transition-refunded _ a r h = cc

-- An admin may do whatever staff may.
transition-admin :
    (s t : Status) (reason : String)
    → transition s t staff reason ≡ ok tt
    → transition s t admin reason ≡ ok tt
unfolding transition
transition-admin s t r h = ground arith

terminal_stuck :
    (s t : Status) (a : Actor) (reason : String)
    → is_terminal s ≡ true
    → transition s t a reason ≡ err illegal_transition
unfolding is_terminal transition
terminal_stuck s t a r h = ground arith

stuck_terminal :
    (s : Status)
    → ((t : Status) (a : Actor) (reason : String)
        → transition s t a reason ≡ err illegal_transition)
    → is_terminal s ≡ true
unfolding is_terminal transition
stuck_terminal draft h = cc (h awaiting_payment customer "")
stuck_terminal awaiting_payment h = cc (h expired system "")
stuck_terminal payment_submitted h = cc (h expired system "")
stuck_terminal paid h = cc (h completed system "")
stuck_terminal _ h = refl

-- An order is terminal exactly when every change of it is refused as illegal, whoever asks.
pub is_terminal_iff :
    (s : Status)
    → (is_terminal s ≡ true) ↔ (
        (t : Status) (a : Actor) (reason : String)
        → transition s t a reason ≡ err illegal_transition)
is_terminal_iff s = (λ h t a r. terminal_stuck s t a r h, stuck_terminal s)
