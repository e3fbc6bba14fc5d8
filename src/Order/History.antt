-- ===== src/Order/History.antt =====
-- Histories of an order: sequences of changes that `Transition` allowed.
use Prim.Native.String.{String}
use evermore.Base.{
  ◌≡◌, refl, sym, subst, ◌⊎◌, inl, inr, Bool, true, false, List, [], ◌∷◌, arith, Any, ok, err,
}
use evermore.Order.{
  Status, payment_submitted, paid, completed, refunded, Actor, staff, admin, transition,
  is_terminal, illegal_transition,
}
use evermore.Order.Machine.{is_terminal_iff}

pub record Change : Type 0 where
  pub from : Status
  pub to : Status
  pub actor : Actor
  pub reason : String

-- The changes lead from `s` to `t`, each allowed by `Transition` from the status that it found.
abbrev pub Follows : Status → List Change → Status → Type 0
Follows s [] t = s ≡ t
Follows s (c ∷ cs) t =
    (c.from ≡ s) × (transition c.from c.to c.actor c.reason ≡ ok tt) × Follows c.to cs t

-- The order has been paid for, now or in the past, and not given up before.
abbrev was_paid : Status → Bool
was_paid paid = true
was_paid completed = true
was_paid refunded = true
was_paid _ = false

-- Finance accepted the payment proof.
abbrev pub IsVerification : Change → Type 0
IsVerification c =
    (c.from ≡ payment_submitted) × (c.to ≡ paid) × ((c.actor ≡ staff) ⊎ (c.actor ≡ admin))

becomes_paid :
    (s t : Status) (a : Actor) (reason : String)
    → was_paid s ≡ false
    → transition s t a reason ≡ ok tt
    → ((s ≡ payment_submitted) × (t ≡ paid) × ((a ≡ staff) ⊎ (a ≡ admin))) ⊎ (was_paid t ≡ false)
unfolding transition
becomes_paid s t a r u h = ground arith

-- An order that was not paid becomes PAID, COMPLETED or REFUNDED only through a verification: a
-- change from PAYMENT_SUBMITTED to PAID by staff or an admin.
pub paid_was_verified :
    (s t : Status) (cs : List Change)
    → was_paid s ≡ false
    → was_paid t ≡ true
    → Follows s cs t
    → Any IsVerification cs
paid_was_verified s t [] u v e = cc
paid_was_verified s t (c ∷ cs) u v (e, allowed, rest) =
    elim (becomes_paid c.from c.to c.actor c.reason (subst (λ x. was_paid x ≡ false) (sym e) u)
      allowed) [
        | inl verified ↦ inl verified
        | inr still ↦ inr (paid_was_verified c.to t cs still v rest)
      ]

-- Nothing follows a terminal status.
terminal_ends : (s t : Status) (cs : List Change) → is_terminal s ≡ true → Follows s cs t → cs ≡ []
terminal_ends s t [] h f = refl
terminal_ends s t (c ∷ cs) h (e, allowed, rest) =
    let stuck : transition c.from c.to c.actor c.reason ≡ err illegal_transition =
      (is_terminal_iff c.from).0 (subst (λ x. is_terminal x ≡ true) (sym e) h) c.to c.actor
        c.reason in
    cc
