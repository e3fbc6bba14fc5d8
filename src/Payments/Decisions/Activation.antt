-- ===== src/Payments/Decisions/Activation.antt =====
-- What a verification does to the packages that the order bought.
use evermore.Base.{ℕ, suc, ◌≡◌, true, List, [], ◌∷◌, All, Any}
use evermore.Credit.{Entry}
use evermore.Payments.Rows.{PackageRow}
use evermore.Payments.Decisions.{Call, to_activate, purchase_entry}

-- The entries of a loop over the packages read.
abbrev purchases : Call → ℕ → ℕ → ℕ → List PackageRow → List Entry
purchases call order_id actor_id drawn [] = []
purchases call order_id actor_id drawn (p ∷ ps) =
    purchase_entry call order_id actor_id p (call.new_id drawn)
    ∷ purchases call order_id actor_id (suc drawn) ps

-- Every row that is still to be activated has its identifier among those of `ps`.
abbrev Covers : ℕ → List PackageRow → List PackageRow → Type 0
Covers o ps = All (λ q. to_activate o q ≡ true → Any (λ p. p.id ≡ q.id) ps)
