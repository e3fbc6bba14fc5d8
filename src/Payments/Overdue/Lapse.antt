-- ===== src/Payments/Overdue/Lapse.antt =====
-- What a run of the job leaves.
use evermore.Base.{ℕ, ◌≡◌, true, List, map, keep, All, Any}
use evermore.Order
use evermore.Payments.Rows.{OrderRow}
use evermore.Payments.Overdue.{is_overdue}

-- Every overdue order has its identifier among `ids`.
abbrev Listed : ℕ → List ℕ → List OrderRow → Type 0
Listed now ids = All (λ o. is_overdue now o ≡ true → Any (λ i. i ≡ o.id) ids)

overdue_ids : ℕ → List OrderRow → List ℕ
overdue_ids now os = map (λ o. o.id) (keep (is_overdue now) os)
