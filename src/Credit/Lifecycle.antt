-- ===== src/Credit/Lifecycle.antt =====
-- `NextStatus` against `Redeem`.
use evermore.Base.{ℕ, ◌≤◌, true, false, ◌≡◌, ◌↔◌, arith, List, ok}
use evermore.Int64.{ℤ, pos, negsuc, ◌≤ℤ◌}
use evermore.Credit.{Entry, RedeemRequest, active, balance, redeem, next_status}
use evermore.Credit.Redemption.{redeem_allowed}

one_le : (b : ℤ) → ((pos 1 ≤ℤ b) ≡ true) ↔ ((b ≤ℤ pos 0) ≡ false)
one_le (pos n) = ground arith
one_le (negsuc n) = ground arith

stays_active :
    (req : RedeemRequest)
    → req.pkg.status ≡ active
    → (next_status req.pkg req.entries req.service_date ≡ active)
      ↔ ((req.service_date ≤ req.pkg.expires_at) × ((balance req.entries ≤ℤ pos 0) ≡ false))
unfolding next_status
stays_active req s = (λ h. ground arith, λ h. ground arith)

-- For a package that is active, `NextStatus` keeps it active on a day exactly when one meal could be
-- redeemed for that day.
next_status-redeem :
    (new_id : ℕ → ℕ) (req : RedeemRequest)
    → req.pkg.status ≡ active
    → req.meals ≡ pos 1
    → (next_status req.pkg req.entries req.service_date ≡ active)
      ↔ ((out : List Entry) × (redeem new_id req ≡ ok out))
next_status-redeem new_id req s m =
    let (kept, keeps) = stays_active req s in
    let (needs, allowed) = redeem_allowed new_id req in
    (
      λ h. allowed (ground (arith, kept h, one_le (balance req.entries))),
      λ r. keeps (ground (arith, needs r, one_le (balance req.entries))),
    )
