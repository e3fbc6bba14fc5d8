-- ===== src/Order/Fulfilment.antt =====
-- `FulfilmentStatus`: it depends on how many deliveries stand in each status, and on nothing else.
use mathlib.Core.List.{Perm}
use mathlib.Core.Option.{some}
use evermore.Base.{◌+◌, ◌<◌, ◌≡◌, refl, ◌↔◌, arith, List, [], ◌∷◌, length, tally-perm, length-perm}
use evermore.Order.{
  DeliveryStatus, scheduled, preparing, out_for_delivery, delivered, failed, skipped, called_off,
  same_delivery, count, fulfilment_status,
}

-- Every delivery is counted once.
counts_add :
    (ds : List DeliveryStatus)
    → length ds
      ≡ count scheduled ds
        + count preparing ds
        + count out_for_delivery ds
        + count delivered ds
        + count failed ds
        + count skipped ds
        + count called_off ds
counts_add [] = omega arith
counts_add (scheduled ∷ ds) = omega (arith, counts_add ds)
counts_add (d ∷ ds) = omega (arith, counts_add ds)

-- The derived status is DELIVERED exactly when some delivery is delivered and no delivery is
-- scheduled, in preparation, on its way or failed.
fulfilment_delivered :
    (ds : List DeliveryStatus)
    → (fulfilment_status ds ≡ some delivered) ↔ (
        (0 < count delivered ds)
        × (count scheduled ds ≡ 0)
        × (count preparing ds ≡ 0)
        × (count out_for_delivery ds ≡ 0)
        × (count failed ds ≡ 0))
unfolding fulfilment_status
fulfilment_delivered [] = ground arith
fulfilment_delivered (d ∷ ds) =
    (λ h. ground (arith, counts_add (d ∷ ds)), λ h. ground (arith, counts_add (d ∷ ds)))

same_counts :
    (ds es : List DeliveryStatus)
    → length ds ≡ length es
    → ((d : DeliveryStatus) → count d ds ≡ count d es)
    → fulfilment_status ds ≡ fulfilment_status es
unfolding fulfilment_status
same_counts [] [] h c = refl
same_counts [] (e ∷ es) h c = absurd (omega arith)
same_counts (d ∷ ds) [] h c = absurd (omega arith)
same_counts (d ∷ ds) (e ∷ es) h c =
    rw (h, c called_off, c skipped, c delivered, c out_for_delivery, c preparing)

-- The derived status does not depend on the order of the deliveries.
fulfilment-perm :
    (ds es : List DeliveryStatus) → Perm ds es → fulfilment_status ds ≡ fulfilment_status es
fulfilment-perm ds es p = same_counts ds es (length-perm p) (λ d. tally-perm (same_delivery d) p)
