-- ===== src/Ordering/Reservation/Identifiers.antt =====
-- A reservation keeps the identifiers of the quota rows distinct.
use evermore.Base.{
  ◌==◌, ◌≡◌, sym, subst, ◌∙◌, ap, arith, List, [], ◌∷◌, some, if◌then◌else◌, map, ok, >>=-eq-ok,
  All, Option-cases, inl, inr,
}
use evermore.Int64.{◌+ℤ◌}
use evermore.Routing.{Candidate, Assignment, rank}
use evermore.Ordering.Reservation.{
  CapacityRow, Tables, Placement, room, take, walk, request, routed, reserve_and_route,
}
use evermore.Ordering.Reservation.Capacity.{Keyed, DistinctIds}

-- The UPDATE, on one row.
abbrev taken : Placement → CapacityRow → CapacityRow → CapacityRow
taken p row c =
    if c.id == row.id then record c { reserved_portions = c.reserved_portions +ℤ p.qty } else c

same_id : (p : Placement) (row c : CapacityRow) → (taken p row c).id ≡ c.id
same_id p row c = ground arith

Keyed-take :
    (p : Placement) (row r : CapacityRow) (cs : List CapacityRow)
    → Keyed cs r
    → Keyed (map (taken p row) cs) (taken p row r)
Keyed-take p row r [] key = tt
Keyed-take p row r (c ∷ cs) (same, key) = (
  (λ e. ap (taken p row) (same (sym (same_id p row c) ∙ (e ∙ same_id p row r)))),
  Keyed-take p row r cs key,
)

DistinctIds-map :
    (p : Placement) (row : CapacityRow) (all rows : List CapacityRow)
    → All (λ r. Keyed all r) rows
    → All (λ r. Keyed (map (taken p row) all) r) (map (taken p row) rows)
DistinctIds-map p row all [] keys = tt
DistinctIds-map p row all (r ∷ rows) (key, keys) =
    (Keyed-take p row r all key, DistinctIds-map p row all rows keys)

walk-DistinctIds :
    (p : Placement) (cs : List CapacityRow) (ranked : List Assignment) (cand : Assignment)
    (cs' : List CapacityRow)
    → DistinctIds cs
    → walk p cs ranked ≡ some (cand, cs')
    → DistinctIds cs'
unfolding walk take
walk-DistinctIds p cs [] cand cs' keys h = cc
walk-DistinctIds p cs (a ∷ ranked) cand cs' keys h = elim (Option-cases (room p cs a)) [
  | inl n ↦ walk-DistinctIds p cs ranked cand cs' keys (ground (arith, n))
  | inr (row, r) ↦
      let e : map (taken p row) cs ≡ cs' = ground (arith, r) in
      subst (λ x. DistinctIds x) e (DistinctIds-map p row cs cs keys)
]

pub reserve-DistinctIds :
    (p : Placement) (candidates : List Candidate) (t t' : Tables)
    → DistinctIds t.capacities
    → reserve_and_route p candidates t ≡ ok t'
    → DistinctIds t'.capacities
unfolding reserve_and_route
reserve-DistinctIds p candidates t t' keys h =
    let (ranked, _, h1) = >>=-eq-ok (routed (rank (request p candidates))) _ h in
    elim (Option-cases (walk p t.capacities ranked)) [
      | inl n ↦ absurd (ground (arith, n, h1))
      | inr ((cand, cs), w) ↦
          let e : t'.capacities ≡ cs = ground (arith, w, h1) in
          subst (λ x. DistinctIds x) (sym e) (walk-DistinctIds p t.capacities ranked cand cs keys w)
    ]
