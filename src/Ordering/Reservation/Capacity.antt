-- ===== src/Ordering/Reservation/Capacity.antt =====
-- No slot is oversold, and a line is refused only if no kitchen has room.
use evermore.Base.{
  ℕ, suc, ◌+◌, ◌≤◌, ◌<◌, ◌==◌, ◌≡◌, refl, sym, subst, ◌↔◌, arith, Bool, false, List, [], ◌∷◌, none,
  some, ok, err, >>=-eq-ok, All, Bool-cases, Option-cases, inl, inr, length, length-append,
}
use evermore.Int64.{pos, half, ◌+ℤ◌}
use evermore.Int64.Laws.{+ℤ-pos}
use evermore.Routing.{Candidate, Assignment, rank}
use evermore.Ordering.Reservation.{
  delivery_of, delivery_line_of, CapacityRow, Tables, Placement, capacity_full, is_slot_of,
  find_row, is_full, room, take, walk, request, routed, reserve_and_route,
}

-- A row within its quota, which with one more line stays below 2 ^ 63.
abbrev pub Within : CapacityRow → Type 0
Within c =
    (n : ℕ) × (m : ℕ) × (c.reserved_portions ≡ pos n)
    × (c.max_portions ≡ pos m)
    × (n ≤ m)
    × (m + m < half)

-- Rows with one identifier are one row.
abbrev pub Keyed : List CapacityRow → CapacityRow → Type 0
Keyed cs row = All (λ c. c.id ≡ row.id → c ≡ row) cs

abbrev pub DistinctIds : List CapacityRow → Type 0
DistinctIds cs = All (λ row. Keyed cs row) cs

find_row-All :
    (P : CapacityRow → Type 0) (test : CapacityRow → Bool) (cs : List CapacityRow)
    (row : CapacityRow)
    → All P cs
    → find_row test cs ≡ some row
    → P row
find_row-All P test [] row all h = cc
find_row-All P test (c ∷ cs) row (p, all) h = elim (Bool-cases (test c)) [
  | inl t ↦ let e : c ≡ row = ground (arith, t) in subst P e p
  | inr n ↦ find_row-All P test cs row all (ground (arith, n))
]

room-parts :
    (p : Placement) (cs : List CapacityRow) (cand : Assignment) (row : CapacityRow)
    → room p cs cand ≡ some row
    → (find_row (is_slot_of p cand) cs ≡ some row) × (is_full p row ≡ false)
unfolding room
room-parts p cs cand row h = elim (Option-cases (find_row (is_slot_of p cand) cs)) [
  | inl n ↦ absurd (ground (arith, n))
  | inr (c, f) ↦ elim (Bool-cases (is_full p c)) [
    | inl t ↦ absurd (ground (arith, f, t))
    | inr n ↦ let e : c ≡ row = ground (arith, f, n) in (rw (sym e) f, rw (sym e) n)
  ]
]

-- A row that has room stays within its quota when it takes the portions.
Within-take :
    (p : Placement) (row : CapacityRow) (k : ℕ)
    → p.qty ≡ pos k
    → k + k < half
    → Within row
    → is_full p row ≡ false
    → Within (record row { reserved_portions = row.reserved_portions +ℤ p.qty })
Within-take p row k eq small (n, m, en, em, low, high) h =
    let grown : row.reserved_portions +ℤ p.qty ≡ pos (n + k) =
      ground (arith, en, eq, +ℤ-pos n k (omega arith)) in
    (n + k, m, grown, em, ground (arith, h, grown, em), high)

take-Within :
    (p : Placement) (row : CapacityRow) (k : ℕ) (cs : List CapacityRow)
    → Within (record row { reserved_portions = row.reserved_portions +ℤ p.qty })
    → Keyed cs row
    → All Within cs
    → All Within (take p row cs)
unfolding take
take-Within p row k [] w key all = tt
take-Within p row k (c ∷ cs) w (same, key) (wc, all) = elim (Bool-cases (c.id == row.id)) [
  | inl t ↦
      let e : row ≡ c = sym (same (ground arith)) in
      rw t (
        subst (λ x. Within (record x { reserved_portions = x.reserved_portions +ℤ p.qty })) e w,
        take-Within p row k cs w key all,
      )
  | inr n ↦ rw n (wc, take-Within p row k cs w key all)
]

walk-Within :
    (p : Placement) (k : ℕ) (cs : List CapacityRow) (ranked : List Assignment) (cand : Assignment)
    (cs' : List CapacityRow)
    → p.qty ≡ pos k
    → k + k < half
    → DistinctIds cs
    → All Within cs
    → walk p cs ranked ≡ some (cand, cs')
    → All Within cs'
unfolding walk
walk-Within p k cs [] cand cs' eq small keys all h = cc
walk-Within p k cs (a ∷ ranked) cand cs' eq small keys all h = elim (Option-cases (room p cs a)) [
  | inl n ↦ walk-Within p k cs ranked cand cs' eq small keys all (ground (arith, n))
  | inr (row, r) ↦
      let (found, fits) = room-parts p cs a row r in
      let e : take p row cs ≡ cs' = ground (arith, r) in
      subst (λ x. All Within x) e
        (take-Within p row k cs
          (Within-take p row k eq small (find_row-All Within (is_slot_of p a) cs row all found)
            fits)
          (find_row-All (λ x. Keyed cs x) (is_slot_of p a) cs row keys found) all)
]

walk-none_iff :
    (p : Placement) (cs : List CapacityRow) (ranked : List Assignment)
    → (walk p cs ranked ≡ none) ↔ All (λ a. room p cs a ≡ none) ranked
unfolding walk
walk-none_iff p cs [] = ((λ _. tt), λ _. refl)
walk-none_iff p cs (a ∷ ranked) =
    let (to, from) = walk-none_iff p cs ranked in
    elim (Option-cases (room p cs a)) [
      | inl n ↦ ((λ h. (n, to (ground (arith, h, n)))), λ (_, all). ground (arith, n, from all))
      | inr (row, r) ↦
          ((λ h. absurd (ground (arith, h, r))), λ (n, _). absurd (ground (arith, n, r)))
    ]

-- No slot is oversold: where the quota rows have distinct identifiers and each is within its quota,
-- a quota being below 2 ^ 62, and the line asks for fewer than 2 ^ 62 portions, a reservation that
-- succeeds leaves every row within its quota, and writes one delivery and one line of it.
pub reserve-Within :
    (p : Placement) (candidates : List Candidate) (t t' : Tables) (k : ℕ)
    → p.qty ≡ pos k
    → k + k < half
    → DistinctIds t.capacities
    → All Within t.capacities
    → reserve_and_route p candidates t ≡ ok t'
    → All Within t'.capacities
      × (length t'.deliveries ≡ suc (length t.deliveries))
      × (length t'.delivery_lines ≡ suc (length t.delivery_lines))
unfolding reserve_and_route
reserve-Within p candidates t t' k eq small keys all h =
    let (ranked, _, h1) = >>=-eq-ok (routed (rank (request p candidates))) _ h in
    elim (Option-cases (walk p t.capacities ranked)) [
      | inl n ↦ absurd (ground (arith, n, h1))
      | inr ((cand, cs), w) ↦
          let e : t'.capacities ≡ cs = ground (arith, w, h1) in
          (
            subst (λ x. All Within x) (sym e)
                (walk-Within p k t.capacities ranked cand cs eq small keys all w),
            ground (arith, w, h1, length-append t.deliveries (delivery_of p cand ∷ [])),
            ground (arith, w, h1, length-append t.delivery_lines (delivery_line_of p ∷ [])),
          )
    ]

-- Once kitchens are ranked, a line is refused as full exactly if none of them has a quota row of
-- that date and slot in which the portions fit: a kitchen that filled up since it was ranked does
-- not end the search.
reserve_full_iff :
    (p : Placement) (candidates : List Candidate) (t : Tables) (ranked : List Assignment)
    → rank (request p candidates) ≡ ok ranked
    → (reserve_and_route p candidates t ≡ err capacity_full)
      ↔ All (λ a. room p t.capacities a ≡ none) ranked
unfolding reserve_and_route
reserve_full_iff p candidates t ranked r =
    let (to, from) = walk-none_iff p t.capacities ranked in
    (
      (λ h. to (elim (Option-cases (walk p t.capacities ranked)) [
        | inl n ↦ n
        | inr ((cand, cs), w) ↦ absurd (ground (arith, r, w, h))
      ])),
      λ all. ground (arith, r, from all),
    )
