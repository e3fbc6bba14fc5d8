-- ===== src/Routing/Routes.antt =====
-- `Route`: the best eligible kitchen, or the refusal that fits.
use evermore.Base.{
  ◌≡◌, refl, ◌⊎◌, inl, inr, subst, arith, true, false, List, [], ◌∷◌, Result, ok, err, keep,
  keep-All, keep-Any, length, All, Any, All-map, Bool-cases,
}
use evermore.Sorting.{sort}
use evermore.Sorting.Laws.{IsSorted, sort-IsSorted, sort-Any, All-sort}
use evermore.Routing.{
  auto, manual, Candidate, Request, Assignment, RoutingError, not_serviceable, manual_assignment,
  after_cut_off, before, eligible, check_reroute, assign, first_of_ranking, route, rank,
}
use evermore.Int64.{ℤ}
use evermore.Routing.Rules.{
  Precedes, Serves, HasRoom, Needs, portions_lem, before-Precedes, Serves-reachable,
  reachable-Serves, eligible_iff_reachable,
}
use evermore.Routing.Order.{before_trans, before_asym}

-- The kitchen is among the candidates, serves the delivery and has the n portions free, and no
-- candidate that does is preferred to it.
pub record Best (req : Request) (n : ℤ) (win : Candidate) : Type 0 where
  pub listed : Any (λ c. (c ≡ win) × Serves c × HasRoom n c) req.candidates
  pub first : All (λ c. Serves c × HasRoom n c → Precedes c win → ⊥) req.candidates

-- The assignment names the kitchen.
abbrev pub Names : Assignment → Candidate → Type 0
Names r win =
    (r.kitchen_id ≡ win.kitchen_id)
    × (r.code ≡ win.code)
    × (r.distance_m ≡ win.distance_m)
    × (r.mode ≡ auto)

eligible-parts : (c : Candidate) (n : ℤ) → eligible c n ≡ true → Serves c × HasRoom n c
eligible-parts c n h =
    let e = eligible_iff_reachable c n in
    (reachable-Serves c (ground (arith, e, h)), ground (arith, e, h))

parts-eligible : (c : Candidate) (n : ℤ) → Serves c × HasRoom n c → eligible c n ≡ true
parts-eligible c n (s, r) = ground (arith, eligible_iff_reachable c n, Serves-reachable c s, r)

Any-map {ℓ} :
    {A : Type ℓ} (P Q : A → Type 0) (xs : List A) → ((x : A) → P x → Q x) → Any P xs → Any Q xs
Any-map P Q [] f m = m
Any-map P Q (x ∷ xs) f (inl h) = inl (f x h)
Any-map P Q (x ∷ xs) f (inr m) = inr (Any-map P Q xs f m)

irreflexive : (c : Candidate) → before c c ≡ false
irreflexive c = elim (Bool-cases (before c c)) [ inl t ↦ before_asym c c t | inr f ↦ f ]

module _ (req : Request) (n : ℤ) where
  found : List Candidate
  found = keep (λ c. eligible c n) req.candidates

  Outcome : Result RoutingError Assignment → Type 0
  Outcome r =
      ((win : Candidate) × (a : Assignment) × (r ≡ ok a) × Names a win × Best req n win)
      ⊎ ((r ≡ err not_serviceable) × All (λ c. Serves c × HasRoom n c → ⊥) req.candidates)

  first_of_ranking-Outcome :
      (ks : List Candidate) → sort before found ≡ ks → Outcome (first_of_ranking (length found) ks)
  unfolding found Outcome
  first_of_ranking-Outcome [] e = inr (
    refl,
    All-map (λ c f h. f (parts-eligible c n h)) req.candidates
        (keep-All (λ _. ⊥) _ req.candidates (All-sort before (λ _. ⊥) found (rw e tt))),
  )
  first_of_ranking-Outcome (win ∷ ks) e =
      let sorted =
        subst (IsSorted before) e (sort-IsSorted before before_trans before_asym found) in
      inl (
        win,
        assign (length found) win,
        refl,
        (refl, refl, refl, refl),
        record {
          listed =
              Any-map (λ c. (c ≡ win) × (eligible c n ≡ true))
                (λ c. (c ≡ win) × Serves c × HasRoom n c) req.candidates
                (λ c h. let (s, r) = eligible-parts c n h.1 in (h.0, s, r))
                (keep-Any (λ c. c ≡ win) _ req.candidates
                  (sort-Any before (λ c. c ≡ win) found (rw e (inl refl))));
          first =
              All-map (λ c f h. before-Precedes c win (f (parts-eligible c n h))) req.candidates
                (keep-All (λ c. before c win ≡ false) _ req.candidates
                  (All-sort before (λ c. before c win ≡ false) found
                    (rw e (irreflexive win, sorted.0))));
        },
      )

-- Once the re-route guards pass, `Route` assigns a kitchen that serves the delivery, with the n
-- portions that the request needs free, and no such kitchen has a smaller priority number, or the
-- same and a smaller distance, or both the same and a smaller code; or it refuses the address, and
-- then no candidate serves it with the portions free.
pub route-Best :
    (req : Request) (n : ℤ)
    → Needs req n
    → check_reroute req ≡ ok tt
    → ((win : Candidate) × (a : Assignment) × (route req ≡ ok a) × Names a win × Best req n win)
      ⊎ ((route req ≡ err not_serviceable) × All (λ c. Serves c × HasRoom n c → ⊥) req.candidates)
unfolding route found Outcome
route-Best req n needs h =
    let same = portions_lem req n needs in
    elim (first_of_ranking-Outcome req n (sort before (found req n)) refl) [
      | inl (win, a, e, names, b) ↦ inl (win, a, rw (h, same) e, names, b)
      | inr (e, none_eligible) ↦ inr (rw (h, same) e, none_eligible)
    ]

-- A re-route of a manual assignment is refused as such, any other re-route after the cut-off is
-- refused as late, by `Route` and by `Rank` alike; and these refusals meet no first assignment.
reroute_refused :
    (req : Request)
    → (req.is_reroute ≡ true
        → req.existing_mode ≡ manual
        → (route req ≡ err manual_assignment) × (rank req ≡ err manual_assignment))
      × (req.is_reroute ≡ true
          → req.existing_mode ≡ auto
          → req.after_cut_off ≡ true
          → (route req ≡ err after_cut_off) × (rank req ≡ err after_cut_off))
      × (req.is_reroute ≡ false → check_reroute req ≡ ok tt)
unfolding route rank
reroute_refused req =
    (λ r m. (ground arith, ground arith), λ r m c. (ground arith, ground arith), λ r. ground arith)
