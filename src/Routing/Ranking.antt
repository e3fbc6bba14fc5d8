-- ===== src/Routing/Ranking.antt =====
-- `Rank`, and how `Route` follows from it.
use mathlib.Core.List.{Perm}
use mathlib.Core.Path.{fun_ext}
use evermore.Base.{
  ℕ, ◌≡◌, refl, sym, ap, subst, arith, Bool, ◌&&◌, if◌then◌else◌, List, [], ◌∷◌, map, Result, ok,
  err, keep, keep-keep, length, All, All-map,
}
use evermore.Int64.{ℤ, ◌≤ℤ◌}
use evermore.Sorting.{sort}
use evermore.Sorting.Laws.{sort-perm, IsSorted, sort-IsSorted, keep-sort}
use evermore.Routing.{
  Candidate, Request, Assignment, RoutingError, not_serviceable, serviceable, assign, before,
  eligible, reachable, check_reroute, portions, first_of_ranking, all_of_ranking, route, rank,
}
use evermore.Routing.Rules.{Precedes, Needs, portions_lem, before-Precedes}
use evermore.Routing.Order.{before_trans, before_asym}

-- The kitchens that can be reached, best first.
abbrev pub ranked : Request → List Candidate
ranked req = sort before (keep reachable req.candidates)

-- The kitchen has the portions that the request needs.
abbrev pub has_room : Request → Candidate → Bool
has_room req c = portions req ≤ℤ c.free_portions

-- Once the re-route guards pass, `Rank` returns every reachable kitchen once, none of them before
-- one that it should follow; or the error of no kitchen if there is none.
rank_lem :
    (req : Request)
    → check_reroute req ≡ ok tt
    → (rank req ≡ all_of_ranking (length (keep reachable req.candidates)) (ranked req))
      × Perm (ranked req) (keep reachable req.candidates)
      × IsSorted before (ranked req)
unfolding rank
rank_lem req h = (
  rw h,
  sort-perm before _,
  sort-IsSorted before before_trans before_asym (keep reachable req.candidates),
)

eligible_lem :
    (req : Request) (c : Candidate) → (reachable c && has_room req c) ≡ eligible c (portions req)
unfolding reachable eligible
eligible_lem req c = ground arith

-- A kitchen that serves the delivery.
abbrev pub can_serve : Candidate → Bool
can_serve c =
    c.is_active
    && c.serves_slot
    && c.open_that_day
    && (if c.has_polygon then c.inside_polygon else c.inside_radius)

-- No kitchen is preferred to one that stands before it.
abbrev pub Ordered : List Candidate → Type 0
Ordered [] = Unit {0}
Ordered (k ∷ ks) = All (λ c. Precedes c k → ⊥) ks × Ordered ks

-- What `Rank` answers for these kitchens: all of them, or the error of none.
abbrev pub Lists : List Candidate → Result RoutingError (List Assignment) → Type 0
Lists [] r = r ≡ err not_serviceable
Lists (k ∷ ks) r =
    (as' : List Assignment) × (r ≡ ok as')
    × (map (λ a. a.kitchen_id) as' ≡ map (λ c. c.kitchen_id) (k ∷ ks))

-- What `Route` answers: the first of them, or the error of none.
abbrev pub Takes : List Candidate → Result RoutingError Assignment → Type 0
Takes [] r = r ≡ err not_serviceable
Takes (k ∷ ks) r = (a : Assignment) × (r ≡ ok a) × (a.kitchen_id ≡ k.kitchen_id)

can_serve_lem : (c : Candidate) → reachable c ≡ can_serve c
unfolding reachable serviceable
can_serve_lem c = refl

IsSorted-Ordered : (ks : List Candidate) → IsSorted before ks → Ordered ks
IsSorted-Ordered [] s = tt
IsSorted-Ordered (k ∷ ks) (h, s) = (All-map (λ c. before-Precedes c k) ks h, IsSorted-Ordered ks s)

kitchens-assign :
    (m : ℕ) (ks : List Candidate)
    → map (λ (a : Assignment). a.kitchen_id) (map (assign m) ks) ≡ map (λ c. c.kitchen_id) ks
kitchens-assign m [] = refl
kitchens-assign m (k ∷ ks) = ap (◌∷◌ k.kitchen_id) (kitchens-assign m ks)

all_of_ranking-Lists : (m : ℕ) (ks : List Candidate) → Lists ks (all_of_ranking m ks)
all_of_ranking-Lists m [] = refl
all_of_ranking-Lists m (k ∷ ks) = (map (assign m) (k ∷ ks), refl, kitchens-assign m (k ∷ ks))

first_of_ranking-Takes : (m : ℕ) (ks : List Candidate) → Takes ks (first_of_ranking m ks)
first_of_ranking-Takes m [] = refl
first_of_ranking-Takes m (k ∷ ks) = (assign m k, refl, refl)

route_of_ranked :
    (req : Request)
    → check_reroute req ≡ ok tt
    → route req
      ≡ first_of_ranking
          (length (keep (has_room req) (keep reachable req.candidates)))
          (keep (has_room req) (ranked req))
unfolding route
route_of_ranked req h = rw (
  h,
  keep-sort before before_trans before_asym (has_room req) (keep reachable req.candidates),
  keep-keep (has_room req) reachable req.candidates,
  fun_ext (eligible_lem req),
)

-- Once the re-route guards pass, `Rank` lists the kitchens that serve the delivery, each once and
-- none behind one that it is preferred to, whatever portions they have free; and `Route` takes the
-- first of this list that has the n portions free that the request needs. Where there is no such
-- kitchen, each refuses the address.
pub route-rank :
    (req : Request) (n : ℤ)
    → Needs req n
    → check_reroute req ≡ ok tt
    → (ks : List Candidate) × Perm ks (keep can_serve req.candidates)
      × Ordered ks
      × Lists ks (rank req)
      × Takes (keep (λ c. n ≤ℤ c.free_portions) ks) (route req)
route-rank req n needs h =
    let (listed, perm, sorted) = rank_lem req h in
    let same = portions_lem req n needs in
    (
      ranked req,
      subst (λ p. Perm (ranked req) (keep p req.candidates)) (fun_ext can_serve_lem) perm,
      IsSorted-Ordered (ranked req) sorted,
      subst (Lists (ranked req)) (sym listed)
          (all_of_ranking-Lists (length (keep reachable req.candidates)) (ranked req)),
      subst (Takes (keep (λ c. n ≤ℤ c.free_portions) (ranked req))) (sym (route_of_ranked req h)) (
          subst
            (λ m. Takes (keep (λ c. n ≤ℤ c.free_portions) (ranked req)) (
              first_of_ranking (length (keep (has_room req) (keep reachable req.candidates)))
                (keep (λ c. m ≤ℤ c.free_portions) (ranked req))))
            (sym same)
            (first_of_ranking-Takes (length (keep (has_room req) (keep reachable req.candidates)))
              (keep (λ c. n ≤ℤ c.free_portions) (ranked req)))),
    )
