-- ===== src/Routing/Examples.antt =====
-- Two kitchens: the preferred one is full.
use mathlib.Core.List.{Perm}
use evermore.Base.{List, inr, ℕ, ◌≡◌, refl, ◌⊎◌, true, false, [], ◌∷◌, ok, err, keep, All}
use evermore.Int64.{pos, ◌≤ℤ◌}
use evermore.Sorting.{sort}
use evermore.Routing.{
  Candidate, Request, Assignment, auto, before, eligible, reachable, check_reroute, assign, route,
  rank, not_serviceable,
}
use evermore.Routing.Rules.{Serves, HasRoom}
use evermore.Routing.Routes.{Best, Names, route-Best}
use evermore.Routing.Ranking.{can_serve, Ordered, Lists, Takes, route-rank}

abbrev kitchen : ℕ → ℕ → ℕ → Candidate
kitchen id priority free = record {
  kitchen_id = id;
  code = b'K' ∷ id ∷ [];
  priority = pos priority;
  distance_m = pos 900;
  has_polygon = false;
  inside_polygon = false;
  inside_radius = true;
  is_active = true;
  serves_slot = true;
  open_that_day = true;
  free_portions = pos free;
}

abbrev request : Request
request = record {
  candidates = kitchen 2 20 8 ∷ kitchen 1 10 0 ∷ [];
  portions_needed = pos 2;
  is_reroute = false;
  existing_mode = auto;
  existing_kitchen = 0;
  after_cut_off = false;
}

-- `Route` takes the kitchen that `Rank` puts second.
route_takes_second : route request ≡ ok (assign 1 (kitchen 2 20 8))
unfolding route eligible sort before
route_takes_second = refl

rank_puts_full_first :
    rank request ≡ ok (assign 2 (kitchen 1 10 0) ∷ assign 2 (kitchen 2 20 8) ∷ [])
unfolding rank reachable sort before
rank_puts_full_first = refl

route-Best_example :
    ((win : Candidate) × (a : Assignment) × (route request ≡ ok a)
      × Names a win
      × Best request (pos 2) win)
    ⊎ ((route request ≡ err not_serviceable)
        × All (λ c. Serves c × HasRoom (pos 2) c → ⊥) request.candidates)
unfolding check_reroute
route-Best_example = route-Best request (pos 2) (inr (refl, refl)) refl

route-rank_example :
    (ks : List Candidate) × Perm ks (keep can_serve request.candidates)
    × Ordered ks
    × Lists ks (rank request)
    × Takes (keep (λ c. pos 2 ≤ℤ c.free_portions) ks) (route request)
unfolding check_reroute
route-rank_example = route-rank request (pos 2) (inr (refl, refl)) refl
