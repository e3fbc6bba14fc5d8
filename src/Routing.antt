-- ===== src/Routing.antt =====
-- internal/domain/routing/router.go: which kitchen serves a delivery. A kitchen's code is the list
-- of its bytes, which Go compares one by one.
pub mod Order
pub mod Rules
pub mod Routes
pub mod Ranking
mod Examples
use Prim.Native.String.{String}
use evermore.Base.{
  ℕ, ltb, ◌==◌, ◌≡◌, Bool, true, false, not, ◌&&◌, List, [], ◌∷◌, if◌then◌else◌, Result, ok, err,
  refuse, ◌>>=◌, ◌>>◌, keep, length, map,
}
use evermore.Int64.{ℤ, pos, ◌<ℤ◌, ◌≤ℤ◌, ◌==ℤ◌}
use evermore.Sorting.{sort}

pub data Mode : Type 0 where
  auto manual : Mode

pub data RoutingError : Type 0 where
  not_serviceable manual_assignment after_cut_off : RoutingError

pub record Candidate : Type 0 where
  pub kitchen_id : ℕ
  pub code : List ℕ
  pub priority : ℤ
  pub distance_m : ℤ
  pub has_polygon : Bool
  pub inside_polygon : Bool
  pub inside_radius : Bool
  pub is_active : Bool
  pub serves_slot : Bool
  pub open_that_day : Bool
  pub free_portions : ℤ

-- The polygon decides where there is one, and the radius otherwise.
unfoldable serviceable : Candidate → Bool
serviceable c = if c.has_polygon then c.inside_polygon else c.inside_radius

unfoldable pub eligible : Candidate → ℤ → Bool
unfolding serviceable
eligible c portions_needed =
    c.is_active
    && c.serves_slot
    && c.open_that_day
    && (portions_needed ≤ℤ c.free_portions)
    && serviceable c

pub record Assignment : Type 0 where
  pub kitchen_id : ℕ
  pub code : List ℕ
  pub distance_m : ℤ
  pub mode : Mode
  pub reason : String

pub record Request : Type 0 where
  pub candidates : List Candidate
  pub portions_needed : ℤ
  pub is_reroute : Bool
  pub existing_mode : Mode
  pub existing_kitchen : ℕ
  pub after_cut_off : Bool

-- `<` on texts.
unfoldable pub text_less : List ℕ → List ℕ → Bool
text_less [] [] = false
text_less [] (y ∷ ys) = true
text_less (x ∷ xs) [] = false
text_less (x ∷ xs) (y ∷ ys) = let rest = text_less xs ys in if x == y then rest else ltb x y

-- The test of both sorts: priority, then distance, then code.
unfoldable pub before : Candidate → Candidate → Bool
before a b =
    if not (a.priority ==ℤ b.priority)
    then a.priority <ℤ b.priority
    else if not (a.distance_m ==ℤ b.distance_m)
    then a.distance_m <ℤ b.distance_m
    else text_less a.code b.code

-- With how many kitchens the chosen one competed.
abbrev reason_of : Bool → Bool → String
reason_of true true = "satu-satunya dapur yang poligonnya mencakup titik ini"
reason_of true false = "satu-satunya dapur dalam radius layanan"
reason_of false true = "prioritas tertinggi di antara dapur yang poligonnya mencakup titik ini"
reason_of false false = "prioritas tertinggi, lalu jarak terdekat"

unfoldable pub reason_for : Candidate → ℕ → String
reason_for c n = reason_of (n == 1) c.has_polygon

-- The assignment that a kitchen wins among n.
abbrev pub assign : ℕ → Candidate → Assignment
assign n c = record {
  kitchen_id = c.kitchen_id;
  code = c.code;
  distance_m = c.distance_m;
  mode = auto;
  reason = reason_for c n;
}

abbrev is_manual : Mode → Bool
is_manual manual = true
is_manual auto = false

-- The guards of a re-route.
unfoldable pub check_reroute : Request → Result RoutingError (Unit {0})
check_reroute req = do
  refuse (req.is_reroute && is_manual req.existing_mode) manual_assignment
  refuse (req.is_reroute && req.after_cut_off) after_cut_off
  ok tt

abbrev pub portions : Request → ℤ
portions req = if req.portions_needed ≤ℤ pos 0 then pos 1 else req.portions_needed

-- The first of the sorted candidates, if there is one.
abbrev pub first_of_ranking : ℕ → List Candidate → Result RoutingError Assignment
first_of_ranking n [] = err not_serviceable
first_of_ranking n (win ∷ rest) = ok (assign n win)

unfoldable pub route : Request → Result RoutingError Assignment
unfolding check_reroute
route req = do
  check_reroute req
  let found = keep (λ c. eligible c (portions req)) req.candidates
  first_of_ranking (length found) (sort before found)

-- The filter of `Rank`, which leaves the capacity to the reservation.
unfoldable pub reachable : Candidate → Bool
unfolding serviceable
reachable c = c.is_active && c.serves_slot && c.open_that_day && serviceable c

abbrev pub all_of_ranking : ℕ → List Candidate → Result RoutingError (List Assignment)
all_of_ranking n [] = err not_serviceable
all_of_ranking n (win ∷ rest) = ok (map (assign n) (win ∷ rest))

unfoldable pub rank : Request → Result RoutingError (List Assignment)
unfolding check_reroute
rank req = do
  check_reroute req
  let found = keep reachable req.candidates
  all_of_ranking (length found) (sort before found)
