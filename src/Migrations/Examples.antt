-- ===== src/Migrations/Examples.antt =====
-- A directory of two migrations is loaded, run up, and its last step taken back. The schema is the
-- number of its tables.
use evermore.Base.{
  ℕ, ◌+◌, ◌-◌, ◌≡◌, refl, ap, arith, false, List, [], ◌∷◌, Option, none, some, if◌then◌else◌, ok,
  leb,
}
use evermore.Sorting.{sort, insert}
use evermore.Migrations.{Migration, World, row_of, pending_of, status, apply_one, up_loop, up, down}
use evermore.Migrations.Reversal.{up_then_down}
use evermore.Migrations.Files.{
  Entry, upward, downward, bytes_eq, span_name, parse_name, put, collect, check_halves,
  check_contiguous, load,
}
use evermore.Migrations.Files.Names.{file_name}
use evermore.Migrations.Files.Loading.{second_run_idle}

abbrev plus : List ℕ
plus = b'+' ∷ []

abbrev minus : List ℕ
minus = b'-' ∷ []

abbrev exec : List ℕ → ℕ → Option ℕ
exec sql s = if bytes_eq sql plus then some (s + 1) else if leb 1 s then some (s - 1) else none

abbrev file : ℕ → List ℕ → Entry
file v name = record { is_dir = false; name = file_name v name upward; body = some plus }

abbrev back : ℕ → List ℕ → Entry
back v name = record { is_dir = false; name = file_name v name downward; body = some minus }

abbrev users : List ℕ
users = b'u' ∷ b's' ∷ []

abbrev meals : List ℕ
meals = b'm' ∷ b'_' ∷ b'2' ∷ []

abbrev directory : List Entry
directory = file 2 meals ∷ file 1 users ∷ back 1 users ∷ back 2 meals ∷ []

abbrev migration : ℕ → List ℕ → Migration
migration v name = record {
  version = v;
  name = name;
  up_sql = plus;
  down_sql = minus;
  checksum = "sum";
}

abbrev both : List Migration
both = migration 1 users ∷ migration 2 meals ∷ []

is_loaded : load (λ b. "sum") (λ ms. ms) directory ≡ ok both
unfolding load collect parse_name span_name put check_halves check_contiguous sort insert
is_loaded = refl

abbrev empty : World ℕ
empty = record { schema = 0; history = [] }

abbrev one_step : World ℕ
one_step = record { schema = 1; history = row_of (migration 1 users) ∷ [] }

abbrev two_steps : World ℕ
two_steps = record {
  schema = 2;
  history = row_of (migration 1 users) ∷ row_of (migration 2 meals) ∷ [];
}

runs_up : up exec both empty ≡ (two_steps, 1 ∷ 2 ∷ [], none)
unfolding up up_loop apply_one status pending_of
runs_up = refl

second_run_idle_example : up exec both (up exec both empty).0 ≡ ((up exec both empty).0, [], none)
second_run_idle_example =
    second_run_idle exec (λ b. "sum") (λ ms. ms) directory both empty is_loaded
      (ap (λ r. r.2) runs_up)

steps_up : apply_one exec (migration 2 meals) one_step ≡ ok two_steps
unfolding apply_one
steps_up = refl

is_clean : status two_steps.history both ≡ ok []
unfolding status pending_of
is_clean = refl

undone : (s s' : ℕ) → exec plus s ≡ some s' → exec minus s' ≡ some s
undone s s' h = ground (arith, h)

up_then_down_example : down exec both two_steps ≡ ok (2, one_step)
up_then_down_example =
    up_then_down exec both [] (migration 2 meals) one_step two_steps steps_up (omega arith, tt) refl
      is_clean undone

abbrev changed : Migration
changed = record (migration 1 users) { checksum = "other" }

nothing_before : pending_of one_step.history [] ≡ ok []
unfolding pending_of
nothing_before = refl
