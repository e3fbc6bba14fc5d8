-- ===== src/Migrations/Files/Loading.antt =====
-- What a directory that loads gives.
use Prim.Native.String.{String}
use evermore.Base.{
  ℕ, suc, ◌≤◌, ◌==◌, ◌≡◌, subst, arith, Bool, true, not, ◌&&◌, List, [], ◌∷◌, Option, none, length,
  All, All-map, ok, >>=-eq-ok, >>-eq-ok, refuse-eq-ok, All-perm,
}
use evermore.Sorting.{sort}
use evermore.Sorting.Laws.{sort-perm}
use evermore.Migrations.{Migration, World, up}
use evermore.Migrations.Progress.{up_again}
use evermore.Migrations.Files.{
  Entry, missing_up, missing_down, not_contiguous, collect, check_halves, check_contiguous,
  by_version, load,
}

-- The versions count up by one.
abbrev Numbered : ℕ → List Migration → Type 0
Numbered n [] = Unit
Numbered n (m ∷ ms) = (m.version ≡ n) × Numbered (suc n) ms

check_contiguous-Numbered :
    (n : ℕ) (ms : List Migration) → check_contiguous n ms ≡ ok tt → Numbered n ms
unfolding check_contiguous
check_contiguous-Numbered n [] h = tt
check_contiguous-Numbered n (m ∷ ms) h =
    let (same, rest) = refuse-eq-ok (not (m.version == n)) (not_contiguous m.version) h in
    (ground (arith, same), check_contiguous-Numbered (suc n) ms rest)

has_halves : Migration → Bool
has_halves m = not (length m.up_sql == 0) && not (length m.down_sql == 0)

check_halves-All :
    (ms : List Migration) → check_halves ms ≡ ok tt → All (λ m. has_halves m ≡ true) ms
unfolding check_halves has_halves
check_halves-All [] h = tt
check_halves-All (m ∷ ms) h =
    let (u, h1) = refuse-eq-ok (length m.up_sql == 0) (missing_up m.version) h in
    let (d, h2) = refuse-eq-ok (length m.down_sql == 0) (missing_down m.version) h1 in
    (ground (arith, u, d), check_halves-All ms h2)

halves : (m : Migration) → has_halves m ≡ true → (1 ≤ length m.up_sql) × (1 ≤ length m.down_sql)
unfolding has_halves
halves m h = (ground (arith, h), ground (arith, h))

-- A directory that loads gives migrations numbered from 1 without a gap, in that order, each with
-- statements for both directions, in whatever order its map was met.
load-Numbered :
    (digest : List ℕ → String) (arrange : List Migration → List Migration) (entries : List Entry)
    (ms : List Migration)
    → load digest arrange entries ≡ ok ms
    → Numbered 1 ms × All (λ m. (1 ≤ length m.up_sql) × (1 ≤ length m.down_sql)) ms
unfolding load
load-Numbered digest arrange entries ms h =
    let (found, _, h1) = >>=-eq-ok (collect digest entries []) _ h in
    let (both, h2) = >>-eq-ok (check_halves (arrange found)) h1 in
    let out = sort by_version (arrange found) in
    let (counted, h3) = >>-eq-ok (check_contiguous 1 out) h2 in
    let same : out ≡ ms = ground (arith, h3) in
    subst (λ l. Numbered 1 l × All (λ m. (1 ≤ length m.up_sql) × (1 ≤ length m.down_sql)) l) same
      (
        check_contiguous-Numbered 1 out counted,
        All-map halves out (
            All-perm has_halves (sort-perm by_version (arrange found))
              (check_halves-All (arrange found) both)),
      )

Numbered-positive :
    (n : ℕ) (ms : List Migration) → 1 ≤ n → Numbered n ms → All (λ m. 1 ≤ m.version) ms
Numbered-positive n [] low all = tt
Numbered-positive n (m ∷ ms) low (e, all) =
    (omega (arith, e, low), Numbered-positive (suc n) ms (omega (arith, low)) all)

-- Migrating is done once: after the migrations that a directory loads were run up without an error,
-- a second run finds nothing pending, applies nothing, and leaves schema and history as they are.
pub second_run_idle {ℓ} :
    {Schema : Type ℓ} (exec : List ℕ → Schema → Option Schema) (digest : List ℕ → String)
    (arrange : List Migration → List Migration) (entries : List Entry) (ms : List Migration)
    (w : World Schema)
    → load digest arrange entries ≡ ok ms
    → (up exec ms w).2 ≡ none
    → up exec ms (up exec ms w).0 ≡ ((up exec ms w).0, [], none)
second_run_idle exec digest arrange entries ms w l e =
    let (numbered, _) = load-Numbered digest arrange entries ms l in
    up_again exec ms w (Numbered-positive 1 ms (omega arith) numbered) e
