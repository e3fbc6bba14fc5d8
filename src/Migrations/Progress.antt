-- ===== src/Migrations/Progress.antt =====
-- Running the migrations up again does nothing.
use evermore.Base.{
  ℕ, ◌≤◌, ltb, ◌==◌, ◌≡◌, refl, sym, subst, ◌∙◌, inl, inr, arith, List, [], ◌∷◌, ◌++◌, Option, none,
  some, map, tally, All, ok, err, ◌>>=◌, Bool-cases, Option-cases, Result-cases, >>=-eq-ok,
  refuse-eq-ok,
}
use mathlib.Core.List.{append_assoc, append-nil}
use evermore.Text.{text_eq, text_eq_iff}
use evermore.Migrations.{
  Migration, Applied, World, MigrationError, version_zero, row_of, find_row, pending_of, status,
  apply_one, up_loop, up,
}

-- A row that stands in the history stays the one that is found.
find_row-append :
    (v : ℕ) (h extra : List Applied) (a : Applied)
    → find_row v h ≡ some a
    → find_row v (h ++ extra) ≡ some a
find_row-append v [] extra a e = cc
find_row-append v (x ∷ h) extra a e = ground (arith, e, find_row-append v h extra a)

find_row-last :
    (m : Migration) (h : List Applied)
    → find_row m.version h ≡ none
    → find_row m.version (h ++ row_of m ∷ []) ≡ some (row_of m)
find_row-last m [] e = ground arith
find_row-last m (x ∷ h) e = ground (arith, e, find_row-last m h)

abbrev Recorded : List Applied → Migration → Type 0
Recorded h m = find_row m.version h ≡ some (row_of m)

-- With every pending migration recorded after it, the history has nothing pending.
none_pending :
    (h extra : List Applied) (ms p : List Migration)
    → pending_of h ms ≡ ok p
    → All (Recorded (h ++ extra)) p
    → pending_of (h ++ extra) ms ≡ ok []
unfolding pending_of
none_pending h extra [] p e all = refl
none_pending h extra (m ∷ ms) p e all = elim (Option-cases (find_row m.version h)) [
  | inl n ↦
      let chain : (pending_of h ms >>= λ p. ok (m ∷ p)) ≡ ok p = ground (arith, n, e) in
      let (rest, e', o) = >>=-eq-ok (pending_of h ms) (λ p. ok (m ∷ p)) chain in
      let whole : p ≡ m ∷ rest = ground (arith, o) in
      let (here, more) : All (Recorded (h ++ extra)) (m ∷ rest) =
        subst (λ q. All (Recorded (h ++ extra)) q) whole all in
      let itself = (text_eq_iff m.checksum m.checksum).1 refl in
      ground (arith, here, itself, none_pending h extra ms rest e' more)
  | inr (a, f) ↦ elim (Bool-cases (text_eq a.checksum m.checksum)) [
    | inl t ↦
        let f' = find_row-append m.version h extra a f in
        ground (arith, f', t, none_pending h extra ms p (ground (arith, f, t, e)) all)
    | inr t ↦ absurd (ground (arith, f, t, e))
  ]
]

-- What is pending has the versions of the migrations.
pending_of-positive :
    (h : List Applied) (ms p : List Migration)
    → pending_of h ms ≡ ok p
    → All (λ m. 1 ≤ m.version) ms
    → All (λ m. 1 ≤ m.version) p
unfolding pending_of
pending_of-positive h [] p e all =
    let nil : [] ≡ p = ground (arith, e) in subst (λ q. All (λ m. 1 ≤ m.version) q) nil tt
pending_of-positive h (m ∷ ms) p e (low, all) = elim (Option-cases (find_row m.version h)) [
  | inl n ↦
      let chain : (pending_of h ms >>= λ p. ok (m ∷ p)) ≡ ok p = ground (arith, n, e) in
      let (rest, e', o) = >>=-eq-ok (pending_of h ms) (λ p. ok (m ∷ p)) chain in
      let whole : m ∷ rest ≡ p = ground (arith, o) in
      subst (λ q. All (λ m. 1 ≤ m.version) q) whole (low, pending_of-positive h ms rest e' all)
  | inr (a, f) ↦ elim (Bool-cases (text_eq a.checksum m.checksum)) [
    | inl t ↦ pending_of-positive h ms p (ground (arith, f, t, e)) all
    | inr t ↦ absurd (ground (arith, f, t, e))
  ]
]

no_zero :
    (h : List Applied) (p : List Migration)
    → All (λ m. 1 ≤ m.version) p
    → tally (λ a. a.version == 0) h ≡ 0
    → tally (λ a. a.version == 0) (h ++ map row_of p) ≡ 0
no_zero [] [] all z = refl
no_zero [] (m ∷ p) (low, all) z = ground (arith, low, no_zero [] p all refl)
no_zero (a ∷ h) p all z = ground (arith, z, no_zero h p all)

module _ {ℓ} {Schema : Type ℓ} (exec : List ℕ → Schema → Option Schema) where
  apply_one-parts :
      (m : Migration) (w w' : World Schema)
      → apply_one exec m w ≡ ok w'
      → (find_row m.version w.history ≡ none)
        × (w'.history ≡ w.history ++ row_of m ∷ [])
        × (exec m.up_sql w.schema ≡ some w'.schema)
  unfolding apply_one
  apply_one-parts m w w' e = elim (Option-cases (exec m.up_sql w.schema)) [
    | inl n ↦ absurd (ground (arith, n, e))
    | inr (s, x) ↦ elim (Option-cases (find_row m.version w.history)) [
      | inl n ↦ (n, ground (arith, x, n, e), ground (arith, x, n, e))
      | inr (a, f) ↦ absurd (ground (arith, x, f, e))
    ]
  ]

  -- A loop that ends without an error has recorded each of its migrations.
  up_loop-records :
      (p : List Migration) (w : World Schema)
      → (up_loop exec p w).2 ≡ none
      → ((up_loop exec p w).0.history ≡ w.history ++ map row_of p)
        × All (Recorded (up_loop exec p w).0.history) p
  unfolding up_loop
  up_loop-records [] w e = (sym (append-nil w.history), tt)
  up_loop-records (m ∷ p) w e = elim (Result-cases (apply_one exec m w)) [
    | inl (w1, a) ↦
        let (free, wrote, _) = apply_one-parts m w w1 a in
        let (grown, all) = up_loop-records p w1 (ground (arith, a, e)) in
        let here : Recorded (up_loop exec p w1).0.history m =
          subst (λ h. Recorded h m) (sym grown)
            (find_row-append m.version w1.history (map row_of p) (row_of m)
              (subst (λ h. Recorded h m) (sym wrote) (find_row-last m w.history free))) in
        let whole : (up_loop exec (m ∷ p) w).0.history ≡ w.history ++ map row_of (m ∷ p) =
          ground (arith, a, grown, wrote, append_assoc w.history (row_of m ∷ []) (map row_of p)) in
        let same : (up_loop exec p w1).0.history ≡ (up_loop exec (m ∷ p) w).0.history =
          ground (arith, a) in
        (whole, subst (λ h. All (Recorded h) (m ∷ p)) same (here, all))
    | inr (x, a) ↦ absurd (ground (arith, a, e))
  ]

  up-pending :
      (ms p : List Migration) (w : World Schema)
      → status w.history ms ≡ ok p
      → up exec ms w ≡ up_loop exec p w
  unfolding up
  up-pending ms p w s = rw (up, s) refl

  up-refused :
      (ms : List Migration) (w : World Schema) (x : MigrationError)
      → status w.history ms ≡ err x
      → up exec ms w ≡ (w, [], some x)
  unfolding up
  up-refused ms w x s = rw (up, s) refl

  up_loop-nothing : (w : World Schema) → up_loop exec [] w ≡ (w, [], none)
  unfolding up_loop
  up_loop-nothing w = refl

  -- The history that the loop leaves has nothing pending.
  status-after :
      (ms p : List Migration) (w : World Schema)
      → All (λ m. 1 ≤ m.version) ms
      → status w.history ms ≡ ok p
      → (up_loop exec p w).2 ≡ none
      → status (up_loop exec p w).0.history ms ≡ ok []
  unfolding status
  status-after ms p w low s e =
      let (zero_free, pending) =
        refuse-eq-ok (ltb 0 (tally (λ a. a.version == 0) w.history)) version_zero s in
      let (grown, all) = up_loop-records p w e in
      let low' = pending_of-positive w.history ms p pending low in
      let zero_free' = no_zero w.history p low' (ground (arith, zero_free)) in
      let nothing =
        none_pending w.history (map row_of p) ms p pending
          (subst (λ h. All (Recorded h) p) grown all) in
      rw grown (ground (arith, zero_free', nothing))

  -- What `Up` applied without an error stays applied: run again, it finds nothing pending, applies
  -- nothing, and leaves schema and history as they are. The versions are at least 1.
  pub up_again :
      (ms : List Migration) (w : World Schema)
      → All (λ m. 1 ≤ m.version) ms
      → (up exec ms w).2 ≡ none
      → up exec ms (up exec ms w).0 ≡ ((up exec ms w).0, [], none)
  up_again ms w low e = elim (Result-cases (status w.history ms)) [
    | inl (p, s) ↦
        let first_run = up-pending ms p w s in
        let after = (up_loop exec p w).0 in
        let clean : (up_loop exec p w).2 ≡ none = subst (λ r. r.2 ≡ none) first_run e in
        let again =
          up-pending ms [] after (status-after ms p w low s clean) ∙ up_loop-nothing after in
        subst (λ r. up exec ms r.0 ≡ (r.0, [], none)) (sym first_run) again
    | inr (x, s) ↦ let refused = up-refused ms w x s in absurd (ground (arith, refused, e))
  ]
