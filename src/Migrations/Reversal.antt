-- ===== src/Migrations/Reversal.antt =====
-- A step down takes back the last step up, and an edited file is refused.
use evermore.Base.{
  ℕ, ◌<◌, leb, ◌==◌, ◌≡◌, refl, ap, ◌∙◌, inl, inr, arith, true, false, not, List, [], ◌∷◌, ◌++◌,
  Option, some, keep, tally, first, All, ok, err, Bool-cases, Option-cases, Result-cases,
}
use evermore.Text.{text_eq}
use evermore.Migrations.{
  Migration, Applied, World, edited, row_of, find_row, latest, pending_of, status, apply_one, up,
  down,
}

-- A row whose version is above all others is the latest.
latest-last :
    (h : List Applied) (a : Applied)
    → All (λ b. b.version < a.version) h
    → latest (h ++ a ∷ []) ≡ some a
unfolding latest
latest-last [] a all = refl
latest-last (x ∷ h) a (less, all) =
    let rest = latest-last h a all in
    let below : leb x.version a.version ≡ true = ground (arith, less) in ground (arith, rest, below)

keep-last :
    (h : List Applied) (a : Applied)
    → All (λ b. b.version < a.version) h
    → keep (λ r. not (r.version == a.version)) (h ++ a ∷ []) ≡ h
keep-last [] a all = ground arith
keep-last (x ∷ h) a (less, all) = ground (arith, less, keep-last h a all)

module _ {ℓ} {Schema : Type ℓ} (exec : List ℕ → Schema → Option Schema) where
  applied_parts :
      (m : Migration) (w w' : World Schema)
      → apply_one exec m w ≡ ok w'
      → (w'.history ≡ w.history ++ row_of m ∷ []) × (exec m.up_sql w.schema ≡ some w'.schema)
  unfolding apply_one
  applied_parts m w w' e = elim (Option-cases (exec m.up_sql w.schema)) [
    | inl n ↦ absurd (ground (arith, n, e))
    | inr (s, x) ↦ elim (Option-cases (find_row m.version w.history)) [
      | inl n ↦ (ground (arith, x, n, e), ground (arith, x, n, e))
      | inr (a, f) ↦ absurd (ground (arith, x, f, e))
    ]
  ]

-- A step down after a step up gives back the schema and the history that the step up started from,
-- where the migration's version is above those applied before, its file stands in the directory,
-- no file was edited, and the statements of its down file undo those of its up file.
pub up_then_down {ℓ} :
    {Schema : Type ℓ} (exec : List ℕ → Schema → Option Schema) (ms p : List Migration)
    (m : Migration) (w w' : World Schema)
    → apply_one exec m w ≡ ok w'
    → All (λ a. a.version < m.version) w.history
    → first (λ x. x.version == m.version) ms ≡ some m
    → status w'.history ms ≡ ok p
    → ((s s' : Schema) → exec m.up_sql s ≡ some s' → exec m.down_sql s' ≡ some s)
    → down exec ms w' ≡ ok (m.version, w)
unfolding down
up_then_down exec ms p m w w' e top file clean undo =
    let (grown, ran) = applied_parts exec m w w' e in
    let back = undo w.schema w'.schema ran in
    let last : latest w'.history ≡ some (row_of m) =
      ap latest grown ∙ latest-last w.history (row_of m) top in
    let left : keep (λ r. not (r.version == m.version)) w'.history ≡ w.history =
      ap (λ h. keep (λ r. not (r.version == m.version)) h) grown
      ∙ keep-last w.history (row_of m) top in
    rw (down, clean, last, file, back, left) refl

-- The loop ends at the first migration that was edited.
pending_of-edited :
    (h : List Applied) (before after : List Migration) (m : Migration) (a : Applied)
    (p : List Migration)
    → pending_of h before ≡ ok p
    → find_row m.version h ≡ some a
    → text_eq a.checksum m.checksum ≡ false
    → pending_of h (before ++ m ∷ after) ≡ err (edited m.version)
unfolding pending_of
pending_of-edited h [] after m a p e f t = ground (arith, f, t)
pending_of-edited h (x ∷ before) after m a p e f t = elim (Option-cases (find_row x.version h)) [
  | inl n ↦ elim (Result-cases (pending_of h before)) [
    | inl (q, g) ↦ ground (arith, n, pending_of-edited h before after m a q g f t)
    | inr (y, g) ↦ absurd (ground (arith, n, g, e))
  ]
  | inr (b, g) ↦ elim (Bool-cases (text_eq b.checksum x.checksum)) [
    | inl s ↦
        ground (arith, g, s, pending_of-edited h before after m a p (ground (arith, g, s, e)) f t)
    | inr s ↦ absurd (ground (arith, g, s, e))
  ]
]

-- An applied migration whose file has another checksum than the one recorded makes `Up` refuse: it
-- names the migration, applies nothing, and leaves schema and history as they are. No migration
-- before it in the list was edited, and no recorded version is 0.
edited_refused {ℓ} :
    {Schema : Type ℓ} (exec : List ℕ → Schema → Option Schema) (before after : List Migration)
    (m : Migration) (a : Applied) (p : List Migration) (w : World Schema)
    → tally (λ a. a.version == 0) w.history ≡ 0
    → pending_of w.history before ≡ ok p
    → find_row m.version w.history ≡ some a
    → text_eq a.checksum m.checksum ≡ false
    → up exec (before ++ m ∷ after) w ≡ (w, [], some (edited m.version))
unfolding up status
edited_refused exec before after m a p w zero_free e f t =
    let refused = pending_of-edited w.history before after m a p e f t in
    let whole : status w.history (before ++ m ∷ after) ≡ err (edited m.version) =
      ground (arith, zero_free, refused) in
    rw (up, whole) refl
