-- ===== src/Platform/Sanitize/Texts.antt =====
-- `Text` and `Normalise`: what is accepted has no control character, and the length asked for.
use Prim.Native.String.{String}
use evermore.Base.{
  ℕ, ◌≤◌, Bool, false, ◌≡◌, List, [], ◌∷◌, ◌++◌, some, length, arith, ok, All, All-append,
  Option-cases, inl, inr, subst, sym, Bool-cases,
}
use evermore.Platform.Sanitize.{
  Text, Unicode, fields, join_words, printable, map_runes, normalise, text,
}

abbrev Printable : (ℕ → Bool) → Text → Type 0
Printable is_control = All (λ r. is_control r ≡ false)

module _ (is_control : ℕ → Bool) (blank : is_control b' ' ≡ false) where
  printable-some : (r s : ℕ) → printable is_control r ≡ some s → is_control s ≡ false
  printable-some r s h = ground (arith, blank)

  map_runes-Printable : (s : Text) → Printable is_control (map_runes (printable is_control) s)
  map_runes-Printable [] = tt
  map_runes-Printable (r ∷ rs) = elim (Option-cases (printable is_control r)) [
    | inl h ↦ rw (map_runes, h) (map_runes-Printable rs)
    | inr (s, h) ↦ rw (map_runes, h) (printable-some r s h, map_runes-Printable rs)
  ]

  fields-Printable :
      (is_space : ℕ → Bool) (word s : Text)
      → Printable is_control word
      → Printable is_control s
      → All (Printable is_control) (fields is_space word s)
  fields-Printable is_space [] [] hw hs = tt
  fields-Printable is_space (w ∷ ws) [] hw hs = (hw, tt)
  fields-Printable is_space [] (r ∷ rs) hw (h, hs) = elim (Bool-cases (is_space r)) [
    | inl e ↦ rw (fields, e) (fields-Printable is_space [] rs tt hs)
    | inr e ↦ rw (fields, e) (fields-Printable is_space (r ∷ []) rs (h, tt) hs)
  ]
  fields-Printable is_space (w ∷ ws) (r ∷ rs) hw (h, hs) = elim (Bool-cases (is_space r)) [
    | inl e ↦ rw (fields, e) (hw, fields-Printable is_space [] rs tt hs)
    | inr e ↦
        rw (fields, e)
          (fields-Printable is_space (w ∷ ws ++ r ∷ []) rs
            (All-append _ (w ∷ ws) (r ∷ []) hw (h, tt)) hs)
  ]

  join_words-Printable :
      (ws : List Text) → All (Printable is_control) ws → Printable is_control (join_words ws)
  join_words-Printable [] h = tt
  join_words-Printable (w ∷ []) (h, _) = h
  join_words-Printable (w ∷ v ∷ ws) (h, hs) =
      All-append _ w (b' ' ∷ join_words (v ∷ ws)) h (blank, join_words-Printable (v ∷ ws) hs)

normalise-Printable :
    (u : Unicode) → u.is_control b' ' ≡ false → (s : Text) → Printable u.is_control (normalise u s)
unfolding normalise
normalise-Printable u blank s = join_words-Printable u.is_control blank _ (
    fields-Printable u.is_control blank u.is_space [] _ tt
      (map_runes-Printable u.is_control blank (u.nfc s)))

-- What `Text` accepts is the normalised value, within the bounds.
text-eq-ok :
    (u : Unicode) (field : String) (value : Text) (min_len max_len : ℕ) (v : Text)
    → text u field value min_len max_len ≡ ok v
    → (v ≡ normalise u value) × (min_len ≤ length v) × (length v ≤ max_len)
unfolding text
text-eq-ok u field value min_len max_len v h = ground arith

-- A text that the guard accepts holds no control character and has a length within the bounds; a
-- blank is no control character.
text-Printable :
    (u : Unicode) (field : String) (value : Text) (min_len max_len : ℕ) (v : Text)
    → u.is_control b' ' ≡ false
    → text u field value min_len max_len ≡ ok v
    → Printable u.is_control v × (min_len ≤ length v) × (length v ≤ max_len)
text-Printable u field value min_len max_len v blank h =
    let (same, low, high) = text-eq-ok u field value min_len max_len v h in
    (subst (Printable u.is_control) (sym same) (normalise-Printable u blank value), low, high)
