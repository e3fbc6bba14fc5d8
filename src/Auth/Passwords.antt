-- ===== src/Auth/Passwords.antt =====
-- `ValidatePassword` of internal/app/auth/auth.go, on the code points of a text.
use evermore.Base.{
  ℕ, ◌≤◌, ltb, ◌==◌, ◌≡◌, ◌↔◌, inl, inr, refl, ap, ◌∙◌, arith, Bool, true, false, ◌&&◌, ◌||◌, List,
  [], ◌∷◌, ◌++◌, if◌then◌else◌, length, Result, ok, err, All, Bool-cases,
}
use evermore.Auth.Tables.{AuthError, password_too_short, password_too_long, password_too_common}

-- `strings.HasPrefix` and `strings.Contains`
abbrev pub starts_with : List ℕ → List ℕ → Bool
starts_with s [] = true
starts_with [] (w ∷ ws) = false
starts_with (c ∷ s) (w ∷ ws) = c == w && starts_with s ws

abbrev pub contains : List ℕ → List ℕ → Bool
contains [] word = starts_with [] word
contains (c ∷ s) word = starts_with (c ∷ s) word || contains s word

-- The words that are refused: password, 12345678, qwerty, evermore123, admin123.
abbrev bad_words : List (List ℕ)
bad_words =
    (b'p' ∷ b'a' ∷ b's' ∷ b's' ∷ b'w' ∷ b'o' ∷ b'r' ∷ b'd' ∷ [])
    ∷ (b'1' ∷ b'2' ∷ b'3' ∷ b'4' ∷ b'5' ∷ b'6' ∷ b'7' ∷ b'8' ∷ [])
    ∷ (b'q' ∷ b'w' ∷ b'e' ∷ b'r' ∷ b't' ∷ b'y' ∷ [])
    ∷ (b'e' ∷ b'v' ∷ b'e' ∷ b'r' ∷ b'm' ∷ b'o' ∷ b'r' ∷ b'e' ∷ b'1' ∷ b'2' ∷ b'3' ∷ [])
    ∷ (b'a' ∷ b'd' ∷ b'm' ∷ b'i' ∷ b'n' ∷ b'1' ∷ b'2' ∷ b'3' ∷ [])
    ∷ []

abbrev any_contained : List ℕ → List (List ℕ) → Bool
any_contained s [] = false
any_contained s (w ∷ ws) = contains s w || any_contained s ws

-- `lower` is the lower case of a text.
unfoldable pub validate_password : (List ℕ → List ℕ) → List ℕ → Result AuthError (Unit {0})
validate_password lower pw =
    if ltb (length pw) 12
    then err password_too_short
    else if ltb 200 (length pw)
    then err password_too_long
    else if any_contained (lower pw) bad_words
    then err password_too_common
    else ok tt

-- The word stands in the text, between what comes before and after it.
abbrev Inside : List ℕ → List ℕ → Type 0
Inside s word = (before after : List ℕ) × (s ≡ before ++ word ++ after)

starts_with_sound :
    (s word : List ℕ) → starts_with s word ≡ true → (after : List ℕ) × (s ≡ word ++ after)
starts_with_sound s [] h = (s, refl)
starts_with_sound [] (w ∷ ws) h = cc
starts_with_sound (c ∷ s) (w ∷ ws) h = elim (Bool-cases (c == w)) [
  | inl e ↦
      let (after, same) = starts_with_sound s ws (ground (arith, e, h)) in
      (after, ground (arith, e, same))
  | inr e ↦ absurd (ground (arith, e, h))
]

starts_with-append : (word after : List ℕ) → starts_with (word ++ after) word ≡ true
starts_with-append [] after = refl
starts_with-append (w ∷ ws) after = ground (arith, starts_with-append ws after)

contains_sound : (s word : List ℕ) → contains s word ≡ true → Inside s word
contains_sound [] word h = let (after, same) = starts_with_sound [] word h in ([], after, same)
contains_sound (c ∷ s) word h = elim (Bool-cases (starts_with (c ∷ s) word)) [
  | inl e ↦ let (after, same) = starts_with_sound (c ∷ s) word e in ([], after, same)
  | inr e ↦
      let (before, after, same) = contains_sound s word (ground (arith, e, h)) in
      (c ∷ before, after, ap (λ x. c ∷ x) same)
]

contains-here : (s word : List ℕ) → starts_with s word ≡ true → contains s word ≡ true
contains-here [] word h = h
contains-here (c ∷ s) word h = ground (arith, h)

contains_complete : (before word after : List ℕ) → contains (before ++ word ++ after) word ≡ true
contains_complete [] word after = contains-here (word ++ after) word (starts_with-append word after)
contains_complete (c ∷ before) word after =
    let rest = contains_complete before word after in
    elim (Bool-cases (starts_with (c ∷ before ++ word ++ after) word)) [
      | inl e ↦ ground (arith, e, rest)
      | inr e ↦ ground (arith, e, rest)
    ]

contains_iff : (s word : List ℕ) → (contains s word ≡ true) ↔ Inside s word
contains_iff s word = (
  contains_sound s word,
  λ (before, after, same). ap (λ x. contains x word) same ∙ contains_complete before word after,
)

any_contained_iff :
    (s : List ℕ) (ws : List (List ℕ)) → (any_contained s ws ≡ false) ↔ All (λ w. Inside s w → ⊥) ws
any_contained_iff s [] = (λ _. tt, λ _. refl)
any_contained_iff s (w ∷ ws) =
    let (f, g) = any_contained_iff s ws in
    let (into, from) = contains_iff s w in
    (
      λ h. elim (Bool-cases (contains s w)) [
        | inl e ↦ absurd (ground (arith, e, h))
        | inr e ↦ ((λ i. absurd (ground (arith, e, from i))), f (ground (arith, e, h)))
      ],
      λ all. elim (Bool-cases (contains s w)) [
        | inl e ↦ absurd (all.0 (into e))
        | inr e ↦ let rest = g all.1 in ground (arith, e, rest)
      ],
    )

-- A password is accepted if and only if it has 12 to 200 code points and its lower case has none of
-- the five common words inside it.
validate_password_iff :
    (lower : List ℕ → List ℕ) (pw : List ℕ)
    → (validate_password lower pw ≡ ok tt)
      ↔ ((12 ≤ length pw) × (length pw ≤ 200) × All (λ w. Inside (lower pw) w → ⊥) bad_words)
unfolding validate_password
validate_password_iff lower pw =
    let (f, g) = any_contained_iff (lower pw) bad_words in
    (
      λ h. elim (Bool-cases (any_contained (lower pw) bad_words)) [
        | inl e ↦ absurd (ground (arith, e, h))
        | inr e ↦ (ground (arith, h), ground (arith, h), f e)
      ],
      λ (low, high, all). let e = g all in ground (arith, low, high, e),
    )
