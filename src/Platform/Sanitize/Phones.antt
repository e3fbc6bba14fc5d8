-- ===== src/Platform/Sanitize/Phones.antt =====
-- `Phone`: one form for the spellings of a number.
use Prim.Native.String.{String}
use evermore.Base.{
  ℕ, Bool, true, false, ◌&&◌, ◌==◌, ◌≡◌, refl, inl, inr, [], ◌∷◌, keep, arith, ok, Bool-cases, All,
  ap, ◌∙◌,
}
use evermore.Platform.Sanitize.{
  Text, Unicode, phone, prefixed, local_part, dialled, trim_space, trim_left, trim_right,
  dialled_number,
}

abbrev Dialled : Text → Type 0
Dialled = All (λ r. dialled r ≡ true)

keep-Dialled : (s : Text) → Dialled (keep dialled s)
keep-Dialled [] = tt
keep-Dialled (r ∷ rs) = elim (Bool-cases (dialled r)) [
  | inl h ↦ rw h (h, keep-Dialled rs)
  | inr h ↦ rw h (keep-Dialled rs)
]

Dialled-keep : (s : Text) → Dialled s → keep dialled s ≡ s
Dialled-keep [] h = refl
Dialled-keep (r ∷ rs) (h, hs) = rw (h, Dialled-keep rs hs) refl

local_part-Dialled : (s : Text) → Dialled s → Dialled (local_part s)
unfolding local_part
local_part-Dialled [] h = tt
local_part-Dialled (a ∷ []) h = elim (Bool-cases (a == b'0')) [ inl e ↦ rw e tt | inr e ↦ rw e h ]
local_part-Dialled (a ∷ b ∷ []) (ha, hb) = elim (Bool-cases (a == b'6' && b == b'2')) [
  | inl e ↦ rw e tt
  | inr e ↦ elim (Bool-cases (a == b'0')) [ inl z ↦ rw (e, z) hb | inr z ↦ rw (e, z) (ha, hb) ]
]
local_part-Dialled (a ∷ b ∷ c ∷ rest) (ha, (hb, (hc, hs))) =
    elim (Bool-cases (a == b'+' && (b == b'6' && c == b'2'))) [
      | inl p ↦ rw p hs
      | inr p ↦ elim (Bool-cases (a == b'6' && b == b'2')) [
        | inl e ↦ rw (p, e) (hc, hs)
        | inr e ↦ elim (Bool-cases (a == b'0')) [
          | inl z ↦ rw (p, e, z) (hb, (hc, hs))
          | inr z ↦ rw (p, e, z) (ha, (hb, (hc, hs)))
        ]
      ]
    ]

module _ (is_space : ℕ → Bool) (apart : (r : ℕ) → dialled r ≡ true → is_space r ≡ false) where
  trim_right-Dialled : (s : Text) → Dialled s → trim_right is_space s ≡ s
  trim_right-Dialled [] h = refl
  trim_right-Dialled (r ∷ []) (h, _) = rw (trim_right, apart r h) refl
  trim_right-Dialled (r ∷ s ∷ ss) (h, hs) = rw (trim_right-Dialled (s ∷ ss) hs) refl

  trim_space-Dialled : (s : Text) → Dialled s → trim_space is_space s ≡ s
  trim_space-Dialled [] h = refl
  trim_space-Dialled (r ∷ rs) (h, hs) =
      rw (trim_left, apart r h) (trim_right-Dialled (r ∷ rs) (h, hs))

prefixed-eq-ok :
    (field : String) (v w : Text)
    → prefixed field v ≡ ok w
    → (w ≡ b'+' ∷ b'6' ∷ b'2' ∷ v) × ((other : String) → prefixed other v ≡ ok w)
unfolding prefixed
prefixed-eq-ok field v w h = (ground arith, λ other. ground arith)

-- What was accepted comes from a local part that is dialled.
from_kept :
    (field : String) (w s : Text)
    → Dialled s
    → dialled_number field s ≡ ok w
    → (v : Text) × Dialled v × (prefixed field v ≡ ok w)
from_kept field w [] d h = cc
from_kept field w (r ∷ rs) d h = (local_part (r ∷ rs), local_part-Dialled (r ∷ rs) d, h)

phone-eq-ok :
    (u : Unicode) (field : String) (value w : Text)
    → phone u field value ≡ ok w
    → (v : Text) × Dialled v × (prefixed field v ≡ ok w)
unfolding phone
phone-eq-ok u field value w h =
    from_kept field w (keep dialled (trim_space u.is_space value))
      (keep-Dialled (trim_space u.is_space value)) h

-- The stored form of a number leads back to its local part.
phone-stored :
    (u : Unicode) (field : String) (v : Text)
    → ((r : ℕ) → dialled r ≡ true → u.is_space r ≡ false)
    → Dialled v
    → phone u field (b'+' ∷ b'6' ∷ b'2' ∷ v) ≡ prefixed field v
unfolding phone local_part
phone-stored u field v apart d =
    let whole : Dialled (b'+' ∷ b'6' ∷ b'2' ∷ v) = (refl, (refl, (refl, d))) in
    let trimmed = trim_space-Dialled u.is_space apart (b'+' ∷ b'6' ∷ b'2' ∷ v) whole in
    let kept = Dialled-keep (b'+' ∷ b'6' ∷ b'2' ∷ v) whole in
    ap (λ s. dialled_number field (keep dialled s)) trimmed ∙ ap (dialled_number field) kept

-- A number that was accepted is accepted again, for every field, as it stands: its form is the only
-- one that is stored. No character of a number is a blank.
phone-phone :
    (u : Unicode) (field other : String) (value w : Text)
    → ((r : ℕ) → dialled r ≡ true → u.is_space r ≡ false)
    → phone u field value ≡ ok w
    → phone u other w ≡ ok w
phone-phone u field other value w apart h =
    let (v, d, e) = phone-eq-ok u field value w h in
    let (same, again) = prefixed-eq-ok field v w e in
    ap (phone u other) same ∙ (phone-stored u other v apart d ∙ again other)
