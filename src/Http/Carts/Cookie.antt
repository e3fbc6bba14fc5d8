-- ===== src/Http/Carts/Cookie.antt =====
-- The cart cookie is read back as it was written.
use evermore.Base.{
  Bool-cases, Option-cases, inl, inr, ℕ, zero, suc, ◌≤◌, ◌<◌, Bool, true, false, not, ◌&&◌, ◌||◌,
  ◌==◌, ==_iff, ◌≡◌, refl, sym, ap, subst, List, [], ◌∷◌, ◌++◌, map, Option, none, some, length,
  length-append, All, arith, ◌∙◌,
}
use evermore.Platform.Sanitize.{Text, has_rune}
use evermore.Http.Decimals.{fill, int_to_str}
use evermore.Http.Carts.{
  CartEntry, Uuids, atoi, numeral, split_at, cut_at, quantity, read_entry, read_parts, read_cart,
  write_entry, write_cart,
}

-- What the package says of its texts: they are read back, and hold neither separator.
pub record UuidLaws (u : Uuids) : Type 0 where
  pub parse-show : (i : ℕ) → u.parse (u.show i) ≡ some i
  pub no_comma : (i : ℕ) → has_rune b',' (u.show i) ≡ false
  pub no_colon : (i : ℕ) → has_rune b':' (u.show i) ≡ false

has_rune-append : (r : ℕ) (s t : Text) → has_rune r (s ++ t) ≡ (has_rune r s || has_rune r t)
has_rune-append r [] t = refl
has_rune-append r (x ∷ xs) t = ground (arith, has_rune-append r xs t)

cut_found :
    (sep : ℕ) (a b : Text) → has_rune sep a ≡ false → cut_at sep (a ++ sep ∷ b) ≡ some (a, b)
cut_found sep [] b h = ground arith
cut_found sep (r ∷ rs) b h = ground (arith, h, cut_found sep rs b)

split_none : (sep : ℕ) (a : Text) → has_rune sep a ≡ false → split_at sep a ≡ (a, [])
split_none sep [] h = refl
split_none sep (r ∷ rs) h = ground (arith, h, split_none sep rs)

split_found :
    (sep : ℕ) (a t : Text)
    → has_rune sep a ≡ false
    → split_at sep (a ++ sep ∷ t) ≡ (a, (split_at sep t).0 ∷ (split_at sep t).1)
split_found sep [] t h = ground arith
split_found sep (r ∷ rs) t h = ground (arith, h, split_found sep rs t)

-- The quantities that a cart may hold have numerals that are read back.
same_quantity : ℕ → Option ℕ → Bool
same_quantity n none = false
same_quantity n (some m) = m == n

readable : ℕ → Bool
unfolding same_quantity
readable n = same_quantity n (quantity (atoi (numeral n))) && not (has_rune b',' (numeral n))

all_readable : ℕ → Bool
unfolding readable
all_readable zero = true
all_readable (suc n) = readable (suc n) && all_readable n

readable_to_999 : all_readable 999 ≡ true
unfolding all_readable readable same_quantity atoi int_to_str fill
readable_to_999 = refl

readable_below : (m n : ℕ) → all_readable m ≡ true → 0 < n → n ≤ m → readable n ≡ true
unfolding all_readable
readable_below zero n h pos le = ground (arith, pos, le)
readable_below (suc m) n h pos le = elim (Bool-cases (n == suc m)) [
  | inl e ↦ subst (λ k. readable k ≡ true) (sym ((==_iff n (suc m)).0 e)) (ground (arith, h))
  | inr e ↦ readable_below m n (ground (arith, h)) pos (ground (arith, e, le))
]

quantity_read :
    (n : ℕ)
    → 0 < n
    → n ≤ 999
    → (quantity (atoi (numeral n)) ≡ some n) × (has_rune b',' (numeral n) ≡ false)
unfolding readable same_quantity
quantity_read n pos le =
    let h = readable_below 999 n readable_to_999 pos le in
    (
      elim (Option-cases (quantity (atoi (numeral n)))) [
        | inl e ↦ ground (arith, h, e)
        | inr (m, e) ↦
            let both : (same_quantity n (some m) && not (has_rune b',' (numeral n))) ≡ true =
              rw e at h in
            e ∙ ap some ((==_iff m n).0 (ground (arith, both)))
      ],
      ground (arith, h),
    )

-- A line that a cart may hold.
abbrev pub IsLine : CartEntry → Type 0
IsLine e = (0 < e.qty) × (e.qty ≤ 999)

module _ (u : Uuids) (laws : UuidLaws u) where
  open laws use {parse-show, no_comma, no_colon}

  entry-read : (e : CartEntry) → IsLine e → read_entry u (cut_at b':' (write_entry u e)) ≡ some e
  entry-read e (pos, le) =
      rw
        (
          cut_found b':' (u.show e.meal_id) (numeral e.qty) (no_colon e.meal_id),
          read_entry,
          parse-show e.meal_id,
          (quantity_read e.qty pos le).0,
        )
        refl

  entry-no_comma : (e : CartEntry) → IsLine e → has_rune b',' (write_entry u e) ≡ false
  entry-no_comma e (pos, le) = ground (
    arith,
    has_rune-append b',' (u.show e.meal_id) (b':' ∷ numeral e.qty),
    no_comma e.meal_id,
    (quantity_read e.qty pos le).1,
  )

  parts-read : (es : List CartEntry) → All IsLine es → read_parts u (map (write_entry u) es) ≡ es
  parts-read [] h = refl
  parts-read (e ∷ es) (line, h) =
      rw (read_parts, entry-read e line) (ap (λ r. e ∷ r) (parts-read es h))

  cart-split :
      (e : CartEntry) (es : List CartEntry)
      → All IsLine (e ∷ es)
      → split_at b',' (write_cart u (e ∷ es)) ≡ (write_entry u e, map (write_entry u) es)
  unfolding write_cart
  cart-split e [] (line, h) = split_none b',' (write_entry u e) (entry-no_comma e line)
  cart-split e (d ∷ ds) (line, h) =
      split_found b',' (write_entry u e) (write_cart u (d ∷ ds)) (entry-no_comma e line)
      ∙ ap (λ p. (write_entry u e, p.0 ∷ p.1)) (cart-split d ds h)

read_nonempty :
    (u : Uuids) (t : Text)
    → 0 < length t
    → read_cart u t ≡ read_parts u ((split_at b',' t).0 ∷ (split_at b',' t).1)
unfolding read_cart
read_nonempty u [] h = elim h [ ]
read_nonempty u (r ∷ rs) h = refl

written_nonempty :
    (u : Uuids) (e : CartEntry) (es : List CartEntry) → 0 < length (write_cart u (e ∷ es))
unfolding write_cart
written_nonempty u e [] = omega (arith, length-append (u.show e.meal_id) (b':' ∷ numeral e.qty))
written_nonempty u e (d ∷ ds) =
    omega (arith, length-append (write_entry u e) (b',' ∷ write_cart u (d ∷ ds)))

-- A cart of quantities from 1 to 999 is read back from its cookie as it was written, when the texts
-- of identifiers are read back and hold neither a comma nor a colon.
pub read_cart-write_cart :
    (u : Uuids)
    → UuidLaws u
    → (es : List CartEntry) → All IsLine es
    → read_cart u (write_cart u es) ≡ es
unfolding read_cart write_cart
read_cart-write_cart u laws [] h = refl
read_cart-write_cart u laws (e ∷ es) h =
    read_nonempty u (write_cart u (e ∷ es)) (written_nonempty u e es)
    ∙ (ap (λ p. read_parts u (p.0 ∷ p.1)) (cart-split u laws e es h) ∙ parts-read u laws (e ∷ es) h)
