-- ===== src/Platform/Locales/Choice.antt =====
-- The locale of a request is one that the site serves.
use evermore.Base.{
  true, false, ◌≡◌, refl, inl, inr, List, [], ◌∷◌, Option, some, All, All-perm, Bool-cases,
  Option-cases, arith,
}
use evermore.Sorting.{sort}
use evermore.Sorting.Laws.{sort-perm}
use evermore.Platform.Sanitize.{Text, Unicode, same_text, trim_space}
use evermore.Platform.Sanitize.Coordinates.{Floats}
use evermore.Platform.Locales.{
  LocaleSet, has, set_of, new_set, fold_tags, split_on, Weighted, weighted, entry, entries, params,
  preferred, first_locale, from_accept_language, negotiate,
}

same_text_refl : (t : Text) → same_text t t ≡ true
same_text_refl [] = refl
same_text_refl (r ∷ rs) = ground (arith, same_text_refl rs)

set_of-default : (ls : List Text) → has (set_of ls) (set_of ls).default_locale ≡ true
unfolding has
set_of-default [] = refl
set_of-default (l ∷ ls) = ground (arith, same_text_refl l)

module _ {F : Type 0} (u : Unicode) (n : Floats F) (s : LocaleSet) where
  abbrev Served : List (Weighted F) → Type 0
  Served = All (λ w. has s w.locale ≡ true)

  weighted-has :
      (tag : Text) (q : F) (w : Weighted F) → weighted u n s tag q ≡ some w → has s w.locale ≡ true
  weighted-has tag q w h = ground (arith, h)

  entry-has : (p : Text) (w : Weighted F) → entry u n s p ≡ some w → has s w.locale ≡ true
  entry-has [] w h = cc
  entry-has (r ∷ rs) w h = by_rest (split_on b';' (r ∷ rs)).1 refl
    where
      by_rest : (rest : List Text) → (split_on b';' (r ∷ rs)).1 ≡ rest → has s w.locale ≡ true
      by_rest [] e = weighted-has (r ∷ rs) (n.decimal false 10) w (rw (entry, e) at h)
      by_rest (p ∷ ps) e =
          weighted-has (trim_space u.is_space (split_on b';' (r ∷ rs)).0)
            (params u n (p ∷ ps) (n.decimal false 10)) w (rw (entry, e) at h)

  entries-Served : (ps : List Text) → Served (entries u n s ps)
  entries-Served [] = tt
  entries-Served (p ∷ ps) = elim (Option-cases (entry u n s (trim_space u.is_space p))) [
    | inl e ↦ rw (entries, e) (entries-Served ps)
    | inr (w, e) ↦ rw (entries, e) (entry-has (trim_space u.is_space p) w e, entries-Served ps)
  ]

  first-has :
      (ws : List (Weighted F)) (l : Text) → Served ws → first_locale ws ≡ some l → has s l ≡ true
  first-has [] l h e = cc
  first-has (w ∷ ws) l (h, _) e = ground (arith, h, e)

  header-has : (header l : Text) → from_accept_language u n s header ≡ some l → has s l ≡ true
  unfolding from_accept_language
  header-has header l h = elim (Bool-cases (same_text (trim_space u.is_space header) [])) [
    | inl e ↦ cc (rw e at h)
    | inr e ↦
        let ws = entries u n s ((split_on b',' header).0 ∷ (split_on b',' header).1) in
        first-has (sort (preferred u n) ws) l
          (All-perm (λ w. has s w.locale) (sort-perm (preferred u n) ws)
            (entries-Served ((split_on b',' header).0 ∷ (split_on b',' header).1)))
          (rw e at h)
  ]

-- Whatever a request asks for by its parameter, its cookie and its header, the locale that is chosen
-- is one that the site serves.
negotiate-has :
    {F : Type 0} (u : Unicode) (n : Floats F) (tags : List Text) (lang : Text)
    (cookie : Option Text) (header : Text)
    → has (new_set u tags) (negotiate u n (new_set u tags) lang cookie header) ≡ true
unfolding negotiate new_set
negotiate-has u n tags lang cookie header =
    let s = set_of (fold_tags u [] tags) in
    elim (Option-cases (from_accept_language u n s header)) [
      | inl e ↦ ground (arith, e, set_of-default (fold_tags u [] tags))
      | inr (l, e) ↦ ground (arith, e, header-has u n s header l e)
    ]
