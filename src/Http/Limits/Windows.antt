-- ===== src/Http/Limits/Windows.antt =====
-- The limiter implements one counter per key that forgets when its window is over: the map and the
-- sweep of expired windows do not show.
use Prim.Native.String.{String}
use evermore.Base.{
  ℕ, ◌+◌, ◌≤◌, ◌≡◌, refl, sym, ap, subst, ◌∙◌, inl, inr, Bool, true, false, not, ltb, [], ◌∷◌,
  Option, none, some, if◌then◌else◌, length, keep, Bool-cases, arith,
}
use evermore.Text.{text_eq, text_eq_iff}
use evermore.Http.Limits.{Limit, Window, Entry, Limiter, find, put, expired, current, sweep, allow}

-- A key has one window.
abbrev pub Single : Limiter → Type 0
Single [] = Unit
Single (e ∷ es) = (find e.key es ≡ none) × Single es

-- The window of a key that is not over at a time.
abbrev pub alive : ℕ → Option Window → Option Window
alive t none = none
alive t (some w) = if expired t w then none else some w

abbrev pub seen : ℕ → String → Limiter → Option Window
seen t k ws = alive t (find k ws)

-- The abstract limiter: it reads and writes the counter of the request's key.
abbrev pub counted : Limit → ℕ → Option Window → Window
counted lim now o = let w = current lim now o in record w { count = w.count + 1 }

abbrev pub granted : Limit → ℕ → Option Window → Bool
granted lim now o = not (ltb lim.burst (counted lim now o).count)

key_refl : (k : String) → text_eq k k ≡ true
key_refl k = (text_eq_iff k k).1 refl

key_sym : (k l : String) → text_eq k l ≡ false → text_eq l k ≡ false
key_sym k l h = elim (Bool-cases (text_eq l k)) [
  | inl e ↦
      let same = (text_eq_iff l k).0 e in cc (h, subst (λ x. text_eq x l ≡ true) same (key_refl l))
  | inr e ↦ e
]

find-put : (k : String) (w : Window) (ws : Limiter) → find k (put k w ws) ≡ some w
unfolding find put
find-put k w [] = rw (key_refl k) refl
find-put k w (e ∷ es) = elim (Bool-cases (text_eq e.key k)) [
  | inl h ↦ rw (h, key_refl k) refl
  | inr h ↦ rw (h, h) (find-put k w es)
]

find-put_other :
    (k l : String) (w : Window) (ws : Limiter)
    → text_eq k l ≡ false
    → find l (put k w ws) ≡ find l ws
unfolding find put
find-put_other k l w [] h = rw h refl
find-put_other k l w (e ∷ es) h = elim (Bool-cases (text_eq e.key k)) [
  | inl s ↦
      let same = (text_eq_iff e.key k).0 s in
      rw (s, h, subst (λ x. text_eq x l ≡ false) (sym same) h) refl
  | inr s ↦
      rw s (ap (λ o. if text_eq e.key l then some e.window else o) (find-put_other k l w es h))
]

find-keep-none :
    (k : String) (p : Entry → Bool) (ws : Limiter) → find k ws ≡ none → find k (keep p ws) ≡ none
unfolding find
find-keep-none k p [] h = refl
find-keep-none k p (e ∷ es) h = ground (arith, find-keep-none k p es)

Single-keep : (p : Entry → Bool) (ws : Limiter) → Single ws → Single (keep p ws)
Single-keep p [] s = tt
Single-keep p (e ∷ es) (h, s) = elim (Bool-cases (p e)) [
  | inl y ↦ rw (keep, y) (find-keep-none e.key p es h, Single-keep p es s)
  | inr y ↦ rw (keep, y) (Single-keep p es s)
]

Single-put : (k : String) (w : Window) (ws : Limiter) → Single ws → Single (put k w ws)
unfolding put find
Single-put k w [] s = (refl, tt)
Single-put k w (e ∷ es) (h, s) = elim (Bool-cases (text_eq e.key k)) [
  | inl y ↦ let same = (text_eq_iff e.key k).0 y in rw y (subst (λ x. find x es ≡ none) same h, s)
  | inr y ↦ rw y (find-put_other k e.key w es (key_sym e.key k y) ∙ h, Single-put k w es s)
]

-- A sweep keeps the windows that are not over.
find-keep :
    (now : ℕ) (l : String) (ws : Limiter)
    → Single ws
    → find l (keep (λ e. not (expired now e.window)) ws) ≡ alive now (find l ws)
unfolding find
find-keep now l [] s = refl
find-keep now l (e ∷ es) (h, s) = elim (Bool-cases (text_eq e.key l)) [
  | inl y ↦
      let gone = subst (λ x. find x es ≡ none) ((text_eq_iff e.key l).0 y) h in
      ground (arith, find-keep now l es s, gone, y)
  | inr y ↦ ground (arith, find-keep now l es s, y)
]

alive-alive : (now t : ℕ) (o : Option Window) → now ≤ t → alive t (alive now o) ≡ alive t o
alive-alive now t none h = refl
alive-alive now t (some w) h = ground arith

seen-sweep :
    (now t : ℕ) (l : String) (ws : Limiter)
    → Single ws
    → now ≤ t
    → seen t l (sweep now ws) ≡ seen t l ws
unfolding sweep
seen-sweep now t l ws s h = ground (arith, find-keep now l ws s, alive-alive now t (find l ws) h)

Single-sweep : (now : ℕ) (ws : Limiter) → Single ws → Single (sweep now ws)
unfolding sweep
Single-sweep now ws s = elim (Bool-cases (ltb 10000 (length ws))) [
  | inl y ↦ rw y (Single-keep (λ e. not (expired now e.window)) ws s)
  | inr y ↦ rw y s
]

-- The window of a request is not over.
current-alive :
    (lim : Limit) (now : ℕ) (o : Option Window)
    → alive now (some (current lim now o)) ≡ some (current lim now o)
current-alive lim now none = ground arith
current-alive lim now (some w) = ground arith

current-seen :
    (lim : Limit) (now : ℕ) (o : Option Window) → current lim now (alive now o) ≡ current lim now o
current-seen lim now none = refl
current-seen lim now (some w) = ground arith

-- The sweep leaves the request its window.
find-sweep :
    (k : String) (lim : Limit) (now : ℕ) (o : Option Window) (ws : Limiter)
    → Single ws
    → find k (sweep now (put k (current lim now o) ws)) ≡ some (current lim now o)
unfolding sweep
find-sweep k lim now o ws s = ground (
  arith,
  find-keep now k (put k (current lim now o) ws) (Single-put k (current lim now o) ws s),
  find-put k (current lim now o) ws,
  current-alive lim now o,
)

-- The limiter after a request.
after : String → Limit → ℕ → Limiter → Limiter
after k lim now ws =
    let w = current lim now (find k ws) in
    put k (record w { count = w.count + 1 }) (sweep now (put k w ws))

allow-after :
    (k : String) (lim : Limit) (now : ℕ) (ws : Limiter)
    → Single ws
    → allow k lim now ws ≡ (granted lim now (find k ws), after k lim now ws)
unfolding allow after
allow-after k lim now ws s = rw (find-sweep k lim now (find k ws) ws s) refl

seen-after :
    (k l : String) (lim : Limit) (now t : ℕ) (ws : Limiter)
    → Single ws
    → now ≤ t
    → seen t l (after k lim now ws)
      ≡ (if text_eq k l then alive t (some (counted lim now (find k ws))) else seen t l ws)
unfolding after
seen-after k l lim now t ws s h = elim (Bool-cases (text_eq k l)) [
  | inl y ↦ rw (y, sym ((text_eq_iff k l).0 y), find-put k _ _) refl
  | inr y ↦
      let w = current lim now (find k ws) in
      rw y (
        ap (alive t) (find-put_other k l (counted lim now (find k ws)) (sweep now (put k w ws)) y)
        ∙ (seen-sweep now t l (put k w ws) (Single-put k w ws s) h
            ∙ ap (alive t) (find-put_other k l w ws y)))
]

-- A request is granted by its key's counter alone, adds one to it, and changes no other counter, at
-- every time from the request on: a limiter with its map and its sweep is a counter per key that
-- forgets when its window is over.
pub allow-refines :
    (k : String) (lim : Limit) (now t : ℕ) (ws : Limiter)
    → Single ws
    → now ≤ t
    → ((allow k lim now ws).0 ≡ granted lim now (seen now k ws))
      × Single (allow k lim now ws).1
      × ((l : String)
          → seen t l (allow k lim now ws).1 ≡ (
              if text_eq k l
              then alive t (some (counted lim now (seen now k ws)))
              else seen t l ws))
unfolding after
allow-refines k lim now t ws s h =
    let same = allow-after k lim now ws s in
    let w = current lim now (find k ws) in
    (
      ap (λ p. p.0) same
          ∙ ap (λ v. not (ltb lim.burst (v.count + 1))) (sym (current-seen lim now (find k ws))),
      subst Single (sym (ap (λ p. p.1) same))
          (Single-put k _ _ (Single-sweep now _ (Single-put k w ws s))),
      λ l.
          ap (λ p. seen t l p.1) same
          ∙ (seen-after k l lim now t ws s h
              ∙ ap
                  (λ v.
                    if text_eq k l
                    then alive t (some (record v { count = v.count + 1 }))
                    else seen t l ws)
                  (sym (current-seen lim now (find k ws)))),
    )
