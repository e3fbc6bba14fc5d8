-- ===== src/Http/Limits/Bounds.antt =====
-- How many requests of a key pass.
use Prim.Native.String.{String}
use evermore.Base.{
  ℕ, ◌+◌, ◌-◌, ◌≤◌, ◌≡◌, refl, sym, subst, ◌∙◌, inl, inr, true, not, ◌&&◌, ltb, List, [], ◌∷◌,
  Option, none, some, if◌then◌else◌, All, Bool-cases, arith,
}
use evermore.Text.{text_eq, text_eq_iff}
use evermore.Http.Limits.{Limit, Window, Limiter, find, allow}
use evermore.Http.Limits.Windows.{Single, alive, seen, counted, granted, allow-refines}

pub record Request : Type 0 where
  pub key : String
  pub limit : Limit
  pub now : ℕ

-- The requests of a key that pass, of a sequence of requests.
unfoldable pub passed : String → Limiter → List Request → ℕ
passed k ws [] = 0
passed k ws (r ∷ rs) =
    let (pass, ws') = allow r.key r.limit r.now ws in
    (if text_eq r.key k && pass then 1 else 0) + passed k ws' rs

-- The requests come up to a time, and those of a key use one bucket.
abbrev pub Within : String → Limit → ℕ → List Request → Type 0
Within k lim t = All (λ r. (r.now ≤ t) × (text_eq r.key k ≡ true → r.limit ≡ lim))

alive_before :
    (now t : ℕ) (o : Option Window) (w : Window)
    → now ≤ t
    → alive t o ≡ some w
    → alive now o ≡ some w
alive_before now t none w h e = cc
alive_before now t (some v) w h e = ground arith

-- A request that finds its window.
found_window :
    (lim : Limit) (now t n : ℕ) (o : Option Window)
    → now ≤ t
    → alive now o ≡ some (record { count = n; reset = t })
    → (granted lim now (alive now o) ≡ not (ltb lim.burst (n + 1)))
      × (alive t (some (counted lim now (alive now o)))
          ≡ some (record { count = n + 1; reset = t }))
found_window lim now t n o h e =
    subst
      (λ v.
        (granted lim now v ≡ not (ltb lim.burst (n + 1)))
        × (alive t (some (counted lim now v)) ≡ some (record { count = n + 1; reset = t })))
      (sym e) (ground arith)

-- One request of the key, in its window.
hit_step :
    (k key : String) (lim limit : Limit) (now t n : ℕ) (ws : Limiter)
    → Single ws
    → now ≤ t
    → seen t k ws ≡ some (record { count = n; reset = t })
    → key ≡ k
    → limit ≡ lim
    → ((allow key limit now ws).0 ≡ not (ltb lim.burst (n + 1)))
      × Single (allow key limit now ws).1
      × (seen t k (allow key limit now ws).1 ≡ some (record { count = n + 1; reset = t }))
hit_step k key lim limit now t n ws s h e keys limits =
    subst
      (λ x.
        ((allow x limit now ws).0 ≡ not (ltb lim.burst (n + 1)))
        × Single (allow x limit now ws).1
        × (seen t k (allow x limit now ws).1 ≡ some (record { count = n + 1; reset = t })))
      (sym keys)
      (subst
        (λ l.
          ((allow k l now ws).0 ≡ not (ltb lim.burst (n + 1)))
          × Single (allow k l now ws).1
          × (seen t k (allow k l now ws).1 ≡ some (record { count = n + 1; reset = t })))
        (sym limits)
        (let (answer, single, view) = allow-refines k lim now t ws s h in
          let (grant, next) =
            found_window lim now t n (find k ws) h (alive_before now t (find k ws) _ h e) in
          (answer ∙ grant, single, view k ∙ (rw ((text_eq_iff k k).1 refl) next))))

-- The rest of a window passes at most what its counter leaves of the bucket.
passed_rest :
    (k : String) (lim : Limit) (t n : ℕ) (ws : Limiter) (rs : List Request)
    → Single ws
    → seen t k ws ≡ some (record { count = n; reset = t })
    → Within k lim t rs
    → passed k ws rs ≤ lim.burst - n
unfolding passed
passed_rest k lim t n ws [] s e within = omega arith
passed_rest k lim t n ws (r ∷ rs) s e ((early, same), within) =
    elim (Bool-cases (text_eq r.key k)) [
      | inl y ↦
          let (answer, single, view) =
            hit_step k r.key lim r.limit r.now t n ws s early e ((text_eq_iff r.key k).0 y)
              (same y) in
          let rest =
            passed_rest k lim t (n + 1) (allow r.key r.limit r.now ws).1 rs single view within in
          ground (arith, y, answer, rest)
      | inr y ↦
          let (answer, single, view) = allow-refines r.key r.limit r.now t ws s early in
          let kept : seen t k (allow r.key r.limit r.now ws).1 ≡ seen t k ws = view k ∙ rw y refl in
          let rest =
            passed_rest k lim t n (allow r.key r.limit r.now ws).1 rs single (kept ∙ e) within in
          ground (arith, y, rest)
    ]

-- Of the requests of a key that come from the first one of a window until the window is over, at
-- most as many pass as the bucket holds, whatever the other keys do; the first one is no earlier
-- than the end of the key's last window.
pub passed_bound :
    (k : String) (lim : Limit) (now : ℕ) (ws : Limiter) (rs : List Request)
    → Single ws
    → seen now k ws ≡ none
    → Within k lim (now + lim.window) rs
    → passed k ws (record { key = k; limit = lim; now = now } ∷ rs) ≤ lim.burst
unfolding passed
passed_bound k lim now ws rs s fresh within =
    let (answer, single, view) = allow-refines k lim now (now + lim.window) ws s (omega arith) in
    let first : seen (now + lim.window) k (allow k lim now ws).1
        ≡ some (record { count = 1; reset = now + lim.window }) =
      view k ∙ rw ((text_eq_iff k k).1 refl, fresh) (ground arith) in
    let rest =
      passed_rest k lim (now + lim.window) 1 (allow k lim now ws).1 rs single first within in
    ground (arith, answer, rest, (text_eq_iff k k).1 refl, fresh)
