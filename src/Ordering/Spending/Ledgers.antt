-- ===== src/Ordering/Spending/Ledgers.antt =====
-- Whose packages the redeemed entries are of: each package gets those with its identifier.
use mathlib.Core.List.{append_assoc, append-nil}
use evermore.Base.{
  ℕ, ◌+◌, ◌≤◌, ◌<◌, ◌==◌, ◌≡◌, refl, sym, subst, ap, ◌∙◌, inl, inr, arith, false, List, [], ◌∷◌,
  ◌++◌, if◌then◌else◌, ok, >>=-eq-ok, refuse-eq-ok, length, keep, keep-append, tally, All,
  All-append, All-map, Each, Bool-cases,
}
use evermore.Int64.{ℤ, pos, ◌<ℤ◌, ◌==ℤ◌}
use evermore.Credit.{Entry, Package, redeem, redeem_loop, rounds, balance}
use evermore.Credit.Redemption.{redeem_loop_entries}
use evermore.Ordering.Spending.{
  CreditPackage, CreditLine, Order, request_of, lift, unusable, pay, spend_one, spend_line,
  spend_lines, no_credits, spend_credits,
}

-- The entries of a package in a ledger.
abbrev pub of_package : ℕ → List Entry → List Entry
of_package id = keep (λ e. e.customer_package_id == id)

-- A package before and after entries were written: it has its own ones, appended.
abbrev pub Tied : List Entry → CreditPackage → CreditPackage → Type 0
Tied es cp cp' = (cp'.pkg ≡ cp.pkg) × (cp'.entries ≡ cp.entries ++ of_package cp.pkg.id es)

-- An entry is of one of the packages.
abbrev pub IsOf : List CreditPackage → Entry → Type 0
IsOf packs e = 0 < tally (λ cp. cp.pkg.id == e.customer_package_id) packs

-- An identifier is that of one package.
abbrev pub Keyed : List CreditPackage → Type 0
Keyed packs = (id : ℕ) → tally (λ cp. cp.pkg.id == id) packs ≤ 1

abbrev OfOne : ℕ → List Entry → Type 0
OfOne id = All (λ e. e.customer_package_id ≡ id)

of_package_own : (id : ℕ) (es : List Entry) → OfOne id es → of_package id es ≡ es
of_package_own id [] all = refl
of_package_own id (e ∷ es) (h, all) = ground (arith, h, of_package_own id es all)

of_package_other :
    (id other : ℕ) (es : List Entry)
    → OfOne id es
    → (id == other) ≡ false
    → of_package other es ≡ []
of_package_other id other [] all h = refl
of_package_other id other (e ∷ es) (f, all) h =
    ground (arith, f, h, of_package_other id other es all h)

-- The entries of the packages of a list, for a package that is not in it.
of_package_absent :
    (id : ℕ) (packs : List CreditPackage) (es : List Entry)
    → tally (λ cp. cp.pkg.id == id) packs ≡ 0
    → All (IsOf packs) es
    → of_package id es ≡ []
of_package_absent id packs [] none_there all = refl
of_package_absent id packs (e ∷ es) none_there (h, all) =
    elim (Bool-cases (e.customer_package_id == id)) [
      | inl y ↦
          let same : e.customer_package_id ≡ id = ground (arith, y) in
          absurd (
            omega (
              arith,
              none_there,
              subst (λ k. 0 < tally (λ (cp : CreditPackage). cp.pkg.id == k) packs) same h,
            ))
      | inr y ↦ rw (keep, y) (of_package_absent id packs es none_there all)
    ]

-- One round writes entries of its package.
spend_one-OfOne :
    (o : Order) (drawn : ℕ) (cp : CreditPackage) (l : CreditLine) (left : ℤ) (cp' : CreditPackage)
    (es : List Entry) (left' : ℤ)
    → spend_one o drawn cp l left ≡ ok (cp', es, left')
    → (cp' ≡ record cp { entries = cp.entries ++ es }) × OfOne cp.pkg.id es
unfolding spend_one pay redeem
spend_one-OfOne o drawn cp l left cp' es left' h = elim (Bool-cases (unusable cp l)) [
  | inl u ↦
      let same : cp ≡ cp' = ground (arith, u, h) in
      let none_written : [] ≡ es = ground (arith, u, h) in
      subst
        (λ (x : List Entry). (cp' ≡ record cp { entries = cp.entries ++ x }) × OfOne cp.pkg.id x)
        none_written
        (sym same ∙ ap (λ x. record cp { entries = x }) (sym (append-nil cp.entries)), tt)
  | inr u ↦
      let take = if balance cp.entries <ℤ left then balance cp.entries else left in
      let paid : pay o drawn cp l left take ≡ ok (cp', es, left') = ground (arith, u, h) in
      let (out, redeemed_ok, rest) =
        >>=-eq-ok (lift (redeem (λ i. o.new_id (drawn + i)) (request_of o cp l take))) _ paid in
      let loop : redeem_loop (λ i. o.new_id (drawn + i)) (request_of o cp l take) 0 (rounds take)
          ≡ out =
        ground (arith, redeemed_ok) in
      let same : out ≡ es = ground (arith, rest) in
      let all : OfOne cp.pkg.id
          (redeem_loop (λ i. o.new_id (drawn + i)) (request_of o cp l take) 0 (rounds take)) =
        All-map (λ e p. p.2) _
          (redeem_loop_entries (λ i. o.new_id (drawn + i)) (request_of o cp l take) 0
            (rounds take)).0 in
      (ground (arith, rest, same), subst (OfOne cp.pkg.id) (loop ∙ same) all)
]

Tied-none : (packs : List CreditPackage) → Each (Tied []) packs packs
Tied-none [] = tt
Tied-none (cp ∷ packs) = ((refl, sym (append-nil cp.entries)), Tied-none packs)

tail-Keyed : (cp : CreditPackage) (packs : List CreditPackage) → Keyed (cp ∷ packs) → Keyed packs
tail-Keyed cp packs keyed id = omega (arith, keyed id)

head_once :
    (cp : CreditPackage) (packs : List CreditPackage)
    → Keyed (cp ∷ packs)
    → tally (λ x. x.pkg.id == cp.pkg.id) packs ≡ 0
head_once cp packs keyed = ground (arith, keyed cp.pkg.id)

-- Entries of a package that is not in the list tie nothing.
Tied-skip :
    (id : ℕ) (before es : List Entry) (packs packs' : List CreditPackage)
    → OfOne id before
    → tally (λ cp. cp.pkg.id == id) packs ≡ 0
    → Each (Tied es) packs packs'
    → Each (Tied (before ++ es)) packs packs'
Tied-skip id before es [] [] own absent h = tt
Tied-skip id before es [] (cp' ∷ packs') own absent h = elim h [ ]
Tied-skip id before es (cp ∷ packs) [] own absent h = elim h [ ]
Tied-skip id before es (cp ∷ packs) (cp' ∷ packs') own absent ((p, e), h) =
    let apart : (id == cp.pkg.id) ≡ false = ground (arith, absent) in
    let split =
      keep-append (λ x. x.customer_package_id == cp.pkg.id) before es
      ∙ ap (λ x. x ++ of_package cp.pkg.id es) (of_package_other id cp.pkg.id before own apart) in
    (
      (p, e ∙ ap (λ x. cp.entries ++ x) (sym split)),
      Tied-skip id before es packs packs' own (ground (arith, absent)) h,
    )

IsOf-weaken :
    (cp : CreditPackage) (packs : List CreditPackage) (es : List Entry)
    → All (IsOf packs) es
    → All (IsOf (cp ∷ packs)) es
IsOf-weaken cp packs es all = All-map (λ e h. omega (arith, h)) es all

IsOf-head :
    (cp : CreditPackage) (packs : List CreditPackage) (es : List Entry)
    → OfOne cp.pkg.id es
    → All (IsOf (cp ∷ packs)) es
IsOf-head cp packs es all = All-map (λ e h. ground (arith, h)) es all

spend_line-Tied :
    (o : Order) (drawn : ℕ) (packs : List CreditPackage) (l : CreditLine) (left : ℤ)
    (packs' : List CreditPackage) (es : List Entry) (left' : ℤ)
    → Keyed packs
    → spend_line o drawn packs l left ≡ ok (packs', es, left')
    → Each (Tied es) packs packs' × All (IsOf packs) es
unfolding spend_line
spend_line-Tied o drawn [] l left packs' es left' keyed h =
    let same : [] ≡ packs' = ground arith in
    let same' : [] ≡ es = ground arith in
    subst (λ x. Each (Tied x) [] packs' × All (IsOf []) x) same'
      (subst (λ x. Each (Tied []) [] x) same tt, tt)
spend_line-Tied o drawn (cp ∷ packs) l left packs' es left' keyed h =
    elim (Bool-cases (left ==ℤ pos 0)) [
      | inl z ↦
          let same : cp ∷ packs ≡ packs' = ground (arith, z, h) in
          let same' : [] ≡ es = ground (arith, z, h) in
          subst (λ x. Each (Tied x) (cp ∷ packs) packs' × All (IsOf (cp ∷ packs)) x) same'
            (subst (λ x. Each (Tied []) (cp ∷ packs) x) same (Tied-none (cp ∷ packs)), tt)
      | inr more ↦
          let ((cp1, es1, left1), one, h1) =
            >>=-eq-ok (spend_one o drawn cp l left) _ (rw (spend_line, more) at h) in
          let ((packs2, es2, left2), others, h2) =
            >>=-eq-ok (spend_line o (drawn + length es1) packs l left1) _ h1 in
          let (changed, own) = spend_one-OfOne o drawn cp l left cp1 es1 left1 one in
          let (tied, of_rest) =
            spend_line-Tied o (drawn + length es1) packs l left1 packs2 es2 left2
              (tail-Keyed cp packs keyed) others in
          let once = head_once cp packs keyed in
          let own_part =
            keep-append (λ x. x.customer_package_id == cp.pkg.id) es1 es2
            ∙ (ap (λ x. x ++ of_package cp.pkg.id es2) (of_package_own cp.pkg.id es1 own)
                ∙ (ap (λ x. es1 ++ x) (of_package_absent cp.pkg.id packs es2 once of_rest)
                    ∙ append-nil es1)) in
          let result : Each (Tied (es1 ++ es2)) (cp ∷ packs) (cp1 ∷ packs2) = (
            (
              ap (λ x. x.pkg) changed,
              ap (λ x. x.entries) changed ∙ ap (λ x. cp.entries ++ x) (sym own_part),
            ),
            Tied-skip cp.pkg.id es1 es2 packs packs2 own once tied,
          ) in
          let same : cp1 ∷ packs2 ≡ packs' = ground (arith, h2) in
          let same' : es1 ++ es2 ≡ es = ground (arith, h2) in
          subst (λ x. Each (Tied x) (cp ∷ packs) packs' × All (IsOf (cp ∷ packs)) x) same'
            (
              subst (λ x. Each (Tied (es1 ++ es2)) (cp ∷ packs) x) same result,
              All-append (IsOf (cp ∷ packs)) es1 es2 (IsOf-head cp packs es1 own)
                  (IsOf-weaken cp packs es2 of_rest),
            )
    ]

-- The packages keep their identifiers.
Tied-tally :
    (id : ℕ) (es : List Entry) (packs packs' : List CreditPackage)
    → Each (Tied es) packs packs'
    → tally (λ cp. cp.pkg.id == id) packs' ≡ tally (λ cp. cp.pkg.id == id) packs
Tied-tally id es [] [] h = refl
Tied-tally id es [] (cp' ∷ packs') h = elim h [ ]
Tied-tally id es (cp ∷ packs) [] h = elim h [ ]
Tied-tally id es (cp ∷ packs) (cp' ∷ packs') ((p, e), h) =
    ground (arith, ap (λ (x : Package). x.id) p, Tied-tally id es packs packs' h)

Tied-trans :
    (es more : List Entry) (packs packs1 packs2 : List CreditPackage)
    → Each (Tied es) packs packs1
    → Each (Tied more) packs1 packs2
    → Each (Tied (es ++ more)) packs packs2
Tied-trans es more [] [] [] h k = tt
Tied-trans es more [] [] (x ∷ xs) h k = elim k [ ]
Tied-trans es more [] (x ∷ xs) ys h k = elim h [ ]
Tied-trans es more (x ∷ xs) [] ys h k = elim h [ ]
Tied-trans es more (x ∷ xs) (y ∷ ys) [] h k = elim k [ ]
Tied-trans es more (x ∷ xs) (y ∷ ys) (z ∷ zs) ((p, e), h) ((q, f), k) =
    let part = ap (λ (i : Package). of_package i.id more) p in
    (
      (
        q ∙ p,
        f
            ∙ (ap (λ w. w ++ of_package y.pkg.id more) e
                ∙ (ap (λ w. (x.entries ++ of_package x.pkg.id es) ++ w) part
                    ∙ (append_assoc x.entries (of_package x.pkg.id es) (of_package x.pkg.id more)
                        ∙ ap (λ w. x.entries ++ w)
                            (sym (keep-append (λ w. w.customer_package_id == x.pkg.id) es more))))),
      ),
      Tied-trans es more xs ys zs h k,
    )

spend_lines-Tied :
    (o : Order) (drawn : ℕ) (packs : List CreditPackage) (lines : List CreditLine)
    (packs' : List CreditPackage) (es : List Entry)
    → Keyed packs
    → spend_lines o drawn packs lines ≡ ok (packs', es)
    → Each (Tied es) packs packs' × All (IsOf packs) es
unfolding spend_lines
spend_lines-Tied o drawn packs [] packs' es keyed h =
    let same : packs ≡ packs' = ground arith in
    let same' : [] ≡ es = ground arith in
    subst (λ x. Each (Tied x) packs packs' × All (IsOf packs) x) same'
      (subst (λ x. Each (Tied []) packs x) same (Tied-none packs), tt)
spend_lines-Tied o drawn packs (l ∷ lines) packs' es keyed h =
    let ((packs1, es1, left), line, h1) = >>=-eq-ok (spend_line o drawn packs l l.qty) _ h in
    let (_, h2) = refuse-eq-ok (pos 0 <ℤ left) (no_credits left l.service_date) h1 in
    let ((packs2, es2), others, h3) =
      >>=-eq-ok (spend_lines o (drawn + length es1) packs1 lines) _ h2 in
    let (tied, of_line) = spend_line-Tied o drawn packs l l.qty packs1 es1 left keyed line in
    let same_tally = λ (id : ℕ). Tied-tally id es1 packs packs1 tied in
    let (tied', of_lines) =
      spend_lines-Tied o (drawn + length es1) packs1 lines packs2 es2
        (λ id. omega (arith, same_tally id, keyed id)) others in
    let back =
      All-map (λ (e : Entry) k. omega (arith, same_tally e.customer_package_id, k)) es2 of_lines in
    let same : packs2 ≡ packs' = ground (arith, h3) in
    let same' : es1 ++ es2 ≡ es = ground (arith, h3) in
    subst (λ x. Each (Tied x) packs packs' × All (IsOf packs) x) same'
      (
        subst (λ x. Each (Tied (es1 ++ es2)) packs x) same
            (Tied-trans es1 es2 packs packs1 packs2 tied tied'),
        All-append (IsOf packs) es1 es2 of_line back,
      )

-- A basket that is paid gives each package the redeemed entries with its identifier, and no entry is
-- of another package.
pub spend_credits-Tied :
    (arrange : List CreditLine → List CreditLine) (o : Order) (packs : List CreditPackage)
    (lines : List CreditLine) (packs' : List CreditPackage) (es : List Entry)
    → Keyed packs
    → spend_credits arrange o packs lines ≡ ok (packs', es)
    → Each (Tied es) packs packs' × All (IsOf packs) es
unfolding spend_credits
spend_credits-Tied arrange o packs lines packs' es keyed h =
    spend_lines-Tied o 0 packs (arrange lines) packs' es keyed h
