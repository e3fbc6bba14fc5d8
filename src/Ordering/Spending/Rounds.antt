-- ===== src/Ordering/Spending/Rounds.antt =====
-- The rounds for one line of a basket.
use mathlib.Core.List.{append-nil}
use evermore.Base.{
  ℕ, zero, suc, ◌+◌, ◌-◌, ◌≤◌, ◌<◌, ltb, ◌≡◌, refl, inl, inr, ap, arith, false, List, [], ◌∷◌, ◌++◌,
  map, if◌then◌else◌, ok, length, length-append, sum_by, All, All-append, Bool-cases,
}
use evermore.Int64.{ℤ, pos, negsuc, half, ◌==ℤ◌}
use evermore.Int64.Laws.{ -ℤ-pos}
use evermore.Credit.{Entry, active, redeemed, balance}
use evermore.Credit.Redemption.{redeem_total}
use evermore.Ordering.Spending.{
  CreditPackage, CreditLine, Order, request_of, unusable, pay, spend_one, spend_line,
}

abbrev pub up : ℤ → ℕ
up (pos n) = n
up (negsuc n) = 0

-- The credits that a package has left to spend.
abbrev pub available : CreditPackage → ℕ
available cp = up (balance cp.entries)

-- What a round takes from a package when n credits are still needed.
abbrev pub takes : CreditPackage → CreditLine → ℕ → ℕ
takes cp l n = if unusable cp l then 0 else if ltb (available cp) n then available cp else n

abbrev pub IsRedeemed : Entry → Type 0
IsRedeemed e = (e.entry_type ≡ redeemed) × (e.qty ≡ negsuc 0)

usable_of :
    (cp : CreditPackage) (l : CreditLine) (a : ℤ)
    → balance cp.entries ≡ a
    → unusable cp l ≡ false
    → (b : ℕ) × (balance cp.entries ≡ pos (suc b)) × (l.service_date ≤ cp.pkg.expires_at)
unfolding unusable
usable_of cp l (pos zero) e h = absurd (ground arith)
usable_of cp l (pos (suc b)) e h = (b, e, ground arith)
usable_of cp l (negsuc b) e h = absurd (ground arith)

redeemed_only :
    (id : ℕ) (es : List Entry)
    → All (λ e. (e.entry_type ≡ redeemed) × (e.qty ≡ negsuc 0) × (e.customer_package_id ≡ id)) es
    → All IsRedeemed es
redeemed_only id [] all = tt
redeemed_only id (e ∷ es) ((t, q, _), all) = ((t, q), redeemed_only id es all)

-- A payment of t credits that the package holds.
pay_ok :
    (o : Order) (drawn : ℕ) (cp : CreditPackage) (l : CreditLine) (n t b : ℕ)
    → cp.pkg.status ≡ active
    → l.service_date ≤ cp.pkg.expires_at
    → balance cp.entries ≡ pos b
    → 1 ≤ t
    → t ≤ b
    → t ≤ n
    → n < half
    → (es : List Entry) × (pay o drawn cp l (pos n) (pos t)
        ≡ ok (record cp { entries = cp.entries ++ es }, es, pos (n - t)))
      × (balance (cp.entries ++ es) ≡ pos (b - t))
      × (length es ≡ t)
      × All IsRedeemed es
unfolding pay
pay_ok o drawn cp l n zero b act date eb h k j small = absurd (omega arith)
pay_ok o drawn cp l n (suc m) b act date eb h k j small =
    let (es, done, left, len, all) =
      redeem_total (λ i. o.new_id (drawn + i)) (request_of o cp l (pos (suc m))) m b refl act date
        eb k in
    (es, rw (done, -ℤ-pos n (suc m) j small), left, len, redeemed_only cp.pkg.id es all)

-- One round, with n credits still needed and the package active: it takes from the package what it
-- can give, and no more than is needed.
spend_one_ok :
    (o : Order) (drawn : ℕ) (cp : CreditPackage) (l : CreditLine) (n : ℕ)
    → cp.pkg.status ≡ active
    → 1 ≤ n
    → n < half
    → (es : List Entry) × (spend_one o drawn cp l (pos n)
        ≡ ok (record cp { entries = cp.entries ++ es }, es, pos (n - takes cp l n)))
      × (up (balance (cp.entries ++ es)) + takes cp l n ≡ available cp)
      × (takes cp l n ≤ n)
      × (length es ≡ takes cp l n)
      × All IsRedeemed es
unfolding spend_one
spend_one_ok o drawn cp l n act some_left small = elim (Bool-cases (unusable cp l)) [
  | inl u ↦ (
    [],
    rw append-nil (ground arith),
    rw append-nil (ground arith),
    ground arith,
    ground arith,
    tt,
  )
  | inr u ↦
      let (b, eb, date) = usable_of cp l _ refl u in
      let t : ℕ = if ltb (suc b) n then suc b else n in
      let t_low : 1 ≤ t = ground arith in
      let t_high : t ≤ suc b = ground arith in
      let t_fits : t ≤ n = ground arith in
      let (es, done, left, len, all) =
        pay_ok o drawn cp l n t (suc b) act date eb t_low t_high t_fits small in
      let same : takes cp l n ≡ t = ground arith in
      (es, rw u (ground arith), ground arith, ground arith, ground arith, all)
]

abbrev pub AllActive : List CreditPackage → Type 0
AllActive = All (λ cp. cp.pkg.status ≡ active)

-- The credits that all packages have left to spend.
abbrev pub funds : List CreditPackage → ℕ
funds = sum_by available

-- What the rounds for one line leave, of n credits needed.
pub record LinePaid (o : Order) (drawn : ℕ) (packs : List CreditPackage) (l : CreditLine) (n : ℕ)
    : Type 0 where
  pub after : List CreditPackage
  pub entries : List Entry
  pub left : ℕ
  pub result : spend_line o drawn packs l (pos n) ≡ ok (after, entries, pos left)
  pub left-le : left ≤ n
  pub moved : funds after + n ≡ funds packs + left
  pub counted : length entries + left ≡ n
  pub all_redeemed : All IsRedeemed entries
  pub still_active : AllActive after
  pub same_packages : map (λ cp. cp.pkg) after ≡ map (λ cp. cp.pkg) packs

pub spend_line_ok :
    (o : Order) (drawn : ℕ) (packs : List CreditPackage) (l : CreditLine) (n : ℕ)
    → AllActive packs
    → n < half
    → LinePaid o drawn packs l n
unfolding spend_line
spend_line_ok o drawn [] l n a small = record {
  after = [];
  entries = [];
  left = n;
  result = refl;
  left-le = omega arith;
  moved = omega arith;
  counted = omega arith;
  all_redeemed = tt;
  still_active = tt;
  same_packages = refl;
}
spend_line_ok o drawn (cp ∷ packs) l zero a small = record {
  after = cp ∷ packs;
  entries = [];
  left = 0;
  result = refl;
  left-le = omega arith;
  moved = omega arith;
  counted = omega arith;
  all_redeemed = tt;
  still_active = a;
  same_packages = refl;
}
spend_line_ok o drawn (cp ∷ packs) l (suc n) (act, a) small =
    let (es, done, taken, fits, len, red) =
      spend_one_ok o drawn cp l (suc n) act (omega arith) small in
    let rest =
      spend_line_ok o (drawn + length es) packs l (suc n - takes cp l (suc n)) a (omega arith) in
    let more : (pos (suc n) ==ℤ pos 0) ≡ false = ground arith in
    record {
      after = record cp { entries = cp.entries ++ es } ∷ rest.after;
      entries = es ++ rest.entries;
      left = rest.left;
      result = ground (arith, done, rest.result);
      left-le = omega (arith, rest.left-le);
      moved = omega (arith, taken, fits, rest.moved);
      counted = omega (arith, length-append es rest.entries, len, fits, rest.counted);
      all_redeemed = All-append IsRedeemed es rest.entries red rest.all_redeemed;
      still_active = (act, rest.still_active);
      same_packages = ap (◌∷◌ cp.pkg) rest.same_packages;
    }
