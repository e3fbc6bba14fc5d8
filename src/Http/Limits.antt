-- ===== src/Http/Limits.antt =====
-- internal/adapter/http/ratelimit.go: a fixed window per client and bucket. A time is a number of
-- nanoseconds.
pub mod Windows
pub mod Bounds
use Prim.Native.String.{String}
use evermore.Base.{
  ℕ, suc, ◌+◌, ◌-◌, ◌*◌, ◌/◌, Bool, true, false, not, ltb, leb, List, [], ◌∷◌, ◌++◌, Option, none,
  some, if◌then◌else◌, length, keep,
}
use evermore.Text.{text_eq}

pub record Limit : Type 0 where
  pub name : String
  pub burst : ℕ
  pub window : ℕ

abbrev pub rl_login : Limit
rl_login = record { name = "login"; burst = 10; window = 60 * 1000000000 }

abbrev pub rl_register : Limit
rl_register = record { name = "register"; burst = 5; window = 3600 * 1000000000 }

abbrev pub rl_refresh : Limit
rl_refresh = record { name = "refresh"; burst = 60; window = 60 * 1000000000 }

abbrev pub rl_write : Limit
rl_write = record { name = "write"; burst = 120; window = 60 * 1000000000 }

pub record Window : Type 0 where
  pub count : ℕ
  pub reset : ℕ

-- The map of a limiter.
pub record Entry : Type 0 where
  pub key : String
  pub window : Window

abbrev pub Limiter : Type 0
Limiter = List Entry

unfoldable pub find : String → Limiter → Option Window
find k [] = none
find k (e ∷ es) = if text_eq e.key k then some e.window else find k es

-- `windows[key] = w`
unfoldable pub put : String → Window → Limiter → Limiter
put k w [] = record { key = k; window = w } ∷ []
put k w (e ∷ es) = if text_eq e.key k then record { key = k; window = w } ∷ es else e ∷ put k w es

-- `now.After(w.reset)`
abbrev pub expired : ℕ → Window → Bool
expired now w = ltb w.reset now

-- The window of a request: the one that stands, or a new one.
abbrev pub current : Limit → ℕ → Option Window → Window
current lim now none = record { count = 0; reset = now + lim.window }
current lim now (some w) =
    if expired now w then record { count = 0; reset = now + lim.window } else w

unfoldable pub sweep : ℕ → Limiter → Limiter
sweep now ws = if ltb 10000 (length ws) then keep (λ e. not (expired now e.window)) ws else ws

-- `w.count++` on the window that the map points to, when the sweep has not dropped it.
abbrev bump : Option Window → String → Window → Limiter → Limiter
bump none k w ws = ws
bump (some _) k w ws = put k (record w { count = w.count + 1 }) ws

-- The answer, and the limiter after it.
unfoldable pub allow : String → Limit → ℕ → Limiter → Bool × Limiter
allow k lim now ws =
    let w = current lim now (find k ws) in
    let swept = sweep now (put k w ws) in
    (not (ltb lim.burst (w.count + 1)), bump (find k swept) k w swept)
