-- ===== src/User/Limiter.antt =====
-- user-service/src/auth/rate-limiter.ts: `RateLimiter`, a fixed-window counter per key, and
-- `authRateLimits`. The map is a list of entries with distinct keys; times are in milliseconds.
use foc_app.Common.{
  ℕ, ◌+◌, ◌-◌, ◌*◌, ◌/◌, ◌||◌, ◌&&◌, Bool, true, false, not, Option, none, some, List, [], ◌∷◌,
  length, leb, ltb, ◌==◌, if◌then◌else◌,
}
pub mod Live
pub mod Windows
pub mod Policy

pub record Window : Type 0 where
  pub count : ℕ
  pub resets_at : ℕ

pub record Entry : Type 0 where
  pub key : ℕ
  pub window : Window

-- `Map.get`
abbrev pub get : ℕ → List Entry → Option Window
get k [] = none
get k (e ∷ es) = if e.key == k then some e.window else get k es

-- `Map.set`
abbrev pub set : ℕ → Window → List Entry → List Entry
set k w [] = record { key = k; window = w } ∷ []
set k w (e ∷ es) = if e.key == k then record { key = k; window = w } ∷ es else e ∷ set k w es

-- `prune`
abbrev pub prune : ℕ → List Entry → List Entry
prune now [] = []
prune now (e ∷ es) =
    let rest = prune now es in if leb e.window.resets_at now then rest else e ∷ rest

pub record Attempt : Type 0 where
  pub allowed : Bool
  pub retry_after_seconds : ℕ

abbrev max : ℕ → ℕ → ℕ
max a b = if leb a b then b else a

-- `Math.ceil(n / 1000)`
abbrev ceil_seconds : ℕ → ℕ
ceil_seconds n = (n + 999) / 1000

-- The window that an attempt counts in: the key's own while it lasts, or a new one.
abbrev pub current : (window_ms now : ℕ) → Option Window → Window
current window_ms now none = record { count = 0; resets_at = now + window_ms }
current window_ms now (some w) =
    if leb w.resets_at now then record { count = 0; resets_at = now + window_ms } else w

abbrev pub counted : Window → Window
counted w = record w { count = w.count + 1 }

abbrev pub attempt : (limit now : ℕ) → Window → Attempt
attempt limit now w = record {
  allowed = leb w.count limit;
  retry_after_seconds = max 1 (ceil_seconds (w.resets_at - now));
}

-- The windows once a full map is pruned.
abbrev pub trimmed : ℕ → List Entry → List Entry
trimmed now ws = if ltb 10000 (length ws) then prune now ws else ws

-- `hit`
unfoldable pub hit : (limit window_ms now key : ℕ) → List Entry → Attempt × List Entry
hit limit window_ms now key ws =
    let rest = trimmed now ws in
    let w = counted (current window_ms now (get key rest)) in (attempt limit now w, set key w rest)

-- `AuthRateLimits`
pub record AuthRateLimits : Type 0 where
  pub login_per_ip : ℕ
  pub login_per_email : ℕ
  pub register_per_ip : ℕ

-- `DEFAULT_AUTH_LIMITS`
abbrev pub default_auth_limits : AuthRateLimits
default_auth_limits = record { login_per_ip = 50; login_per_email = 10; register_per_ip = 20 }

-- `VARIABLES`, with the value and the policy of each that the message names.
pub data Raised : Type 0 where
  login_limit_per_ip login_limit_per_email register_limit_per_ip : (configured at_most : ℕ) → Raised

pub data Limits : Type 0 where
  granted : AuthRateLimits → Limits
  above_policy : List Raised → Limits

abbrev raised_one : (ℕ → ℕ → Raised) → (configured at_most : ℕ) → List Raised → List Raised
raised_one name n most rest = if ltb most n then name n most ∷ rest else rest

-- The limits above the policy.
abbrev pub raised : AuthRateLimits → List Raised
raised c = raised_one login_limit_per_ip c.login_per_ip default_auth_limits.login_per_ip (
    raised_one login_limit_per_email c.login_per_email default_auth_limits.login_per_email
      (raised_one register_limit_per_ip c.register_per_ip default_auth_limits.register_per_ip []))

abbrev unless_raised : AuthRateLimits → List Raised → Limits
unless_raised c [] = granted c
unless_raised c (r ∷ rs) = above_policy (r ∷ rs)

-- `authRateLimits`
unfoldable pub auth_rate_limits : AuthRateLimits → (production : Bool) → Limits
auth_rate_limits c production = if not production then granted c else unless_raised c (raised c)
