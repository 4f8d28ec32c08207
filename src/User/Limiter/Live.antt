-- ===== src/User/Limiter/Live.antt =====
-- user-service/src/auth/rate-limiter.ts: an expired window counts for nothing, kept or pruned.
use foc_app.Common.{
  ℕ, ◌+◌, ◌≤◌, ◌≡◌, false, Option, none, some, List, [], ◌∷◌, leb, ◌==◌, if◌then◌else◌, refl, arith,
}
use foc_app.User.Limiter.{
  Window, Entry, Attempt, get, set, prune, trimmed, current, counted, attempt, hit,
}

-- A `Map` holds a key once.
abbrev pub IsMap : List Entry → Type 0
IsMap [] = Unit {0}
IsMap (e ∷ es) = (get e.key es ≡ none) × IsMap es

-- The window of a key that still counts at a time.
abbrev pub unexpired : ℕ → Option Window → Option Window
unexpired now none = none
unexpired now (some w) = if leb w.resets_at now then none else some w

get-set :
    (j k : ℕ) (w : Window) (ws : List Entry)
    → get j (set k w ws) ≡ (if j == k then some w else get j ws)
get-set j k w [] = ground arith
get-set j k w (e ∷ es) = ground (arith, get-set j k w es)

set-IsMap : (k : ℕ) (w : Window) (ws : List Entry) → IsMap ws → IsMap (set k w ws)
set-IsMap k w [] h = ground arith
set-IsMap k w (e ∷ es) h = ground (arith, set-IsMap k w es, get-set e.key k w es)

get-prune :
    (now j : ℕ) (ws : List Entry) → IsMap ws → get j (prune now ws) ≡ unexpired now (get j ws)
get-prune now j [] h = refl
get-prune now j (e ∷ es) h = ground (arith, get-prune now j es, get-prune now e.key es)

prune-IsMap : (now : ℕ) (ws : List Entry) → IsMap ws → IsMap (prune now ws)
prune-IsMap now [] h = tt
prune-IsMap now (e ∷ es) h = ground (arith, prune-IsMap now es, get-prune now e.key es)

trimmed-IsMap : (now : ℕ) (ws : List Entry) → IsMap ws → IsMap (trimmed now ws)
trimmed-IsMap now ws h = ground (arith, prune-IsMap now ws h)

-- The windows that count, now or later, are not trimmed.
get-trimmed :
    (now later j : ℕ) (ws : List Entry)
    → IsMap ws
    → now ≤ later
    → unexpired later (get j (trimmed now ws)) ≡ unexpired later (get j ws)
get-trimmed now later j ws h le = ground (arith, get-prune now j ws h)

-- The window of a key after an attempt: its own while it lasts, with one more, or a new one with one.
abbrev pub one_more : (window_ms now : ℕ) → Option Window → Window
one_more window_ms now none = record { count = 1; resets_at = now + window_ms }
one_more window_ms now (some w) = record { count = w.count + 1; resets_at = w.resets_at }

-- What one attempt does, told by the windows that count: `key` counts one more in its window or in a
-- new one, and is allowed up to the limit, and no other key notices, pruned or not.
pub record HitEffect (limit window_ms now key : ℕ) (ws : List Entry) (out : Attempt × List Entry)
    : Type 0 where
  pub allowed :
      out.0.allowed ≡ leb (one_more window_ms now (unexpired now (get key ws))).count limit
  pub answer : out.0 ≡ attempt limit now (one_more window_ms now (unexpired now (get key ws)))
  pub own : get key out.1 ≡ some (one_more window_ms now (unexpired now (get key ws)))
  pub others :
      (j later : ℕ)
      → (j == key) ≡ false
      → now ≤ later
      → unexpired later (get j out.1) ≡ unexpired later (get j ws)
  pub map_kept : IsMap out.1

current-unexpired :
    (window_ms now : ℕ) (o : Option Window)
    → current window_ms now o ≡ current window_ms now (unexpired now o)
current-unexpired window_ms now none = refl
current-unexpired window_ms now (some w) = ground arith

counted-current :
    (window_ms now : ℕ) (o : Option Window)
    → counted (current window_ms now (unexpired now o)) ≡ one_more window_ms now (unexpired now o)
counted-current window_ms now none = refl
counted-current window_ms now (some w) = ground arith

module _ (limit window_ms now key : ℕ) (ws : List Entry) (valid : IsMap ws) where
  current-trimmed :
      current window_ms now (get key (trimmed now ws))
      ≡ current window_ms now (unexpired now (get key ws))
  current-trimmed = ground (
    arith,
    current-unexpired window_ms now (get key (trimmed now ws)),
    get-trimmed now now key ws valid,
  )

  -- The effect of an attempt depends on the windows that count, and on nothing else: pruning a full map
  -- is not observable.
  pub hit-HitEffect : HitEffect limit window_ms now key ws (hit limit window_ms now key ws)
  unfolding hit
  hit-HitEffect = record {
    allowed = rw (current-trimmed, ← counted-current window_ms now (get key ws)) refl;
    answer = rw (current-trimmed, ← counted-current window_ms now (get key ws)) refl;
    own = ground (
      arith,
      current-trimmed,
      counted-current window_ms now (get key ws),
      get-set key key (counted (current window_ms now (get key (trimmed now ws)))) (trimmed now ws),
    );
    others = λ j later distinct le. ground (
      arith,
      distinct,
      get-trimmed now later j ws valid le,
      get-set j key (counted (current window_ms now (get key (trimmed now ws)))) (trimmed now ws),
    );
    map_kept = set-IsMap key _ (trimmed now ws) (trimmed-IsMap now ws valid);
  }
