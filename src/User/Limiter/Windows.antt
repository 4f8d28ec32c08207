-- ===== src/User/Limiter/Windows.antt =====
-- user-service/src/auth/rate-limiter.ts: how many attempts of a key one window allows.
use foc_app.Common.{
  ℕ, ◌+◌, ◌-◌, ◌≤◌, ◌<◌, ◌≡◌, none, some, List, [], ◌∷◌, ◌==◌, if◌then◌else◌, ◌&&◌, ◌∙◌, arith,
  Bool-cases, inl, inr,
}
use foc_app.User.Limiter.{Window, Entry, get, counted, attempt, hit}
use foc_app.User.Limiter.Live.{IsMap, unexpired, hit-HitEffect}

-- One attempt of a sequence.
pub record Hit : Type 0 where
  pub at_ : ℕ
  pub by_key : ℕ

-- The attempts of `key` that are allowed, in a sequence of attempts by any keys.
abbrev pub allowed_in : (limit window_ms key : ℕ) → List Hit → List Entry → ℕ
allowed_in limit window_ms key [] ws = 0
allowed_in limit window_ms key (h ∷ hs) ws =
    (if (h.by_key == key) && (hit limit window_ms h.at_ h.by_key ws).0.allowed then 1 else 0)
    + allowed_in limit window_ms key hs (hit limit window_ms h.at_ h.by_key ws).1

-- Attempts in the order of their times, from `start` to before `end`.
abbrev pub Within : (start end_ : ℕ) → List Hit → Type 0
Within start end_ [] = Unit {0}
Within start end_ (h ∷ hs) = ((start ≤ h.at_) × (h.at_ < end_)) × Within h.at_ end_ hs

allowed_in-open :
    (limit window_ms key now : ℕ) (w : Window) (hs : List Hit) (ws : List Entry)
    → IsMap ws
    → unexpired now (get key ws) ≡ some w
    → Within now w.resets_at hs
    → allowed_in limit window_ms key hs ws ≤ limit - w.count
allowed_in-open limit window_ms key now w [] ws valid counts times = ground arith
allowed_in-open limit window_ms key now w (h ∷ hs) ws valid counts times =
    let eff = hit-HitEffect limit window_ms h.at_ h.by_key ws valid in
    let still : unexpired h.at_ (get key ws) ≡ some w = ground (arith, counts, times.0.1) in
    elim (Bool-cases (h.by_key == key)) [
      | inl mine ↦
          let same : h.by_key ≡ key = ground (arith, mine) in
          let own : get key (hit limit window_ms h.at_ h.by_key ws).1 ≡ some (counted w) =
            ground (arith, same, eff.own, still, times.0.1) in
          let answer : (hit limit window_ms h.at_ h.by_key ws).0 ≡ attempt limit h.at_ (counted w) =
            ground (arith, same, eff.answer, still, times.0.1) in
          let rest : allowed_in limit window_ms key hs (hit limit window_ms h.at_ h.by_key ws).1
              ≤ limit - (w.count + 1) =
            allowed_in-open limit window_ms key h.at_ (counted w) hs
              (hit limit window_ms h.at_ h.by_key ws).1 eff.map_kept
              (ground (arith, own, times.0.1)) times.1 in
          ground (arith, rest, answer)
      | inr other ↦
          let rest : allowed_in limit window_ms key hs (hit limit window_ms h.at_ h.by_key ws).1
              ≤ limit - w.count =
            allowed_in-open limit window_ms key h.at_ w hs (hit limit window_ms h.at_ h.by_key ws).1
              eff.map_kept (eff.others key h.at_ (ground (arith, other)) (ground arith) ∙ still)
              times.1 in
          ground (arith, rest, other)
    ]

-- From an attempt that opens a window of a key to the window's end, at most `limit` attempts of the key
-- are allowed, whatever other keys do in between and whenever the map is pruned.
pub window_limit :
    (limit window_ms key now : ℕ) (hs : List Hit) (ws : List Entry)
    → IsMap ws
    → 0 < window_ms
    → unexpired now (get key ws) ≡ none
    → Within now (now + window_ms) hs
    → allowed_in limit window_ms key (record { at_ = now; by_key = key } ∷ hs) ws ≤ limit
window_limit limit window_ms key now hs ws valid positive closed times =
    let eff = hit-HitEffect limit window_ms now key ws valid in
    let w : Window = record { count = 1; resets_at = now + window_ms } in
    let own : get key (hit limit window_ms now key ws).1 ≡ some w =
      ground (arith, eff.own, closed) in
    let answer : (hit limit window_ms now key ws).0 ≡ attempt limit now w =
      ground (arith, eff.answer, closed) in
    let rest : allowed_in limit window_ms key hs (hit limit window_ms now key ws).1 ≤ limit - 1 =
      allowed_in-open limit window_ms key now w hs (hit limit window_ms now key ws).1 eff.map_kept
        (ground (arith, own, positive)) times in
    ground (arith, rest, answer)
