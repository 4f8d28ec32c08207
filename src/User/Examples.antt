-- ===== src/User/Examples.antt =====
-- user-service/src/auth/rate-limiter.ts: a limit of two attempts in ten milliseconds.
mod SignIns
use foc_app.Common.{◌≤◌, ◌≡◌, ◌↔◌, ◌⊎◌, true, false, List, [], ◌∷◌, refl, arith}
use foc_app.User.Limiter.{Entry, granted, auth_rate_limits, hit}
use foc_app.User.Limiter.Live.{HitEffect, hit-HitEffect}
use foc_app.User.Limiter.Windows.{Hit, allowed_in, window_limit}
use foc_app.User.Limiter.Policy.{IsTight, limits_granted}

-- An expired window of key 7, and key 8 in its window.
abbrev entries : List Entry
entries =
    record { key = 7; window = record { count = 9; resets_at = 100 } }
    ∷ record { key = 8; window = record { count = 1; resets_at = 109 } }
    ∷ []

abbrev later_hits : List Hit
later_hits =
    record { at_ = 101; by_key = 7 }
    ∷ record { at_ = 102; by_key = 8 }
    ∷ record { at_ = 109; by_key = 7 }
    ∷ []

two_allowed : allowed_in 2 10 7 (record { at_ = 100; by_key = 7 } ∷ later_hits) entries ≡ 2
unfolding hit
two_allowed = refl

window_limit_example : allowed_in 2 10 7 (record { at_ = 100; by_key = 7 } ∷ later_hits) entries ≤ 2
window_limit_example =
    window_limit 2 10 7 100 later_hits entries (refl, (refl, tt)) (ground arith) refl (ground arith)

hit-HitEffect_example : HitEffect 2 10 100 7 entries (hit 2 10 100 7 entries)
hit-HitEffect_example = hit-HitEffect 2 10 100 7 entries (refl, (refl, tt))
