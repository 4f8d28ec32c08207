-- ===== src/User/Limiter/Policy.antt =====
-- user-service/src/auth/rate-limiter.ts: production may only tighten the limits.
use foc_app.Common.{◌≤◌, ◌≡◌, ◌↔◌, ◌⊎◌, Bool, true, false, arith, refl, inl, inr}
use foc_app.User.Limiter.{AuthRateLimits, granted, default_auth_limits, auth_rate_limits}

-- Every limit is at most the policy.
abbrev pub IsTight : AuthRateLimits → Type 0
IsTight c =
    (c.login_per_ip ≤ default_auth_limits.login_per_ip)
    × ((c.login_per_email ≤ default_auth_limits.login_per_email)
        × (c.register_per_ip ≤ default_auth_limits.register_per_ip))

-- The configured limits are granted exactly off production, and in production when none is above the
-- policy.
pub limits_granted :
    (c : AuthRateLimits) (production : Bool)
    → (auth_rate_limits c production ≡ granted c) ↔ ((production ≡ false) ⊎ IsTight c)
unfolding auth_rate_limits
limits_granted c false = (λ h. inl refl, λ h. refl)
limits_granted c true =
    (λ h. inr (ground (arith, h)), λ h. elim h [ inl e ↦ cc | inr tight ↦ ground (arith, tight) ])
