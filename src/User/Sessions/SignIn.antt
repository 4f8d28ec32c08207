-- ===== src/User/Sessions/SignIn.antt =====
-- user-service/src/auth/sessions.service.ts: what `login` does on each of its branches, and after the
-- password it proved has been replaced.
use foc_app.Common.{
  ℕ, ◌+◌, ◌*◌, true, false, none, some, List, [], ◌∷◌, any, All, Memᴰ, ◌==◌, ◌||◌, ◌≡◌, ◌≢◌, inl,
  inr, refl, arith, Bool-cases,
}
use foc_app.User.Accounts.{active, UserRow, RefreshSession, Db}
use foc_app.User.Sessions.{is_loginable, NewSession, day}
use foc_app.User.Sessions.Service.{
  Crypto, Random, IssuedSession, Reply, raised, returned, Refusal, invalid_credentials,
  password_change_required, unique_violation, Verified, verify_credentials, login, login_verified,
  respond, session_user,
}
use foc_app.User.Sessions.Secrets.{PasswordSet}
use foc_app.User.Sessions.Credentials.{Proven}

-- The account still has the password that was verified, is active and is not flagged.
pub record Loginable (user_id verified_hash : ℕ) (u : UserRow) : Type 0 where
  pub same_user : u.id ≡ user_id
  pub same_password : u.password_hash ≡ some verified_hash
  pub is_open : u.status ≡ active
  pub unflagged : u.must_change_password ≡ false

-- The branches of `login`.
pub data SignIn (c : Crypto) (now : ℕ) (r : Random) (raw_email password : ℕ) (seen db : Db)
    : Reply IssuedSession × Db → Type 0 where
  unproven :
      (e : Refusal)
      → verify_credentials c raw_email password seen ≡ raised e
      → SignIn c now r raw_email password seen db (raised e, db)
  flagged :
      (v : Verified)
      → Proven c raw_email password seen v
      → v.user.must_change_password ≡ true
      → SignIn c now r raw_email password seen db (raised password_change_required, db)
  overtaken :
      (v : Verified)
      → Proven c raw_email password seen v
      → any (is_loginable v.user.id v.password_hash) db.users ≡ false
      → SignIn c now r raw_email password seen db (raised invalid_credentials, db)
  collided :
      (v : Verified)
      → Proven c raw_email password seen v
      → any
          (λ (s : RefreshSession). (s.id == r.id) || (s.token_hash == c.sha256 r.token))
          db.sessions
        ≡ true
      → SignIn c now r raw_email password seen db (raised unique_violation, db)
  signed_in :
      (v : Verified)
      → Proven c raw_email password seen v
      → (u : UserRow) → Memᴰ u db.users
      → Loginable v.user.id v.password_hash u
      → SignIn c now r raw_email password seen db (
        returned (respond c v.user.id r.id r.token (session_user v.user)),
        record db {
          sessions =
              record {
                id = r.id;
                family_id = r.family_id;
                user_id = v.user.id;
                token_hash = c.sha256 r.token;
                expires_at = now + 7 * day;
                rotated_at = none;
                revoked_at = none;
                stepped_up_at = none;
              }
              ∷ db.sessions;
        },
      )

module _ (c : Crypto) (now : ℕ) (r : Random) (raw_email password : ℕ) (seen db : Db) where
  abbrev new_session : ℕ → NewSession
  new_session user_id = record {
    id = r.id;
    family_id = r.family_id;
    user_id = user_id;
    token_hash = c.sha256 r.token;
    ttl_days = 7;
  }

none_loginable :
    (user_id old new : ℕ) (us : List UserRow)
    → old ≢ new
    → All
        (λ (u : UserRow).
          u.id ≡ user_id → (u.password_hash ≡ some new) × (u.must_change_password ≡ false))
        us
    → any (is_loginable user_id old) us ≡ false
none_loginable user_id old new [] differs h = refl
none_loginable user_id old new (u ∷ us) differs h =
    ground (arith, none_loginable user_id old new us)

overtaken_login :
    (c : Crypto) (now : ℕ) (r : Random) (db : Db) (v : Verified)
    → any (is_loginable v.user.id v.password_hash) db.users ≡ false
    → (e : Refusal) × (login_verified c now r (returned v) db ≡ (raised e, db))
overtaken_login c now r db v f = elim (Bool-cases v.user.must_change_password) [
  | inl t ↦ (password_change_required, rw t refl)
  | inr g ↦ (invalid_credentials, rw (g, f) refl)
]

-- Once the password of an account has been set, a sign-in that had proved another one before
-- starts no session and writes nothing.
pub stale_sign_in :
    (c : Crypto) (now : ℕ) (r : Random) (raw_email password : ℕ) (seen before db : Db)
    (v : Verified) (password_hash : ℕ)
    → PasswordSet v.user.id password_hash before db
    → verify_credentials c raw_email password seen ≡ returned v
    → v.password_hash ≢ password_hash
    → (e : Refusal) × (login c now r raw_email password seen db ≡ (raised e, db))
unfolding login
stale_sign_in c now r raw_email password seen before db v h set proved differs = rw proved (
    overtaken_login c now r db v
      (none_loginable v.user.id v.password_hash h db.users differs set.password))
