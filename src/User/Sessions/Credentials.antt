-- ===== src/User/Sessions/Credentials.antt =====
-- user-service/src/auth/sessions.service.ts: `verifyCredentials`, and what `changePassword` does on each
-- of its branches.
use foc_app.Common.{
  ℕ, ◌&&◌, Bool, true, false, Option, some, ◌==◌, any, ◌≡◌, ◌≢◌, inl, inr, refl, arith, Bool-cases,
}
use foc_app.User.Accounts.{
  active, Db, has_hash, has_password, with_password, find_credentials, replace_password,
}
use foc_app.User.Sessions.Service.{
  Crypto, Reply, raised, returned, Refusal, invalid_credentials, password_unchanged,
  unchanged_bootstrap, Verified, verify_credentials,
}
use foc_app.User.Sessions.Passwords.{change_password, change_verified, change_replaced}
use foc_app.User.Sessions.Secrets.{
  UsersValid, PasswordSet, revoked_all, other_owners, no_unused, other_accounts, replaced_password,
  update_none,
}

-- What `verifyCredentials` proves of the account that it returns.
pub record Proven (c : Crypto) (raw_email password : ℕ) (seen : Db) (v : Verified) : Type 0 where
  pub found : find_credentials (c.email_key raw_email) seen ≡ some v.user
  pub has_password : v.user.password_hash ≡ some v.password_hash
  pub verified : c.verify_password v.password_hash password ≡ true
  pub is_open : v.user.status ≡ active

pub verify_credentials-Proven :
    (c : Crypto) (raw_email password : ℕ) (seen : Db) (v : Verified)
    → verify_credentials c raw_email password seen ≡ returned v
    → Proven c raw_email password seen v
verify_credentials-Proven c raw_email password seen v e = record {
  found = ground arith;
  has_password = ground arith;
  verified = ground arith;
  is_open = ground arith;
}

-- The branches of `changePassword`.
pub data PasswordChange (c : Crypto) (salt : ℕ) (bootstrap : Option ℕ) (raw_email current next : ℕ)
    (seen db : Db) : Reply (Unit {0}) × Db → Type 0 where
  unproven :
      (e : Refusal)
      → verify_credentials c raw_email current seen ≡ raised e
      → PasswordChange c salt bootstrap raw_email current next seen db (raised e, db)
  repeated :
      next ≡ current
      → PasswordChange c salt bootstrap raw_email current next seen db
          (raised password_unchanged, db)
  bootstrap_again :
      bootstrap ≡ some next
      → PasswordChange c salt bootstrap raw_email current next seen db
          (raised unchanged_bootstrap, db)
  overtaken :
      (v : Verified)
      → Proven c raw_email current seen v
      → any (has_password v.user.id v.password_hash) db.users ≡ false
      → PasswordChange c salt bootstrap raw_email current next seen db
          (raised invalid_credentials, db)
  changed :
      (v : Verified)
      → Proven c raw_email current seen v
      → next ≢ current
      → any (has_password v.user.id v.password_hash) db.users ≡ true
      → (db' : Db) → PasswordSet v.user.id (c.hash_password salt next) db db'
      → PasswordChange c salt bootstrap raw_email current next seen db (returned tt, db')

same_secret : (h : ℕ) (o : Option ℕ) → has_hash h o ≡ true → o ≡ some h
same_secret h o e = ground arith

module _ (c : Crypto) (now salt : ℕ) (bootstrap : Option ℕ) (raw_email current next : ℕ)
    (seen db : Db) where
  abbrev Reached : Reply (Unit {0}) × Db → Type 0
  Reached = PasswordChange c salt bootstrap raw_email current next seen db

  replaced-outcome :
      (v : Verified)
      → UsersValid db
      → Proven c raw_email current seen v
      → next ≢ current
      → (b : Bool) → any (has_password v.user.id v.password_hash) db.users ≡ b
      → Reached (
          change_replaced now v.user.id db
            (b, (replace_password v.user.id v.password_hash (c.hash_password salt next) db).1))
  replaced-outcome v us proven differs true t = changed v proven differs t _ (record {
    password =
        replaced_password v.user.id v.password_hash (c.hash_password salt next) db.users us t;
    sessions_ended = revoked_all now v.user.id db.sessions;
    links_used = no_unused v.user.id db.password_reset_tokens;
    other_users =
        other_accounts v.user.id (has_password v.user.id v.password_hash)
          (with_password (c.hash_password salt next)) (λ u e. ground arith) db.users;
    other_sessions = other_owners now v.user.id db.sessions;
  })
  replaced-outcome v us proven differs false f =
      rw
        (update_none (has_password v.user.id v.password_hash)
          (with_password (c.hash_password salt next)) db.users f)
        (overtaken v proven f)

  verified-outcome :
      (w : Reply Verified)
      → UsersValid db
      → verify_credentials c raw_email current seen ≡ w
      → Reached (change_verified c now salt bootstrap current next w db)
  verified-outcome (raised e) us k = unproven e k
  verified-outcome (returned v) us k = elim (Bool-cases (next == current)) [
    | inl t ↦ rw t (repeated (ground arith))
    | inr f ↦ elim (Bool-cases (v.user.is_seeded_admin && has_hash next bootstrap)) [
      | inl t ↦ rw (f, t) (bootstrap_again (same_secret next bootstrap (ground arith)))
      | inr g ↦
          rw (f, g)
            (replaced-outcome v us (verify_credentials-Proven c raw_email current seen v k)
              (λ e. ground arith) _ refl)
    ]
  ]

  -- A password is changed only for an active account whose current password was proved and is still
  -- stored, and only to another one; then the account has the new password, all its sessions
  -- are revoked, its unused reset links are gone, and no other account has changed. Every refusal
  -- leaves the tables as they were.
  pub change_password-PasswordChange :
      UsersValid db
      → PasswordChange c salt bootstrap raw_email current next seen db
          (change_password c now salt bootstrap raw_email current next seen db)
  unfolding change_password
  change_password-PasswordChange us =
      verified-outcome (verify_credentials c raw_email current seen) us refl
