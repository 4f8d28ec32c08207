-- ===== src/User/Sessions/Resets.antt =====
-- user-service/src/auth/sessions.service.ts: what `confirmPasswordReset` does on each of its branches.
use foc_app.Common.{
  ℕ, ◌&&◌, ◌||◌, true, Option, none, some, find, ◌≡◌, ◌≢◌, ◌⊎◌, inl, inr, refl, arith, Bool-cases,
}
use foc_app.User.Accounts.{
  AccountStatus, active, suspended, pending_activation, LinkToken, Db, has_hash, set_password,
  FoundLink, find_password_reset_token, lock_user_of_password_reset_token,
  consume_password_reset_token, is_live_link, owner_of,
}
use foc_app.User.Sessions.Service.{
  Crypto, Reply, raised, returned, Refusal, password_reset_token_invalid,
  password_reset_token_expired, unchanged_bootstrap, reset_token_refusal,
}
use foc_app.User.Sessions.Passwords.{
  confirm_password_reset, confirm_found, confirm_claimed, ProvenAccount,
  set_password_from_emailed_link,
}
use foc_app.User.Sessions.Secrets.{PasswordSet}
use foc_app.User.Sessions.EmailedLink.{
  activate_pending_links, emailed_link-PasswordSet, IsUsed, consumed_links,
}

-- The branches of `confirmPasswordReset`.
pub data PasswordReset (c : Crypto) (now salt : ℕ) (bootstrap : Option ℕ) (token password : ℕ)
    (seen db : Db) : Reply (Unit {0}) × Db → Type 0 where
  unusable :
      (found : Option FoundLink)
      → find_password_reset_token now (c.sha256 token) seen ≡ found
      → (found ≡ none) ⊎ ((t : FoundLink) × (found ≡ some t) × ((t.consumed || t.expired) ≡ true))
      → PasswordReset c now salt bootstrap token password seen db
          (raised (reset_token_refusal found), db)
  bootstrap_again :
      bootstrap ≡ some password
      → PasswordReset c now salt bootstrap token password seen db (raised unchanged_bootstrap, db)
  overtaken :
      (e : Refusal)
      → (lock_user_of_password_reset_token (c.sha256 token) db ≡ none)
        ⊎ (find (is_live_link now (c.sha256 token)) db.password_reset_tokens ≡ none)
      → (e ≡ password_reset_token_invalid) ⊎ (e ≡ password_reset_token_expired)
      → PasswordReset c now salt bootstrap token password seen db (raised e, db)
  account_suspended :
      lock_user_of_password_reset_token (c.sha256 token) db ≡ some suspended
      → PasswordReset c now salt bootstrap token password seen db
          (raised password_reset_token_invalid, db)
  set :
      (t : LinkToken)
      → find (is_live_link now (c.sha256 token)) db.password_reset_tokens ≡ some t
      → (status : AccountStatus)
      → lock_user_of_password_reset_token (c.sha256 token) db ≡ some status
      → status ≢ suspended
      → (db' : Db) → PasswordSet t.user_id (c.hash_password salt password) db db'
      → IsUsed now (c.sha256 token) db'
      → PasswordReset c now salt bootstrap token password seen db (returned tt, db')

same_secret : (h : ℕ) (o : Option ℕ) → has_hash h o ≡ true → o ≡ some h
same_secret h o e = ground arith

refusal_code :
    (found : Option FoundLink)
    → (reset_token_refusal found ≡ password_reset_token_invalid)
      ⊎ (reset_token_refusal found ≡ password_reset_token_expired)
refusal_code none = inl refl
refusal_code (some t) = elim (Bool-cases t.consumed) [
  | inl e ↦ rw e (inl refl)
  | inr e ↦ rw e (inr refl)
]

module _ (c : Crypto) (now salt : ℕ) (bootstrap : Option ℕ) (token password corr : ℕ)
    (seen db : Db) where
  abbrev Reached : Reply (Unit {0}) × Db → Type 0
  Reached = PasswordReset c now salt bootstrap token password seen db

  abbrev hash : ℕ
  hash = c.sha256 token

  abbrev claimed : Db
  claimed = (consume_password_reset_token now hash db).1

  abbrev account : ℕ → AccountStatus → ProvenAccount
  account user_id status = record {
    user_id = user_id;
    status = status;
    password_hash = c.hash_password salt password;
    correlation_id = corr;
  }

  used : (a : ProvenAccount) → IsUsed now hash (set_password_from_emailed_link now a claimed)
  used a = λ later le.
      rw (activate_pending_links now a (set_password a.user_id a.password_hash claimed))
        (consumed_links now later hash a.user_id db.password_reset_tokens le)

  set-outcome :
      (t : LinkToken) (status : AccountStatus)
      → find (is_live_link now hash) db.password_reset_tokens ≡ some t
      → lock_user_of_password_reset_token hash db ≡ some status
      → status ≢ suspended
      → Reached (returned tt, set_password_from_emailed_link now (account t.user_id status) claimed)
  set-outcome t status e k other =
      set t e status k other _
        (emailed_link-PasswordSet now (account t.user_id status) db claimed refl refl)
        (used (account t.user_id status))

  claimed-outcome :
      (status : Option AccountStatus) (found : Option LinkToken)
      → lock_user_of_password_reset_token hash db ≡ status
      → find (is_live_link now hash) db.password_reset_tokens ≡ found
      → Reached (
          confirm_claimed now hash
            (c.hash_password salt password)
            corr
            db
            status
            (owner_of found, claimed))
  claimed-outcome none found e k = overtaken _ (inl e) (refusal_code _)
  claimed-outcome (some active) none e k = overtaken _ (inr k) (refusal_code _)
  claimed-outcome (some suspended) none e k = overtaken _ (inr k) (refusal_code _)
  claimed-outcome (some pending_activation) none e k = overtaken _ (inr k) (refusal_code _)
  claimed-outcome (some suspended) (some t) e k = account_suspended e
  claimed-outcome (some active) (some t) e k = set-outcome t active k e cc
  claimed-outcome (some pending_activation) (some t) e k = set-outcome t pending_activation k e cc

  found-outcome :
      (found : Option FoundLink)
      → find_password_reset_token now hash seen ≡ found
      → Reached (confirm_found c now salt bootstrap hash password corr found db)
  found-outcome none e = unusable none e (inl refl)
  found-outcome (some t) e = elim (Bool-cases (t.consumed || t.expired)) [
    | inl k ↦ rw k (unusable (some t) e (inr (t, refl, k)))
    | inr f ↦ elim (Bool-cases (t.is_seeded_admin && has_hash password bootstrap)) [
      | inl k ↦ rw (f, k) (bootstrap_again (same_secret password bootstrap (ground arith)))
      | inr g ↦
          rw (f, g)
            (claimed-outcome (lock_user_of_password_reset_token hash db)
              (find (is_live_link now hash) db.password_reset_tokens) refl refl)
    ]
  ]

  -- A reset link sets the password only while it is live and its account is not suspended; then the
  -- account has the new password, all its sessions are revoked, no unused reset link of it is left,
  -- the link itself works no longer, and no other account has changed. Every refusal leaves the
  -- tables as they were.
  pub confirm_password_reset-PasswordReset :
      PasswordReset c now salt bootstrap token password seen db
        (confirm_password_reset c now salt bootstrap token password corr seen db)
  unfolding confirm_password_reset
  confirm_password_reset-PasswordReset = found-outcome _ refl
