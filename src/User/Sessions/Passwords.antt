-- ===== src/User/Sessions/Passwords.antt =====
-- user-service/src/auth/sessions.service.ts and auth/emailed-link.ts: the methods of `SessionsService`
-- that set or prove a password, and `logout`.
use foc_app.Common.{ℕ, ◌&&◌, ◌||◌, Bool, true, false, Option, none, some, ◌∷◌, ◌==◌, if◌then◌else◌}
use foc_app.User.Accounts.{
  AccountStatus, Db, suspended, pending_activation, active, is_pending, has_hash,
  find_password_hash, replace_password, set_password, mark_activated,
  delete_unconsumed_activation_tokens, delete_unconsumed_password_reset_tokens, FoundLink,
  find_password_reset_token, lock_user_of_password_reset_token, consume_password_reset_token,
}
use foc_app.User.Sessions.{revoke_family_by_token_hash, revoke_all_for_user, mark_stepped_up}
use foc_app.User.Sessions.Service.{
  Crypto, Reply, raised, returned, Verified, verify_credentials, invalid_credentials,
  password_unchanged, unchanged_bootstrap, unauthenticated, reset_token_refusal,
}

-- An emailed link's account, once the link has proven the inbox.
pub record ProvenAccount : Type 0 where
  pub user_id : ℕ
  pub status : AccountStatus
  pub password_hash : ℕ
  pub correlation_id : ℕ

abbrev pub announce_activation : (now : ℕ) → ProvenAccount → Bool × Db → Db
announce_activation now a (false, db) = db
announce_activation now a (true, db) = record db {
  outbox =
      record { user_id = a.user_id; activated_at = now; correlation_id = a.correlation_id }
      ∷ db.outbox;
}

abbrev pub activate_pending : (now : ℕ) → ProvenAccount → Db → Db
activate_pending now a db =
    if is_pending a.status then announce_activation now a (mark_activated now a.user_id db) else db

-- `setPasswordFromEmailedLink`
abbrev pub set_password_from_emailed_link : (now : ℕ) → ProvenAccount → Db → Db
set_password_from_emailed_link now a db = revoke_all_for_user now a.user_id (
    delete_unconsumed_password_reset_tokens a.user_id (
      delete_unconsumed_activation_tokens a.user_id
        (activate_pending now a (set_password a.user_id a.password_hash db))))

-- The rows of the transaction of `changePassword`, by whether the password was replaced.
abbrev pub change_replaced : (now user_id : ℕ) (before : Db) → Bool × Db → Reply (Unit {0}) × Db
change_replaced now user_id before (false, db) = (raised invalid_credentials, db)
change_replaced now user_id before (true, db) = (
  returned tt,
  delete_unconsumed_password_reset_tokens user_id (revoke_all_for_user now user_id db),
)

abbrev pub replace_verified : (now new_hash : ℕ) → Verified → Db → Reply (Unit {0}) × Db
replace_verified now new_hash v db =
    change_replaced now v.user.id db (replace_password v.user.id v.password_hash new_hash db)

-- The rows of the transaction of `confirmPasswordReset`, by the token that was claimed.
abbrev pub confirm_claimed :
    (now token_hash password_hash correlation_id : ℕ) (before : Db)
    → Option AccountStatus
    → Option ℕ × Db
    → Reply (Unit {0}) × Db
confirm_claimed now h p corr before none (claimed, db) =
    (raised (reset_token_refusal (find_password_reset_token now h db)), before)
confirm_claimed now h p corr before (some status) (none, db) =
    (raised (reset_token_refusal (find_password_reset_token now h db)), before)
confirm_claimed now h p corr before (some suspended) (some user_id, db) =
    (raised (reset_token_refusal none), before)
confirm_claimed now h p corr before (some active) (some user_id, db) = (
  returned tt,
  set_password_from_emailed_link now
      (record { user_id = user_id; status = active; password_hash = p; correlation_id = corr }) db,
)
confirm_claimed now h p corr before (some pending_activation) (some user_id, db) = (
  returned tt,
  set_password_from_emailed_link now
      (record {
        user_id = user_id;
        status = pending_activation;
        password_hash = p;
        correlation_id = corr;
      })
      db,
)

abbrev pub stepped_up : Bool × Db → Reply (Unit {0}) × Db
stepped_up (false, db) = (raised unauthenticated, db)
stepped_up (true, db) = (returned tt, db)

module _ (c : Crypto) where
  -- `bootstrap` is `settings.bootstrapPassword`.
  abbrev pub change_verified :
      (now salt : ℕ) (bootstrap : Option ℕ) (current next : ℕ)
      → Reply Verified
      → Db
      → Reply (Unit {0}) × Db
  change_verified now salt bootstrap current next (raised e) db = (raised e, db)
  change_verified now salt bootstrap current next (returned v) db =
      if next == current
      then (raised password_unchanged, db)
      else (if v.user.is_seeded_admin && has_hash next bootstrap
          then (raised unchanged_bootstrap, db)
          else replace_verified now (c.hash_password salt next) v db)

  -- `changePassword`
  unfoldable pub change_password :
      (now salt : ℕ) (bootstrap : Option ℕ) (raw_email current next : ℕ) (seen db : Db)
      → Reply (Unit {0}) × Db
  change_password now salt bootstrap raw_email current next seen db =
      change_verified now salt bootstrap current next (verify_credentials c raw_email current seen)
        db

  abbrev pub confirm_hashed :
      (now token_hash password_hash correlation_id : ℕ) → Db → Reply (Unit {0}) × Db
  confirm_hashed now h p corr db =
      confirm_claimed now h p corr db (lock_user_of_password_reset_token h db)
        (consume_password_reset_token now h db)

  abbrev pub confirm_found :
      (now salt : ℕ) (bootstrap : Option ℕ) (token_hash password correlation_id : ℕ)
      → Option FoundLink
      → Db
      → Reply (Unit {0}) × Db
  confirm_found now salt bootstrap h password corr none db = (raised (reset_token_refusal none), db)
  confirm_found now salt bootstrap h password corr (some t) db =
      if t.consumed || t.expired
      then (raised (reset_token_refusal (some t)), db)
      else (if t.is_seeded_admin && has_hash password bootstrap
          then (raised unchanged_bootstrap, db)
          else confirm_hashed now h (c.hash_password salt password) corr db)

  -- `confirmPasswordReset`
  unfoldable pub confirm_password_reset :
      (now salt : ℕ) (bootstrap : Option ℕ) (token password correlation_id : ℕ) (seen db : Db)
      → Reply (Unit {0}) × Db
  confirm_password_reset now salt bootstrap token password corr seen db =
      confirm_found now salt bootstrap (c.sha256 token) password corr
        (find_password_reset_token now (c.sha256 token) seen) db

  abbrev pub step_up_verified : (now user_id session_id : ℕ) → Bool → Db → Reply (Unit {0}) × Db
  step_up_verified now user_id session_id false db = (raised invalid_credentials, db)
  step_up_verified now user_id session_id true db =
      stepped_up (mark_stepped_up now session_id user_id db)

  abbrev pub step_up_hash :
      (now user_id session_id password : ℕ) → Option ℕ → Db → Reply (Unit {0}) × Db
  step_up_hash now user_id session_id password none db = (raised invalid_credentials, db)
  step_up_hash now user_id session_id password (some h) db =
      step_up_verified now user_id session_id (c.verify_password h password) db

  -- `stepUp`
  unfoldable pub step_up :
      (now user_id session_id password : ℕ) (seen db : Db) → Reply (Unit {0}) × Db
  step_up now user_id session_id password seen db =
      step_up_hash now user_id session_id password (find_password_hash user_id seen) db

  -- `logout`. An absent or empty cookie is `none`.
  unfoldable pub logout : (now : ℕ) (refresh_token : Option ℕ) → Db → Db
  logout now none db = db
  logout now (some token) db = revoke_family_by_token_hash now (c.sha256 token) db
