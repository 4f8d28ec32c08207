-- ===== src/User/Sessions/Service.antt =====
-- user-service/src/auth/sessions.service.ts: `SessionsService`. A method is a function of the tables
-- to its answer and the tables it leaves; what it throws out of a transaction leaves them alone.
-- Argon2, SHA-256, the signer of access tokens and the normal form of an address are parameters,
-- and so are the random values. A method that reads the account, hashes and only then writes
-- takes the tables twice: `seen` is what it read.
use foc_app.Common.{ℕ, ◌||◌, Bool, true, false, not, Option, none, some, List, if◌then◌else◌}
use foc_app.User.Accounts.{
  AccountStatus, pending_activation, active, suspended, Role, UserRow, Db, is_active, find_user,
  find_credentials, FoundLink,
}
use foc_app.User.Sessions.{
  Inserted, violated, skipped, inserted, LockedSession, lock_by_hash, mark_rotated, rotate,
  revoke_family, insert_if_loginable,
}

-- The codes of the `ApiException`s that are thrown, and a unique key violation.
pub data Refusal : Type 0 where
  account_suspended account_not_activated invalid_credentials password_change_required : Refusal
  password_unchanged unchanged_bootstrap : Refusal
  refresh_token_invalid refresh_token_reused : Refusal
  password_reset_token_invalid password_reset_token_expired unauthenticated : Refusal
  unique_violation : Refusal

pub data Reply {ℓ} (A : Type ℓ) : Type ℓ where
  raised : Refusal → Reply A
  returned : A → Reply A

-- What the service takes from Argon2, `node:crypto`, the signer of tokens and Unicode.
pub record Crypto : Type 0 where
  pub sha256 : ℕ → ℕ
  pub verify_password : (encoded password : ℕ) → Bool
  pub hash_password : (salt password : ℕ) → ℕ
  pub sign : (sub sid : ℕ) → ℕ
  pub email_key : (raw : ℕ) → ℕ

pub record SessionUser : Type 0 where
  pub id : ℕ
  pub display_name : List ℕ
  pub roles : List Role
  pub status : AccountStatus

pub record IssuedSession : Type 0 where
  pub access_token : ℕ
  pub refresh_token : ℕ
  pub user : SessionUser

-- `codeForStatus`
abbrev pub code_for_status : AccountStatus → Refusal
code_for_status suspended = account_suspended
code_for_status pending_activation = account_not_activated
code_for_status active = account_not_activated

abbrev pub refusal_of_unused : FoundLink → Refusal
refusal_of_unused t =
    if t.consumed then password_reset_token_invalid else password_reset_token_expired

-- `resetTokenRefusal`
abbrev pub reset_token_refusal : Option FoundLink → Refusal
reset_token_refusal none = password_reset_token_invalid
reset_token_refusal (some t) = refusal_of_unused t

-- What `refresh` returns from inside its transaction.
pub data Outcome : Type 0 where
  invalid reused : Outcome
  inactive : AccountStatus → Outcome
  flagged : Outcome
  continued : (user_id : ℕ) → Outcome

-- What `verifyCredentials` returns.
pub record Verified : Type 0 where
  pub user : UserRow
  pub password_hash : ℕ

-- The random values of a sign-in and of a refresh.
pub record Random : Type 0 where
  pub id : ℕ
  pub family_id : ℕ
  pub token : ℕ

abbrev pub refresh_ttl_days : ℕ
refresh_ttl_days = 7

abbrev pub session_user : UserRow → SessionUser
session_user u = record {
  id = u.id;
  display_name = u.display_name;
  roles = u.roles;
  status = u.status;
}

-- A transaction that met a unique key raises and leaves the tables as they were.
abbrev pub continue_with : (user_id : ℕ) (before after : Db) → Inserted → Option Outcome × Db
continue_with user_id before after violated = (none, before)
continue_with user_id before after skipped = (some (continued user_id), after)
continue_with user_id before after (inserted db) = (some (continued user_id), db)

abbrev pub rotate_row : (now next_id next_hash : ℕ) → LockedSession → Db → Option Outcome × Db
rotate_row now next_id next_hash row db =
    continue_with row.user_id db (mark_rotated now row.id db)
      (rotate next_id next_hash row.id (mark_rotated now row.id db))

-- The rows of the transaction of `refresh` after the token was found.
abbrev pub refresh_row : (now next_id next_hash : ℕ) → LockedSession → Db → Option Outcome × Db
refresh_row now next_id next_hash row db =
    if row.rotated
    then (some reused, revoke_family now row.family_id db)
    else (if row.revoked || row.expired
        then (some invalid, db)
        else (if not (is_active row.user_status)
            then (some (inactive row.user_status), revoke_family now row.family_id db)
            else (if row.must_change_password
                then (some flagged, revoke_family now row.family_id db)
                else rotate_row now next_id next_hash row db)))

abbrev pub refresh_locked :
    (now next_id next_hash : ℕ) → Option LockedSession → Db → Option Outcome × Db
refresh_locked now next_id next_hash none db = (some invalid, db)
refresh_locked now next_id next_hash (some row) db = refresh_row now next_id next_hash row db

module _ (c : Crypto) where
  -- `respond`
  abbrev pub respond : (user_id session_id refresh_token : ℕ) → SessionUser → IssuedSession
  respond user_id session_id refresh_token user = record {
    access_token = c.sign user_id session_id;
    refresh_token = refresh_token;
    user = user;
  }

  abbrev pub verified_active : UserRow → ℕ → Bool → Reply Verified
  verified_active u h false = raised invalid_credentials
  verified_active u h true =
      if is_active u.status
      then returned (record { user = u; password_hash = h })
      else raised (code_for_status u.status)

  abbrev pub verified_hash : (password : ℕ) → UserRow → Option ℕ → Reply Verified
  verified_hash password u none = raised invalid_credentials
  verified_hash password u (some h) = verified_active u h (c.verify_password h password)

  abbrev pub verified_user : (password : ℕ) → Option UserRow → Reply Verified
  verified_user password none = raised invalid_credentials
  verified_user password (some u) = verified_hash password u u.password_hash

  -- `verifyCredentials`. The dummy hash that is verified in place of an absent one decides nothing.
  abbrev pub verify_credentials : (raw_email password : ℕ) → Db → Reply Verified
  verify_credentials raw_email password db =
      verified_user password (find_credentials (c.email_key raw_email) db)

  abbrev pub login_inserted : Random → UserRow → Db → Inserted → Reply IssuedSession × Db
  login_inserted r u db violated = (raised unique_violation, db)
  login_inserted r u db skipped = (raised invalid_credentials, db)
  login_inserted r u db (inserted after) =
      (returned (respond u.id r.id r.token (session_user u)), after)

  abbrev pub login_verified : (now : ℕ) → Random → Reply Verified → Db → Reply IssuedSession × Db
  login_verified now r (raised e) db = (raised e, db)
  login_verified now r (returned v) db =
      if v.user.must_change_password
      then (raised password_change_required, db)
      else login_inserted r v.user db (
          insert_if_loginable now
            (record {
              id = r.id;
              family_id = r.family_id;
              user_id = v.user.id;
              token_hash = c.sha256 r.token;
              ttl_days = refresh_ttl_days;
            })
            v.password_hash db)

  -- `login`
  unfoldable pub login :
      (now : ℕ) → Random → (raw_email password : ℕ) → (seen db : Db) → Reply IssuedSession × Db
  login now r raw_email password seen db =
      login_verified now r (verify_credentials raw_email password seen) db

  abbrev pub refresh_identity : (user_id : ℕ) → Random → Option UserRow → Reply IssuedSession
  refresh_identity user_id r none = raised refresh_token_invalid
  refresh_identity user_id r (some u) = returned (
      respond user_id r.id r.token (record {
        id = user_id;
        display_name = u.display_name;
        roles = u.roles;
        status = u.status;
      }))

  -- The `switch` of `refresh`, on the committed tables.
  abbrev pub refresh_outcome : Random → Option Outcome × Db → Reply IssuedSession × Db
  refresh_outcome r (none, db) = (raised unique_violation, db)
  refresh_outcome r (some invalid, db) = (raised refresh_token_invalid, db)
  refresh_outcome r (some reused, db) = (raised refresh_token_reused, db)
  refresh_outcome r (some (inactive status), db) = (raised (code_for_status status), db)
  refresh_outcome r (some flagged, db) = (raised password_change_required, db)
  refresh_outcome r (some (continued user_id), db) =
      (refresh_identity user_id r (find_user user_id db), db)

  -- `refresh`. An absent or empty cookie is `none`.
  unfoldable pub refresh : (now : ℕ) → Random → Option ℕ → Db → Reply IssuedSession × Db
  refresh now r none db = (raised refresh_token_invalid, db)
  refresh now r (some token) db =
      refresh_outcome r
        (refresh_locked now r.id (c.sha256 r.token) (lock_by_hash now (c.sha256 token) db) db)
