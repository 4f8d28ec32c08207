-- ===== src/User/Sessions.antt =====
-- user-service/src/auth/sessions.repository.ts: the statements on the refresh sessions.
pub mod Rows
pub mod Calls
pub mod Changes
pub mod Families
pub mod Refresh
pub mod Rotation
pub mod Once
pub mod Secrets
pub mod Credentials
pub mod SignIn
pub mod EmailedLink
pub mod Resets
pub mod Service
pub mod Passwords
use foc_app.Common.{
  ℕ, ◌+◌, ◌*◌, ◌&&◌, ◌||◌, Bool, true, false, not, Option, none, some, List, [], ◌∷◌, leb, ltb,
  ◌==◌, find, any, is_some, if◌then◌else◌, update_where,
}
use foc_app.User.Accounts.{
  AccountStatus, UserRow, RefreshSession, Db, is_active, has_password, find_user,
}

-- What an INSERT of a session did: a used id or token hash raises, and the WHERE may select no row.
pub data Inserted : Type 0 where
  violated skipped : Inserted
  inserted : Db → Inserted

-- The primary key and the unique token hash.
abbrev pub is_taken_by : RefreshSession → RefreshSession → Bool
is_taken_by new s = (s.id == new.id) || (s.token_hash == new.token_hash)

abbrev pub insert_session : RefreshSession → Db → Inserted
insert_session new db =
    if any (is_taken_by new) db.sessions
    then violated
    else inserted (record db { sessions = new ∷ db.sessions })

-- The row that continues a session.
abbrev pub continuation : (id token_hash : ℕ) → RefreshSession → RefreshSession
continuation id token_hash s = record s {
  id = id;
  token_hash = token_hash;
  rotated_at = none;
  revoked_at = none;
}

abbrev pub insert_continuation : (id token_hash : ℕ) → Option RefreshSession → Db → Inserted
insert_continuation id token_hash none db = skipped
insert_continuation id token_hash (some s) db = insert_session (continuation id token_hash s) db

-- `rotate`
abbrev pub rotate : (id token_hash continues : ℕ) → Db → Inserted
rotate id token_hash continues db =
    insert_continuation id token_hash (find (λ (s : RefreshSession). s.id == continues) db.sessions)
      db

pub record NewSession : Type 0 where
  pub id : ℕ
  pub family_id : ℕ
  pub user_id : ℕ
  pub token_hash : ℕ
  pub ttl_days : ℕ

-- `make_interval(days => …)` in milliseconds.
abbrev pub day : ℕ
day = 86400000

abbrev pub first_session : (now : ℕ) → NewSession → RefreshSession
first_session now s = record {
  id = s.id;
  family_id = s.family_id;
  user_id = s.user_id;
  token_hash = s.token_hash;
  expires_at = now + s.ttl_days * day;
  rotated_at = none;
  revoked_at = none;
  stepped_up_at = none;
}

-- The account is still what the caller verified.
abbrev pub is_loginable : (user_id verified_hash : ℕ) → UserRow → Bool
is_loginable user_id verified_hash u =
    has_password user_id verified_hash u && (is_active u.status && not u.must_change_password)

-- `insertIfLoginable`
abbrev pub insert_if_loginable : (now : ℕ) → NewSession → (verified_hash : ℕ) → Db → Inserted
insert_if_loginable now s verified_hash db =
    if any (is_loginable s.user_id verified_hash) db.users
    then insert_session (first_session now s) db
    else skipped

pub record LockedSession : Type 0 where
  pub id : ℕ
  pub family_id : ℕ
  pub user_id : ℕ
  pub expired : Bool
  pub rotated : Bool
  pub revoked : Bool
  pub user_status : AccountStatus
  pub must_change_password : Bool

abbrev pub locked : (now : ℕ) → RefreshSession → UserRow → LockedSession
locked now s u = record {
  id = s.id;
  family_id = s.family_id;
  user_id = s.user_id;
  expired = leb s.expires_at now;
  rotated = is_some s.rotated_at;
  revoked = is_some s.revoked_at;
  user_status = u.status;
  must_change_password = u.must_change_password;
}

abbrev pub join_user : (now : ℕ) → RefreshSession → Option UserRow → Option LockedSession
join_user now s none = none
join_user now s (some u) = some (locked now s u)

abbrev pub join_found : (now : ℕ) → Db → Option RefreshSession → Option LockedSession
join_found now db none = none
join_found now db (some s) = join_user now s (find_user s.user_id db)

abbrev pub find_session : (token_hash : ℕ) → Db → Option RefreshSession
find_session token_hash db = find (λ (s : RefreshSession). s.token_hash == token_hash) db.sessions

-- `lockByHash`
abbrev pub lock_by_hash : (now token_hash : ℕ) → Db → Option LockedSession
lock_by_hash now token_hash db = join_found now db (find_session token_hash db)

abbrev pub rotated_row : ℕ → RefreshSession → RefreshSession
rotated_row now s = record s { rotated_at = some now }

-- `markRotated`
abbrev pub mark_rotated : (now id : ℕ) → Db → Db
mark_rotated now id db = record db {
  sessions = update_where (λ (s : RefreshSession). s.id == id) (rotated_row now) db.sessions;
}

abbrev pub revoked_row : ℕ → RefreshSession → RefreshSession
revoked_row now s = record s { revoked_at = some now }

abbrev pub in_family : ℕ → RefreshSession → Bool
in_family family_id s = (s.family_id == family_id) && not (is_some s.revoked_at)

-- `revokeFamily`
abbrev pub revoke_family : (now family_id : ℕ) → Db → Db
revoke_family now family_id db = record db {
  sessions = update_where (in_family family_id) (revoked_row now) db.sessions;
}

abbrev pub revoke_found : (now : ℕ) → Option RefreshSession → Db → Db
revoke_found now none db = db
revoke_found now (some s) db = revoke_family now s.family_id db

-- `revokeFamilyByTokenHash`
abbrev pub revoke_family_by_token_hash : (now token_hash : ℕ) → Db → Db
revoke_family_by_token_hash now token_hash db = revoke_found now (find_session token_hash db) db

abbrev pub unrevoked_of : ℕ → RefreshSession → Bool
unrevoked_of user_id s = (s.user_id == user_id) && not (is_some s.revoked_at)

-- `revokeAllForUser`
abbrev pub revoke_all_for_user : (now user_id : ℕ) → Db → Db
revoke_all_for_user now user_id db = record db {
  sessions = update_where (unrevoked_of user_id) (revoked_row now) db.sessions;
}

abbrev pub can_step_up : (session_id user_id : ℕ) → RefreshSession → Bool
can_step_up session_id user_id s =
    (s.id == session_id) && ((s.user_id == user_id) && not (is_some s.revoked_at))

abbrev pub stepped_up_row : ℕ → RefreshSession → RefreshSession
stepped_up_row now s = record s { stepped_up_at = some now }

-- `markSteppedUp`: whether a row was returned, and the tables.
abbrev pub mark_stepped_up : (now session_id user_id : ℕ) → Db → Bool × Db
mark_stepped_up now session_id user_id db = (
  any (can_step_up session_id user_id) db.sessions,
  record db {
    sessions = update_where (can_step_up session_id user_id) (stepped_up_row now) db.sessions;
  },
)

-- `stepped_up_at > now() - …`, and false on NULL.
abbrev pub is_fresh : (now seconds : ℕ) → Option ℕ → Bool
is_fresh now seconds none = false
is_fresh now seconds (some t) = ltb now (t + seconds * 1000)

abbrev pub found_fresh : (now seconds : ℕ) → Option RefreshSession → Bool
found_fresh now seconds none = false
found_fresh now seconds (some s) = is_fresh now seconds s.stepped_up_at

-- `steppedUpWithin`
abbrev pub stepped_up_within : (now session_id seconds : ℕ) → Db → Bool
stepped_up_within now session_id seconds db =
    found_fresh now seconds (
      find (λ (s : RefreshSession). (s.id == session_id) && not (is_some s.revoked_at)) db.sessions)

pub record Liveness : Type 0 where
  pub live : Bool
  pub status : AccountStatus

abbrev pub is_live : (now : ℕ) → RefreshSession → UserRow → Bool
is_live now s u = not (is_some s.revoked_at) && (ltb now s.expires_at && not u.must_change_password)

abbrev pub live_joined : (now : ℕ) → RefreshSession → Option UserRow → Option Liveness
live_joined now s none = none
live_joined now s (some u) = some (record { live = is_live now s u; status = u.status })

abbrev pub live_found : (now : ℕ) → Db → Option RefreshSession → Option Liveness
live_found now db none = none
live_found now db (some s) = live_joined now s (find_user s.user_id db)

-- `liveness`
abbrev pub liveness : (now session_id user_id : ℕ) → Db → Option Liveness
liveness now session_id user_id db =
    live_found now db
      (find (λ (s : RefreshSession). (s.id == session_id) && (s.user_id == user_id)) db.sessions)
