-- ===== src/User/Accounts.antt =====
-- user-service/src/db/schema.ts, users/users.repository.ts and auth/emailed-link.ts: the accounts, the
-- links that are mailed to them and the sessions, and the statements on the accounts that signing
-- in uses. Identifiers, hashes, times (in milliseconds) and addresses are numbers.
use foc_app.Common.{
  ℕ, ◌&&◌, Bool, true, false, not, Option, none, some, List, leb, ltb, ◌==◌, find, filter, any,
  is_some, update_where,
}

pub data AccountStatus : Type 0 where
  pending_activation active suspended : AccountStatus

pub data Role : Type 0 where
  student admin : Role

-- A row of `users`. `email` is `lower(email)`, which is unique; `display_name` is the joined profile's.
pub record UserRow : Type 0 where
  pub id : ℕ
  pub email : ℕ
  pub password_hash : Option ℕ
  pub status : AccountStatus
  pub is_seeded_admin : Bool
  pub must_change_password : Bool
  pub activated_at : Option ℕ
  pub display_name : List ℕ
  pub roles : List Role

-- A row of `activation_tokens` or `password_reset_tokens`.
pub record LinkToken : Type 0 where
  pub user_id : ℕ
  pub token_hash : ℕ
  pub expires_at : ℕ
  pub consumed_at : Option ℕ

-- A row of `refresh_sessions`.
pub record RefreshSession : Type 0 where
  pub id : ℕ
  pub family_id : ℕ
  pub user_id : ℕ
  pub token_hash : ℕ
  pub expires_at : ℕ
  pub rotated_at : Option ℕ
  pub revoked_at : Option ℕ
  pub stepped_up_at : Option ℕ

-- A `user.activated` row of the outbox.
pub record UserActivated : Type 0 where
  pub user_id : ℕ
  pub activated_at : ℕ
  pub correlation_id : ℕ

pub record Db : Type 0 where
  pub users : List UserRow
  pub sessions : List RefreshSession
  pub activation_tokens : List LinkToken
  pub password_reset_tokens : List LinkToken
  pub outbox : List UserActivated

abbrev pub is_active : AccountStatus → Bool
is_active active = true
is_active pending_activation = false
is_active suspended = false

abbrev pub is_pending : AccountStatus → Bool
is_pending pending_activation = true
is_pending active = false
is_pending suspended = false

-- The test `password_hash = expected`, which NULL never passes.
abbrev pub has_hash : ℕ → Option ℕ → Bool
has_hash expected none = false
has_hash expected (some h) = h == expected

abbrev pub find_user : ℕ → Db → Option UserRow
find_user user_id db = find (λ (u : UserRow). u.id == user_id) db.users

-- `findCredentials`
abbrev pub find_credentials : ℕ → Db → Option UserRow
find_credentials email db = find (λ (u : UserRow). u.email == email) db.users

abbrev hash_of : Option UserRow → Option ℕ
hash_of none = none
hash_of (some u) = u.password_hash

-- `findPasswordHash`
abbrev pub find_password_hash : ℕ → Db → Option ℕ
find_password_hash user_id db = hash_of (find_user user_id db)

-- The WHERE of `replacePassword`.
abbrev pub has_password : (user_id expected : ℕ) → UserRow → Bool
has_password user_id expected u = (u.id == user_id) && has_hash expected u.password_hash

-- The SET of `replacePassword` and of `setPassword`.
abbrev pub with_password : ℕ → UserRow → UserRow
with_password h u = record u { password_hash = some h; must_change_password = false }

-- `replacePassword`: whether a row was returned, and the tables.
abbrev pub replace_password : (user_id expected new_hash : ℕ) → Db → Bool × Db
replace_password user_id expected new_hash db = (
  any (has_password user_id expected) db.users,
  record db {
    users = update_where (has_password user_id expected) (with_password new_hash) db.users;
  },
)

-- `setPassword`
abbrev pub set_password : (user_id password_hash : ℕ) → Db → Db
set_password user_id password_hash db = record db {
  users = update_where (λ (u : UserRow). u.id == user_id) (with_password password_hash) db.users;
}

abbrev pub awaits_activation : ℕ → UserRow → Bool
awaits_activation user_id u = (u.id == user_id) && is_pending u.status

abbrev pub activate : ℕ → UserRow → UserRow
activate now u = record u { status = active; activated_at = some now }

-- `markActivated`
abbrev pub mark_activated : (now user_id : ℕ) → Db → Bool × Db
mark_activated now user_id db = (
  any (awaits_activation user_id) db.users,
  record db { users = update_where (awaits_activation user_id) (activate now) db.users },
)

abbrev pub is_unused_of : ℕ → LinkToken → Bool
is_unused_of user_id t = (t.user_id == user_id) && not (is_some t.consumed_at)

-- `deleteUnconsumedActivationTokens`
abbrev pub delete_unconsumed_activation_tokens : ℕ → Db → Db
delete_unconsumed_activation_tokens user_id db = record db {
  activation_tokens = filter (λ t. not (is_unused_of user_id t)) db.activation_tokens;
}

-- `deleteUnconsumedPasswordResetTokens`
abbrev pub delete_unconsumed_password_reset_tokens : ℕ → Db → Db
delete_unconsumed_password_reset_tokens user_id db = record db {
  password_reset_tokens = filter (λ t. not (is_unused_of user_id t)) db.password_reset_tokens;
}

-- The WHERE of `consumePasswordResetToken`.
abbrev pub is_live_link : (now token_hash : ℕ) → LinkToken → Bool
is_live_link now token_hash t =
    (t.token_hash == token_hash) && (not (is_some t.consumed_at) && ltb now t.expires_at)

abbrev pub consume : ℕ → LinkToken → LinkToken
consume now t = record t { consumed_at = some now }

abbrev pub owner_of : Option LinkToken → Option ℕ
owner_of none = none
owner_of (some t) = some t.user_id

-- `consumePasswordResetToken`: the account that the claimed token belongs to, and the tables.
abbrev pub consume_password_reset_token : (now token_hash : ℕ) → Db → Option ℕ × Db
consume_password_reset_token now token_hash db = (
  owner_of (find (is_live_link now token_hash) db.password_reset_tokens),
  record db {
    password_reset_tokens =
        update_where (is_live_link now token_hash) (consume now) db.password_reset_tokens;
  },
)

-- What `findPasswordResetToken` returns.
pub record FoundLink : Type 0 where
  pub consumed : Bool
  pub expired : Bool
  pub is_seeded_admin : Bool

abbrev find_link : ℕ → Db → Option LinkToken
find_link token_hash db =
    find (λ (t : LinkToken). t.token_hash == token_hash) db.password_reset_tokens

abbrev joined_link : ℕ → LinkToken → Option UserRow → Option FoundLink
joined_link now t none = none
joined_link now t (some u) = some (record {
  consumed = is_some t.consumed_at;
  expired = leb t.expires_at now;
  is_seeded_admin = u.is_seeded_admin;
})

abbrev found_link : ℕ → Db → Option LinkToken → Option FoundLink
found_link now db none = none
found_link now db (some t) = joined_link now t (find_user t.user_id db)

-- `findPasswordResetToken`
abbrev pub find_password_reset_token : (now token_hash : ℕ) → Db → Option FoundLink
find_password_reset_token now token_hash db = found_link now db (find_link token_hash db)

abbrev status_of : Option UserRow → Option AccountStatus
status_of none = none
status_of (some u) = some u.status

abbrev link_status : Db → Option LinkToken → Option AccountStatus
link_status db none = none
link_status db (some t) = status_of (find_user t.user_id db)

-- `lockUserOfPasswordResetToken`
abbrev pub lock_user_of_password_reset_token : ℕ → Db → Option AccountStatus
lock_user_of_password_reset_token token_hash db = link_status db (find_link token_hash db)
