-- ===== src/User/Sessions/Refresh.antt =====
-- user-service/src/auth/sessions.service.ts: what `refresh` does on each of its branches.
use foc_app.Common.{
  ℕ, ◌||◌, true, false, not, none, some, List, [], ◌∷◌, leb, ◌==◌, filter, any, is_some,
  update_where, All, ◌≡◌, ◌≢◌, ◌⊎◌, refl, arith,
}
use foc_app.User.Accounts.{RefreshSession, UserRow, Db, active, find_user}
use foc_app.User.Sessions.{
  is_taken_by, find_session, mark_rotated, revoke_family, revoked_row, in_family, lock_by_hash,
}
use foc_app.User.Sessions.Service.{
  Crypto, Random, IssuedSession, Reply, raised, returned, Refusal, code_for_status,
  refresh_token_invalid, refresh_token_reused, password_change_required, unique_violation, respond,
  session_user,
}
use foc_app.User.Sessions.Rows.{is_usable}

-- Every session of the family has been revoked, and nothing else has changed.
pub record FamilyEnded (family_id : ℕ) (db db' : Db) : Type 0 where
  pub revoked :
      All
        (λ (s : RefreshSession). s.family_id ≡ family_id → is_some s.revoked_at ≡ true)
        db'.sessions
  pub others :
      filter (λ (s : RefreshSession). not (s.family_id == family_id)) db'.sessions
      ≡ filter (λ (s : RefreshSession). not (s.family_id == family_id)) db.sessions
  pub users : db'.users ≡ db.users

revoked_all :
    (now family_id : ℕ) (ss : List RefreshSession)
    → All
        (λ (s : RefreshSession). s.family_id ≡ family_id → is_some s.revoked_at ≡ true)
        (update_where (in_family family_id) (revoked_row now) ss)
revoked_all now family_id [] = tt
revoked_all now family_id (s ∷ ss) = (ground arith, revoked_all now family_id ss)

other_families :
    (now family_id : ℕ) (ss : List RefreshSession)
    → filter
        (λ (s : RefreshSession). not (s.family_id == family_id))
        (update_where (in_family family_id) (revoked_row now) ss)
      ≡ filter (λ (s : RefreshSession). not (s.family_id == family_id)) ss
other_families now family_id [] = refl
other_families now family_id (s ∷ ss) = ground (arith, other_families now family_id ss)

pub revoke_family-FamilyEnded :
    (now family_id : ℕ) (db : Db) → FamilyEnded family_id db (revoke_family now family_id db)
revoke_family-FamilyEnded now family_id db = record {
  revoked = revoked_all now family_id db.sessions;
  others = other_families now family_id db.sessions;
  users = refl;
}

-- The session of the next token: the same sign-in, unused, beside the one it replaces.
pub record Renewed (now id token_hash : ℕ) (s : RefreshSession) (db db' : Db) : Type 0 where
  pub next : RefreshSession
  pub same_family : next.family_id ≡ s.family_id
  pub same_user : next.user_id ≡ s.user_id
  pub same_expiry : next.expires_at ≡ s.expires_at
  pub same_step_up : next.stepped_up_at ≡ s.stepped_up_at
  pub new_id : next.id ≡ id
  pub new_hash : next.token_hash ≡ token_hash
  pub usable : is_usable next ≡ true
  pub free : any (is_taken_by next) (mark_rotated now s.id db).sessions ≡ false
  pub sessions : db'.sessions ≡ next ∷ (mark_rotated now s.id db).sessions
  pub users : db'.users ≡ db.users

-- The branches of `refresh` for a presented token.
pub data RefreshOutcome (c : Crypto) (now : ℕ) (r : Random) (token : ℕ) (db : Db)
    : Reply IssuedSession × Db → Type 0 where
  unknown :
      lock_by_hash now (c.sha256 token) db ≡ none
      → RefreshOutcome c now r token db (raised refresh_token_invalid, db)
  copied :
      (s : RefreshSession)
      → find_session (c.sha256 token) db ≡ some s
      → is_some s.rotated_at ≡ true
      → (db' : Db) → FamilyEnded s.family_id db db'
      → RefreshOutcome c now r token db (raised refresh_token_reused, db')
  over :
      (s : RefreshSession)
      → find_session (c.sha256 token) db ≡ some s
      → is_some s.rotated_at ≡ false
      → (is_some s.revoked_at || leb s.expires_at now) ≡ true
      → RefreshOutcome c now r token db (raised refresh_token_invalid, db)
  shut_out :
      (s : RefreshSession) (u : UserRow)
      → find_session (c.sha256 token) db ≡ some s
      → find_user s.user_id db ≡ some u
      → is_usable s ≡ true
      → (e : Refusal)
      → ((u.status ≢ active) × (e ≡ code_for_status u.status))
        ⊎ ((u.status ≡ active) × (u.must_change_password ≡ true) × (e ≡ password_change_required))
      → (db' : Db) → FamilyEnded s.family_id db db'
      → RefreshOutcome c now r token db (raised e, db')
  collided :
      (s : RefreshSession)
      → find_session (c.sha256 token) db ≡ some s
      → is_usable s ≡ true
      → any
          (λ (t : RefreshSession). (t.id == r.id) || (t.token_hash == c.sha256 r.token))
          db.sessions
        ≡ true
      → RefreshOutcome c now r token db (raised unique_violation, db)
  renewed :
      (s : RefreshSession) (u : UserRow)
      → find_session (c.sha256 token) db ≡ some s
      → find_user s.user_id db ≡ some u
      → is_usable s ≡ true
      → leb s.expires_at now ≡ false
      → u.status ≡ active
      → u.must_change_password ≡ false
      → (db' : Db) → Renewed now r.id (c.sha256 r.token) s db db'
      → RefreshOutcome c now r token db (
        returned (respond c s.user_id r.id r.token (record (session_user u) { id = s.user_id })),
        db',
      )
