-- ===== src/User/Sessions/Changes.antt =====
-- user-service/src/auth/sessions.service.ts: every call withdraws sessions, starts one of a new family
-- or continues a usable one.
use foc_app.Common.{
  ℕ, ◌&&◌, ◌||◌, Bool, true, false, Option, none, some, ◌==◌, leb, find, is_some, if◌then◌else◌,
  update_where, All, ◌≡◌, inl, inr, refl, sym, ap, ◌∙◌, arith, Bool-cases, Option-cases,
}
use foc_app.User.Accounts.{
  RefreshSession, UserRow, Db, FoundLink, AccountStatus, active, suspended, pending_activation,
  is_active, is_pending, find_user, has_hash, set_password, replace_password,
  lock_user_of_password_reset_token, consume_password_reset_token,
}
use foc_app.User.Sessions.{
  Inserted, violated, skipped, inserted, insert_session, rotate, mark_rotated, revoked_row,
  rotated_row, stepped_up_row, lock_by_hash, find_session, revoke_family, locked, unrevoked_of,
  can_step_up, mark_stepped_up,
}
use foc_app.User.Sessions.Service.{
  Crypto, Random, Reply, raised, returned, Verified, verify_credentials, login, refresh,
  refresh_row, refresh_locked, refresh_outcome, login_verified, login_inserted, continue_with,
  Outcome, invalid, reused, inactive, flagged,
}
use foc_app.User.Sessions.Passwords.{
  change_password, confirm_password_reset, step_up, logout, ProvenAccount, change_replaced,
  change_verified, activate_pending, announce_activation, set_password_from_emailed_link,
  confirm_claimed, confirm_found, step_up_hash, stepped_up,
}
use foc_app.User.Sessions.Rows.{Withdraws, is_usable}
use foc_app.User.Sessions.Calls.{
  Call, signs_in, refreshes, changes_password, resets_password, steps_up, signs_out,
  revokes_sessions, changes_accounts, perform, NewFamily, Change, kept, withdrawn, started,
  continued,
}

pub revoked-Withdraws : (now : ℕ) (s : RefreshSession) → Withdraws s (revoked_row now s)
revoked-Withdraws now s = ground arith

pub rotated-Withdraws : (now : ℕ) (s : RefreshSession) → Withdraws s (rotated_row now s)
rotated-Withdraws now s = ground arith

stepped_up-Withdraws : (now : ℕ) (s : RefreshSession) → Withdraws s (stepped_up_row now s)
stepped_up-Withdraws now s = ground arith

pub revoke_family-Change :
    (now family_id : ℕ) (db : Db) → Change db (revoke_family now family_id db)
revoke_family-Change now family_id db = withdrawn _ _ (revoked-Withdraws now) refl

continue_with-Change :
    (now id token_hash user_id : ℕ) (p : RefreshSession → Bool) (s : RefreshSession) (db : Db)
    (i : Inserted)
    → find p db.sessions ≡ some s
    → is_usable s ≡ true
    → rotate id token_hash s.id (mark_rotated now s.id db) ≡ i
    → Change db (continue_with user_id db (mark_rotated now s.id db) i).1
continue_with-Change now id h user_id p s db violated e u r = kept refl
continue_with-Change now id h user_id p s db skipped e u r =
    withdrawn _ _ (rotated-Withdraws now) refl
continue_with-Change now id h user_id p s db (inserted after) e u r = continued now id h p s e u r

refresh_row-Change :
    (now id token_hash : ℕ) (p : RefreshSession → Bool) (s : RefreshSession) (user : UserRow)
    (db : Db)
    → find p db.sessions ≡ some s
    → Change db (refresh_row now id token_hash (locked now s user) db).1
refresh_row-Change now id h p s user db e = elim (Bool-cases (is_some s.rotated_at)) [
  | inl t ↦ rw t (revoke_family-Change now s.family_id db)
  | inr f ↦ elim (Bool-cases (is_some s.revoked_at || leb s.expires_at now)) [
    | inl t ↦ rw (f, t) (kept refl)
    | inr g ↦ elim (Bool-cases (is_active user.status)) [
      | inr k ↦ rw (f, g, k) (revoke_family-Change now s.family_id db)
      | inl k ↦ elim (Bool-cases user.must_change_password) [
        | inl t ↦ rw (f, g, k, t) (revoke_family-Change now s.family_id db)
        | inr t ↦
            rw (f, g, k, t) (continue_with-Change now id h s.user_id p s db _ e (ground arith) refl)
      ]
    ]
  ]
]

refresh_locked-Change :
    (now id token_hash presented : ℕ) (db : Db)
    → Change db (refresh_locked now id token_hash (lock_by_hash now presented db) db).1
refresh_locked-Change now id h presented db = elim (Option-cases (find_session presented db)) [
  | inl e ↦ rw e (kept refl)
  | inr (s, e) ↦ elim (Option-cases (find_user s.user_id db)) [
    | inl n ↦ rw (e, n) (kept refl)
    | inr (user, k) ↦ rw (e, k) (refresh_row-Change now id h _ s user db e)
  ]
]

-- The `switch` of `refresh` writes nothing.
pub refresh_outcome_db :
    (c : Crypto) (r : Random) (o : Option Outcome × Db) → (refresh_outcome c r o).1 ≡ o.1
refresh_outcome_db c r (none, db) = refl
refresh_outcome_db c r (some invalid, db) = refl
refresh_outcome_db c r (some reused, db) = refl
refresh_outcome_db c r (some (inactive status), db) = refl
refresh_outcome_db c r (some flagged, db) = refl
refresh_outcome_db c r (some (Outcome.continued user_id), db) = refl

pub refresh-Change :
    (c : Crypto) (now : ℕ) (r : Random) (token : Option ℕ) (db : Db)
    → Change db (refresh c now r token db).1
unfolding refresh
refresh-Change c now r none db = kept refl
refresh-Change c now r (some token) db =
    rw refresh_outcome_db (refresh_locked-Change now r.id (c.sha256 r.token) (c.sha256 token) db)

login_inserted-Change :
    (c : Crypto) (r : Random) (u : UserRow) (new : RefreshSession) (verified : Bool) (db : Db)
    (i : Inserted)
    → All (λ s. (s.family_id == new.family_id) ≡ false) db.sessions
    → i ≡ (if verified then insert_session new db else skipped)
    → Change db (login_inserted c r u db i).1
login_inserted-Change c r u new true db violated f e = kept refl
login_inserted-Change c r u new true db skipped f e = kept refl
login_inserted-Change c r u new true db (inserted after) f e = started new f (sym e)
login_inserted-Change c r u new false db violated f e = kept refl
login_inserted-Change c r u new false db skipped f e = kept refl
login_inserted-Change c r u new false db (inserted after) f e = absurd (ground arith)

login_verified-Change :
    (c : Crypto) (now : ℕ) (r : Random) (v : Reply Verified) (db : Db)
    → All (λ s. (s.family_id == r.family_id) ≡ false) db.sessions
    → Change db (login_verified c now r v db).1
login_verified-Change c now r (raised e) db f = kept refl
login_verified-Change c now r (returned v) db f = elim (Bool-cases v.user.must_change_password) [
  | inl t ↦ rw t (kept refl)
  | inr g ↦ rw g (login_inserted-Change c r v.user _ _ db _ f refl)
]

change_replaced-Change :
    (now user_id : ℕ) (db : Db) (replaced : Bool × Db)
    → replaced.1.sessions ≡ db.sessions
    → Change db (change_replaced now user_id db replaced).1
change_replaced-Change now user_id db (false, db') e = kept e
change_replaced-Change now user_id db (true, db') e =
    withdrawn (unrevoked_of user_id) (revoked_row now) (revoked-Withdraws now)
      (ap (update_where (unrevoked_of user_id) (revoked_row now)) e)

change_verified-Change :
    (c : Crypto) (now salt : ℕ) (bootstrap : Option ℕ) (current next : ℕ) (v : Reply Verified)
    (db : Db)
    → Change db (change_verified c now salt bootstrap current next v db).1
change_verified-Change c now salt bootstrap current next (raised e) db = kept refl
change_verified-Change c now salt bootstrap current next (returned v) db =
    elim (Bool-cases (next == current)) [
      | inl t ↦ rw t (kept refl)
      | inr f ↦ elim (Bool-cases (v.user.is_seeded_admin && has_hash next bootstrap)) [
        | inl t ↦ rw (f, t) (kept refl)
        | inr g ↦
            rw (f, g)
              (change_replaced-Change now v.user.id db
                (replace_password v.user.id v.password_hash (c.hash_password salt next) db) refl)
      ]
    ]

pub activate_pending_sessions :
    (now : ℕ) (a : ProvenAccount) (db : Db) → (activate_pending now a db).sessions ≡ db.sessions
activate_pending_sessions now a db = elim (Bool-cases (is_pending a.status)) [
  | inr f ↦ rw f refl
  | inl t ↦ rw t (announced _ refl)
]
  where
    announced :
        (marked : Bool × Db)
        → marked.1.sessions ≡ db.sessions
        → (announce_activation now a marked).sessions ≡ db.sessions
    announced (false, db') e = e
    announced (true, db') e = e

emailed_link-Change :
    (now : ℕ) (a : ProvenAccount) (db db' : Db)
    → db'.sessions ≡ db.sessions
    → Change db (set_password_from_emailed_link now a db')
emailed_link-Change now a db db' e =
    withdrawn (unrevoked_of a.user_id) (revoked_row now) (revoked-Withdraws now) (
      ap (update_where (unrevoked_of a.user_id) (revoked_row now))
        (activate_pending_sessions now a (set_password a.user_id a.password_hash db') ∙ e))

confirm_claimed-Change :
    (now h p corr : ℕ) (db : Db) (status : Option AccountStatus) (claimed : Option ℕ × Db)
    → claimed.1.sessions ≡ db.sessions
    → Change db (confirm_claimed now h p corr db status claimed).1
confirm_claimed-Change now h p corr db none (claimed, db') e = kept refl
confirm_claimed-Change now h p corr db (some active) (none, db') e = kept refl
confirm_claimed-Change now h p corr db (some suspended) (none, db') e = kept refl
confirm_claimed-Change now h p corr db (some pending_activation) (none, db') e = kept refl
confirm_claimed-Change now h p corr db (some suspended) (some user_id, db') e = kept refl
confirm_claimed-Change now h p corr db (some active) (some user_id, db') e =
    emailed_link-Change now
      (record { user_id = user_id; status = active; password_hash = p; correlation_id = corr }) db
      db' e
confirm_claimed-Change now h p corr db (some pending_activation) (some user_id, db') e =
    emailed_link-Change now
      (record {
        user_id = user_id;
        status = pending_activation;
        password_hash = p;
        correlation_id = corr;
      })
      db db' e

confirm_found-Change :
    (c : Crypto) (now salt : ℕ) (bootstrap : Option ℕ) (h password corr : ℕ) (t : Option FoundLink)
    (db : Db)
    → Change db (confirm_found c now salt bootstrap h password corr t db).1
confirm_found-Change c now salt bootstrap h password corr none db = kept refl
confirm_found-Change c now salt bootstrap h password corr (some t) db =
    elim (Bool-cases (t.consumed || t.expired)) [
      | inl k ↦ rw k (kept refl)
      | inr f ↦ elim (Bool-cases (t.is_seeded_admin && has_hash password bootstrap)) [
        | inl k ↦ rw (f, k) (kept refl)
        | inr g ↦
            rw (f, g)
              (confirm_claimed-Change now h (c.hash_password salt password) corr db
                (lock_user_of_password_reset_token h db) (consume_password_reset_token now h db)
                refl)
      ]
    ]

step_up_hash-Change :
    (c : Crypto) (now user_id session_id password : ℕ) (h : Option ℕ) (db : Db)
    → Change db (step_up_hash c now user_id session_id password h db).1
step_up_hash-Change c now user_id session_id password none db = kept refl
step_up_hash-Change c now user_id session_id password (some h) db =
    elim (Bool-cases (c.verify_password h password)) [
      | inr f ↦ rw f (kept refl)
      | inl t ↦ rw t (
          marked (mark_stepped_up now session_id user_id db).0
            (mark_stepped_up now session_id user_id db).1 refl)
    ]
  where
    marked :
        (found : Bool) (db' : Db)
        → db'.sessions
          ≡ update_where (can_step_up session_id user_id) (stepped_up_row now) db.sessions
        → Change db (stepped_up (found, db')).1
    marked false db' e = withdrawn _ _ (stepped_up-Withdraws now) e
    marked true db' e = withdrawn _ _ (stepped_up-Withdraws now) e

logout-Change :
    (c : Crypto) (now : ℕ) (token : Option ℕ) (db : Db) → Change db (logout c now token db)
unfolding logout
logout-Change c now none db = kept refl
logout-Change c now (some token) db = elim (Option-cases (find_session (c.sha256 token) db)) [
  | inl e ↦ rw e (kept refl)
  | inr (s, e) ↦ rw e (revoke_family-Change now s.family_id db)
]

pub perform-Change : (c : Crypto) (x : Call) (db : Db) → NewFamily x db → Change db (perform c x db)
unfolding perform login change_password confirm_password_reset step_up
perform-Change c (signs_in now r e p seen) db f =
    login_verified-Change c now r (verify_credentials c e p seen) db f
perform-Change c (refreshes now r token) db f = refresh-Change c now r token db
perform-Change c (changes_password now salt b e p q seen) db f =
    change_verified-Change c now salt b p q (verify_credentials c e p seen) db
perform-Change c (resets_password now salt b t p corr seen) db f =
    confirm_found-Change c now salt b (c.sha256 t) p corr _ db
perform-Change c (steps_up now u s p seen) db f = step_up_hash-Change c now u s p _ db
perform-Change c (signs_out now token) db f = logout-Change c now token db
perform-Change c (revokes_sessions now u) db f = withdrawn _ _ (revoked-Withdraws now) refl
perform-Change c (changes_accounts us links resets) db f = kept refl
