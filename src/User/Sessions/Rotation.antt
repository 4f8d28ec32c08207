-- ===== src/User/Sessions/Rotation.antt =====
-- user-service/src/auth/sessions.service.ts: `refresh` by its branches, and the single use of a token.
use foc_app.Common.{
  ℕ, ◌||◌, Bool, true, false, Option, some, List, [], ◌∷◌, leb, ◌==◌, find, any, is_some,
  update_where, Pairwise, ◌≡◌, inl, inr, refl, arith, ◌∙◌, sym, Bool-cases, Option-cases, find-All,
}
use foc_app.User.Accounts.{RefreshSession, UserRow, Db, AccountStatus, active, find_user, is_active}
use foc_app.User.Sessions.{
  continuation, is_taken_by, find_session, mark_rotated, rotated_row, locked,
}
use foc_app.User.Sessions.Service.{
  Crypto, Random, refresh, refresh_row, refresh_outcome, rotate_row, Outcome, code_for_status,
  password_change_required,
}
use foc_app.User.Sessions.Rows.{Apart, SessionsValid, is_usable}
use foc_app.User.Sessions.Refresh.{
  revoke_family-FamilyEnded, Renewed, RefreshOutcome, unknown, copied, over, shut_out, collided,
  renewed,
}

-- The rotated row is found by its id.
find-marked :
    (now : ℕ) (p : RefreshSession → Bool) (s : RefreshSession) (ss : List RefreshSession)
    → Pairwise Apart ss
    → find p ss ≡ some s
    → find
        (λ (t : RefreshSession). t.id == s.id)
        (update_where (λ (t : RefreshSession). t.id == s.id) (rotated_row now) ss)
      ≡ some (rotated_row now s)
find-marked now p s [] v e = absurd (ground arith)
find-marked now p s (y ∷ ys) v e = elim (Bool-cases (p y)) [
  | inl t ↦ ground arith
  | inr f ↦
      let later : find p ys ≡ some s = rw f at e in
      ground (arith, find-All (Apart y) p ys v.0 later, find-marked now p s ys v.1 later)
]

-- Marking a row as rotated changes neither identifiers nor tokens.
any-marked :
    (now marked_id id hash : ℕ) (ss : List RefreshSession)
    → any
        (λ (t : RefreshSession). (t.id == id) || (t.token_hash == hash))
        (update_where (λ (t : RefreshSession). t.id == marked_id) (rotated_row now) ss)
      ≡ any (λ (t : RefreshSession). (t.id == id) || (t.token_hash == hash)) ss
any-marked now marked_id id hash [] = refl
any-marked now marked_id id hash (s ∷ ss) = ground (arith, any-marked now marked_id id hash ss)

is_active_status : (status : AccountStatus) → is_active status ≡ true → status ≡ active
is_active_status status e = ground arith

module _ (c : Crypto) (now : ℕ) (r : Random) (token : ℕ) (db : Db) where
  abbrev Replies : Option Outcome × Db → Type 0
  Replies o = RefreshOutcome c now r token db (refresh_outcome c r o)

  abbrev next_hash : ℕ
  next_hash = c.sha256 r.token

  abbrev next_session : RefreshSession → RefreshSession
  next_session s = continuation r.id next_hash (rotated_row now s)

  next_session-Renewed :
      (s : RefreshSession)
      → any (is_taken_by (next_session s)) (mark_rotated now s.id db).sessions ≡ false
      → Renewed now r.id next_hash s db (record (mark_rotated now s.id db) {
        sessions = next_session s ∷ (mark_rotated now s.id db).sessions;
      })
  next_session-Renewed s f = record {
    next = next_session s;
    same_family = refl;
    same_user = refl;
    same_expiry = refl;
    same_step_up = refl;
    new_id = refl;
    new_hash = refl;
    usable = refl;
    free = f;
    sessions = refl;
    users = refl;
  }

  rotate_row-outcome :
      (s : RefreshSession) (u : UserRow)
      → SessionsValid db
      → find_session (c.sha256 token) db ≡ some s
      → find_user s.user_id db ≡ some u
      → is_usable s ≡ true
      → leb s.expires_at now ≡ false
      → u.status ≡ active
      → u.must_change_password ≡ false
      → Replies (rotate_row now r.id next_hash (locked now s u) db)
  rotate_row-outcome s u v found user usable unexpired is_open unflagged =
      rw (find-marked now _ s db.sessions v found)
        (elim (Bool-cases
          (any (is_taken_by (next_session s)) (mark_rotated now s.id db).sessions)) [
            | inl t ↦
                rw t (
                  collided s found usable
                    (sym (any-marked now s.id r.id next_hash db.sessions) ∙ t))
            | inr f ↦
                rw (f, user)
                  (renewed s u found user usable unexpired is_open unflagged _
                    (next_session-Renewed s f))
          ])

  refresh_row-outcome :
      (s : RefreshSession) (u : UserRow)
      → SessionsValid db
      → find_session (c.sha256 token) db ≡ some s
      → find_user s.user_id db ≡ some u
      → Replies (refresh_row now r.id next_hash (locked now s u) db)
  refresh_row-outcome s u v found user = elim (Bool-cases (is_some s.rotated_at)) [
    | inl t ↦ rw t (copied s found t _ (revoke_family-FamilyEnded now s.family_id db))
    | inr f ↦ elim (Bool-cases (is_some s.revoked_at || leb s.expires_at now)) [
      | inl t ↦ rw (f, t) (over s found f t)
      | inr g ↦ elim (Bool-cases (is_active u.status)) [
        | inr k ↦
            rw (f, g, k)
              (shut_out s u found user (ground arith) (code_for_status u.status)
                (inl ((λ e. ground arith), refl)) _ (revoke_family-FamilyEnded now s.family_id db))
        | inl k ↦ elim (Bool-cases u.must_change_password) [
          | inl t ↦
              rw (f, g, k, t)
                (shut_out s u found user (ground arith) password_change_required
                  (inr (is_active_status u.status k, t, refl)) _
                  (revoke_family-FamilyEnded now s.family_id db))
          | inr t ↦
              rw (f, g, k, t)
                (rotate_row-outcome s u v found user (ground arith) (ground arith)
                  (is_active_status u.status k) t)
        ]
      ]
    ]
  ]

  -- A presented token is unknown; or was rotated, and its whole family is revoked; or is revoked or
  -- expired, and nothing is written; or its account may not sign in, and its family is revoked
  -- with the status's error; or it is replaced by one usable session of the same sign-in, whose
  -- owner is active; or the new identifier or the new token is already a session's, and
  -- nothing is written.
  pub refresh-RefreshOutcome :
      SessionsValid db → RefreshOutcome c now r token db (refresh c now r (some token) db)
  unfolding refresh
  refresh-RefreshOutcome v = elim (Option-cases (find_session (c.sha256 token) db)) [
    | inl e ↦ rw e (unknown (rw e refl))
    | inr (s, e) ↦ elim (Option-cases (find_user s.user_id db)) [
      | inl n ↦ rw (e, n) (unknown (rw (e, n) refl))
      | inr (u, k) ↦ rw (e, k) (refresh_row-outcome s u v e k)
    ]
  ]
