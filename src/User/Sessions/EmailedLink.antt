-- ===== src/User/Sessions/EmailedLink.antt =====
-- user-service/src/auth/emailed-link.ts: what setting the password from a mailed link does.
use foc_app.Common.{
  ℕ, Bool, true, false, not, none, List, [], ◌∷◌, ◌==◌, find, filter, update_where, All, ◌≡◌, ◌⊎◌,
  inl, inr, refl, ap, ◌∙◌, ◌≤◌, arith, Bool-cases, update_where-All,
}
use foc_app.User.Accounts.{
  UserRow, LinkToken, RefreshSession, Db, is_pending, with_password, set_password, activate,
  awaits_activation, mark_activated, is_live_link, consume, is_unused_of,
}
use foc_app.User.Sessions.Passwords.{
  ProvenAccount, activate_pending, announce_activation, set_password_from_emailed_link,
}
use foc_app.User.Sessions.Changes.{activate_pending_sessions}
use foc_app.User.Sessions.Secrets.{
  PasswordSet, revoked_all, other_owners, no_unused, other_accounts, set_password_all, HasPassword,
}

-- Activation writes no password and no other account.
activate_pending_users :
    (now : ℕ) (a : ProvenAccount) (db : Db)
    → ((activate_pending now a db).users ≡ db.users)
      ⊎ ((activate_pending now a db).users
          ≡ update_where (awaits_activation a.user_id) (activate now) db.users)
activate_pending_users now a db = elim (Bool-cases (is_pending a.status)) [
  | inr f ↦ rw f (inl refl)
  | inl t ↦
      rw t (inr (announced (mark_activated now a.user_id db).0 (mark_activated now a.user_id db).1))
]
  where
    announced : (b : Bool) (db' : Db) → (announce_activation now a (b, db')).users ≡ db'.users
    announced false db' = refl
    announced true db' = refl

pub activate_pending_links :
    (now : ℕ) (a : ProvenAccount) (db : Db)
    → (activate_pending now a db).password_reset_tokens ≡ db.password_reset_tokens
activate_pending_links now a db = elim (Bool-cases (is_pending a.status)) [
  | inr f ↦ rw f refl
  | inl t ↦ rw t (announced (mark_activated now a.user_id db).0 (mark_activated now a.user_id db).1)
]
  where
    announced :
        (b : Bool) (db' : Db)
        → (announce_activation now a (b, db')).password_reset_tokens ≡ db'.password_reset_tokens
    announced false db' = refl
    announced true db' = refl

abbrev other_rows : ℕ → List UserRow → List UserRow
other_rows user_id us = filter (λ (u : UserRow). not (u.id == user_id)) us

-- What activation may add to the row that has the password.
activated_password :
    (now h : ℕ) (a : ProvenAccount) (us us' : List UserRow)
    → (us' ≡ us) ⊎ (us' ≡ update_where (awaits_activation a.user_id) (activate now) us)
    → All (HasPassword a.user_id h) us
    → All (HasPassword a.user_id h) us'
activated_password now h a us us' (inl e) k = rw e k
activated_password now h a us us' (inr e) k = rw e (
    update_where-All (HasPassword a.user_id h) (HasPassword a.user_id h)
      (awaits_activation a.user_id) (activate now) (λ u p. ground arith) us k)

activated_others :
    (now : ℕ) (a : ProvenAccount) (us us' : List UserRow)
    → (us' ≡ us) ⊎ (us' ≡ update_where (awaits_activation a.user_id) (activate now) us)
    → other_rows a.user_id us' ≡ other_rows a.user_id us
activated_others now a us us' (inl e) = rw e refl
activated_others now a us us' (inr e) =
    rw e (
      other_accounts a.user_id (awaits_activation a.user_id) (activate now) (λ u k. ground arith)
        us)

-- What an emailed link does to the account and its sessions.
pub emailed_link-PasswordSet :
    (now : ℕ) (a : ProvenAccount) (before db : Db)
    → db.users ≡ before.users
    → db.sessions ≡ before.sessions
    → PasswordSet a.user_id a.password_hash before (set_password_from_emailed_link now a db)
emailed_link-PasswordSet now a before db e k =
    let users = activate_pending_users now a (set_password a.user_id a.password_hash db) in
    let sessions = activate_pending_sessions now a (set_password a.user_id a.password_hash db) in
    record {
      password =
          activated_password now a.password_hash a _ _ users
            (set_password_all a.user_id a.password_hash db.users);
      sessions_ended = revoked_all now a.user_id _;
      links_used = no_unused a.user_id _;
      other_users =
          activated_others now a _ _ users
          ∙ (other_accounts a.user_id (λ (u : UserRow). u.id == a.user_id)
                (with_password a.password_hash) (λ u t. ground arith) db.users
              ∙ ap (other_rows a.user_id) e);
      other_sessions =
          other_owners now a.user_id _
          ∙ ap (filter (λ (s : RefreshSession). not (s.user_id == a.user_id))) (sessions ∙ k);
    }

-- The token works no longer.
abbrev pub IsUsed : (now token_hash : ℕ) → Db → Type 0
IsUsed now h db =
    (later : ℕ) → now ≤ later → find (is_live_link later h) db.password_reset_tokens ≡ none

pub consumed_links :
    (now later h user_id : ℕ) (ts : List LinkToken)
    → now ≤ later
    → find (is_live_link later h) (
        filter
          (λ t. not (is_unused_of user_id t))
          (update_where (is_live_link now h) (consume now) ts))
      ≡ none
consumed_links now later h user_id [] le = refl
consumed_links now later h user_id (t ∷ ts) le =
    ground (arith, consumed_links now later h user_id ts le)
