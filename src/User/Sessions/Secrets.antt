-- ===== src/User/Sessions/Secrets.antt =====
-- user-service/src/auth/sessions.service.ts and auth/emailed-link.ts: what a new password ends.
use foc_app.Common.{
  ℕ, Bool, true, false, not, some, List, [], ◌∷◌, ◌==◌, filter, any, is_some, update_where, All,
  Pairwise, ◌≡◌, ◌≢◌, inl, inr, refl, subst, arith, Bool-cases,
}
use foc_app.User.Accounts.{
  UserRow, LinkToken, RefreshSession, Db, has_password, with_password, is_unused_of,
}
use foc_app.User.Sessions.{unrevoked_of, revoked_row}

-- The primary key of `users`.
abbrev pub UsersValid : Db → Type 0
UsersValid db = Pairwise (λ (u v : UserRow). u.id ≢ v.id) db.users

-- The account has this password, not a bootstrap one, and no session, and no link that could set
-- another; no other account and no other account's session has changed.
pub record PasswordSet (user_id password_hash : ℕ) (db db' : Db) : Type 0 where
  pub password :
      All
        (λ (u : UserRow).
          u.id ≡ user_id
          → (u.password_hash ≡ some password_hash) × (u.must_change_password ≡ false))
        db'.users
  pub sessions_ended :
      All (λ (s : RefreshSession). s.user_id ≡ user_id → is_some s.revoked_at ≡ true) db'.sessions
  pub links_used :
      All
        (λ (t : LinkToken). t.user_id ≡ user_id → is_some t.consumed_at ≡ true)
        db'.password_reset_tokens
  pub other_users :
      filter (λ (u : UserRow). not (u.id == user_id)) db'.users
      ≡ filter (λ (u : UserRow). not (u.id == user_id)) db.users
  pub other_sessions :
      filter (λ (s : RefreshSession). not (s.user_id == user_id)) db'.sessions
      ≡ filter (λ (s : RefreshSession). not (s.user_id == user_id)) db.sessions

pub revoked_all :
    (now user_id : ℕ) (ss : List RefreshSession)
    → All
        (λ (s : RefreshSession). s.user_id ≡ user_id → is_some s.revoked_at ≡ true)
        (update_where (unrevoked_of user_id) (revoked_row now) ss)
revoked_all now user_id [] = tt
revoked_all now user_id (s ∷ ss) = (ground arith, revoked_all now user_id ss)

pub other_owners :
    (now user_id : ℕ) (ss : List RefreshSession)
    → filter
        (λ (s : RefreshSession). not (s.user_id == user_id))
        (update_where (unrevoked_of user_id) (revoked_row now) ss)
      ≡ filter (λ (s : RefreshSession). not (s.user_id == user_id)) ss
other_owners now user_id [] = refl
other_owners now user_id (s ∷ ss) = ground (arith, other_owners now user_id ss)

pub no_unused :
    (user_id : ℕ) (ts : List LinkToken)
    → All
        (λ (t : LinkToken). t.user_id ≡ user_id → is_some t.consumed_at ≡ true)
        (filter (λ t. not (is_unused_of user_id t)) ts)
no_unused user_id [] = tt
no_unused user_id (t ∷ ts) = ground (arith, no_unused user_id ts)

-- An UPDATE of the account's row leaves the other accounts alone.
pub other_accounts :
    (user_id : ℕ) (p : UserRow → Bool) (f : UserRow → UserRow)
    → ((u : UserRow) → p u ≡ true → (u.id ≡ user_id) × ((f u).id ≡ user_id))
    → (us : List UserRow)
    → filter (λ (u : UserRow). not (u.id == user_id)) (update_where p f us)
      ≡ filter (λ (u : UserRow). not (u.id == user_id)) us
other_accounts user_id p f same [] = refl
other_accounts user_id p f same (u ∷ us) =
    ground (arith, same u, other_accounts user_id p f same us)

abbrev pub HasPassword : (user_id password_hash : ℕ) → UserRow → Type 0
HasPassword user_id h u =
    u.id ≡ user_id → (u.password_hash ≡ some h) × (u.must_change_password ≡ false)

others_keep :
    (user_id old new : ℕ) (us : List UserRow)
    → All (λ (v : UserRow). user_id ≢ v.id) us
    → All (HasPassword user_id new) (update_where (has_password user_id old) (with_password new) us)
others_keep user_id old new [] h = tt
others_keep user_id old new (u ∷ us) h = (ground arith, others_keep user_id old new us h.1)

any_id :
    (user_id old : ℕ) (us : List UserRow) (u : UserRow)
    → All (λ (v : UserRow). u.id ≢ v.id) us
    → any (has_password user_id old) us ≡ true
    → u.id ≢ user_id
any_id user_id old [] u h t = λ e. ground arith
any_id user_id old (v ∷ us) u h t = λ e. ground (arith, any_id user_id old us u)

-- The compare-and-swap sets the password of the account.
pub replaced_password :
    (user_id old new : ℕ) (us : List UserRow)
    → Pairwise (λ (u v : UserRow). u.id ≢ v.id) us
    → any (has_password user_id old) us ≡ true
    → All (HasPassword user_id new) (update_where (has_password user_id old) (with_password new) us)
replaced_password user_id old new [] v t = tt
replaced_password user_id old new (u ∷ us) v t = elim (Bool-cases (has_password user_id old u)) [
  | inl e ↦
      let here : u.id ≡ user_id = ground arith in
      (
        ground arith,
        others_keep user_id old new us
            (subst (λ (i : ℕ). All (λ (w : UserRow). i ≢ w.id) us) here v.0),
      )
  | inr e ↦
      let rest : any (has_password user_id old) us ≡ true = rw e at t in
      let other = any_id user_id old us u v.0 rest in
      (ground arith, replaced_password user_id old new us v.1 rest)
]

pub set_password_all :
    (user_id new : ℕ) (us : List UserRow)
    → All
        (HasPassword user_id new)
        (update_where (λ (u : UserRow). u.id == user_id) (with_password new) us)
set_password_all user_id new [] = tt
set_password_all user_id new (u ∷ us) = (ground arith, set_password_all user_id new us)

module _ {ℓ} {A : Type ℓ} where
  -- An UPDATE that no row fits does nothing.
  pub update_none :
      (p : A → Bool) (f : A → A) (xs : List A) → any p xs ≡ false → update_where p f xs ≡ xs
  update_none p f [] e = refl
  update_none p f (x ∷ xs) e = ground (arith, update_none p f xs)
