-- ===== src/User/Sessions/Families.antt =====
-- user-service/src/auth/sessions.service.ts: what holds of the sessions after any calls.
use foc_app.Common.{
  ℕ, Bool, true, false, Option, none, some, List, [], ◌∷◌, ◌==◌, any, update_where, All, ◌≡◌, ◌≢◌,
  inl, inr, refl, subst, arith, Bool-cases, All-implies, update_where-All,
}
use foc_app.User.Accounts.{RefreshSession, Db}
use foc_app.User.Sessions.{
  insert_session, insert_continuation, continuation, is_taken_by, rotate, mark_rotated, rotated_row,
}
use foc_app.User.Sessions.Service.{Crypto}
use foc_app.User.Sessions.Rows.{
  SessionsValid, Withdraws, Beside, WhenInserted, is_usable, update_where-Apart,
  insert_session-Apart, rotate-Apart,
}
use foc_app.User.Sessions.Calls.{
  Call, perform, run, NewFamilies, Change, kept, withdrawn, started, continued,
}
use foc_app.User.Sessions.Changes.{perform-Change, rotated-Withdraws}

pub Change-SessionsValid : (db db' : Db) → Change db db' → SessionsValid db → SessionsValid db'
Change-SessionsValid db db' (kept e) v = rw e v
Change-SessionsValid db db' (withdrawn p f w e) v = rw e (update_where-Apart p f w db.sessions v)
Change-SessionsValid db db' (started new family e) v = subst (WhenInserted SessionsValid) e (
    insert_session-Apart new db v
      (All-implies _ (Beside new) (λ s k. ground arith) db.sessions family))
Change-SessionsValid db db' (continued now id h p s found usable e) v =
    subst (WhenInserted SessionsValid) e (rotate-Apart now id h p s db v found usable)

-- Whatever calls are made and whatever happens to the accounts, two sessions of one sign-in have
-- the same account and the same expiry, and at most one of them can be refreshed.
pub run-SessionsValid :
    (c : Crypto) (xs : List Call) (db : Db)
    → SessionsValid db
    → NewFamilies c xs db
    → SessionsValid (run c xs db)
unfolding run NewFamilies
run-SessionsValid c [] db v f = v
run-SessionsValid c (x ∷ xs) db v f =
    run-SessionsValid c xs (perform c x db)
      (Change-SessionsValid db (perform c x db) (perform-Change c x db f.0) v) f.1

-- A token is known and can no longer be refreshed.
abbrev pub IsSpent : (token_hash : ℕ) → Db → Type 0
IsSpent h db =
    (any (λ (s : RefreshSession). s.token_hash == h) db.sessions ≡ true)
    × All (λ (s : RefreshSession). s.token_hash ≡ h → is_usable s ≡ false) db.sessions

pub any-withdrawn :
    (h : ℕ) (p : RefreshSession → Bool) (f : RefreshSession → RefreshSession)
    → ((s : RefreshSession) → Withdraws s (f s))
    → (ss : List RefreshSession)
    → any (λ (s : RefreshSession). s.token_hash == h) (update_where p f ss)
      ≡ any (λ (s : RefreshSession). s.token_hash == h) ss
any-withdrawn h p f w [] = refl
any-withdrawn h p f w (s ∷ ss) = ground (arith, w s, any-withdrawn h p f w ss)

withdrawn-IsSpent :
    (h : ℕ) (p : RefreshSession → Bool) (f : RefreshSession → RefreshSession)
    → ((s : RefreshSession) → Withdraws s (f s))
    → (db db' : Db) → db'.sessions ≡ update_where p f db.sessions
    → IsSpent h db
    → IsSpent h db'
withdrawn-IsSpent h p f w db db' e spent = rw e (
  rw (any-withdrawn h p f w db.sessions) spent.0,
  update_where-All _ (λ (s : RefreshSession). s.token_hash ≡ h → is_usable s ≡ false) p f
      (λ s k. ground (arith, w s)) db.sessions spent.1,
)

pub free-hash :
    (h : ℕ) (new : RefreshSession) (ss : List RefreshSession)
    → any (is_taken_by new) ss ≡ false
    → any (λ (s : RefreshSession). s.token_hash == h) ss ≡ true
    → new.token_hash ≢ h
free-hash h new [] f t = λ e. ground arith
free-hash h new (s ∷ ss) f t = λ e. ground (arith, free-hash h new ss)

-- The unique token hash keeps a known token from coming back.
insert_session-IsSpent :
    (h : ℕ) (new : RefreshSession) (db : Db)
    → IsSpent h db
    → WhenInserted (IsSpent h) (insert_session new db)
insert_session-IsSpent h new db spent = elim (Bool-cases (any (is_taken_by new) db.sessions)) [
  | inl t ↦ rw t tt
  | inr f ↦
      let other = free-hash h new db.sessions f spent.0 in
      rw f (ground arith, ((λ e. absurd (other e)), spent.1))
]

insert_continuation-IsSpent :
    (h id token_hash : ℕ) (found : Option RefreshSession) (db : Db)
    → IsSpent h db
    → WhenInserted (IsSpent h) (insert_continuation id token_hash found db)
insert_continuation-IsSpent h id token_hash none db spent = tt
insert_continuation-IsSpent h id token_hash (some s) db spent =
    insert_session-IsSpent h (continuation id token_hash s) db spent

rotate-IsSpent :
    (h now id token_hash continues : ℕ) (db : Db)
    → IsSpent h (mark_rotated now continues db)
    → WhenInserted (IsSpent h) (rotate id token_hash continues (mark_rotated now continues db))
rotate-IsSpent h now id token_hash continues db spent =
    insert_continuation-IsSpent h id token_hash _ (mark_rotated now continues db) spent

Change-IsSpent : (h : ℕ) (db db' : Db) → Change db db' → IsSpent h db → IsSpent h db'
Change-IsSpent h db db' (kept e) spent = rw e spent
Change-IsSpent h db db' (withdrawn p f w e) spent = withdrawn-IsSpent h p f w db db' e spent
Change-IsSpent h db db' (started new family e) spent =
    subst (WhenInserted (IsSpent h)) e (insert_session-IsSpent h new db spent)
Change-IsSpent h db db' (continued now id k p s found usable e) spent =
    subst (WhenInserted (IsSpent h)) e (
      rotate-IsSpent h now id k s.id db (
        withdrawn-IsSpent h (λ (t : RefreshSession). t.id == s.id) (rotated_row now)
          (rotated-Withdraws now) db (mark_rotated now s.id db) refl spent))

pub run-IsSpent :
    (h : ℕ) (c : Crypto) (xs : List Call) (db : Db)
    → NewFamilies c xs db
    → IsSpent h db
    → IsSpent h (run c xs db)
unfolding run NewFamilies
run-IsSpent h c [] db f spent = spent
run-IsSpent h c (x ∷ xs) db f spent =
    run-IsSpent h c xs (perform c x db) f.1
      (Change-IsSpent h db (perform c x db) (perform-Change c x db f.0) spent)
