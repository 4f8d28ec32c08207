-- ===== src/User/Sessions/Once.antt =====
-- user-service/src/auth/sessions.service.ts: a refresh token is good for one refresh.
use foc_app.Common.{
  ℕ, Bool, true, false, some, List, [], ◌∷◌, ◌==◌, find, any, updated, ◌≡◌, ◌≢◌, ◌⊎◌, inl, inr,
  arith, find-All, find-Pairwise, update_where-All,
}
use foc_app.User.Accounts.{RefreshSession, Db}
use foc_app.User.Sessions.{find_session, mark_rotated, rotated_row}
use foc_app.User.Sessions.Service.{Crypto, Random, IssuedSession, Reply, returned, refresh}
use foc_app.User.Sessions.Rows.{Apart, Apart-flip, SessionsValid, is_usable}
use foc_app.User.Sessions.Calls.{Call, run, NewFamilies}
use foc_app.User.Sessions.Changes.{refresh-Change, rotated-Withdraws}
use foc_app.User.Sessions.Families.{
  IsSpent, any-withdrawn, free-hash, run-IsSpent, run-SessionsValid, Change-SessionsValid,
}
use foc_app.User.Sessions.Refresh.{
  Renewed, RefreshOutcome, unknown, copied, over, shut_out, collided, renewed,
}
use foc_app.User.Sessions.Rotation.{refresh-RefreshOutcome}

found_any :
    (p : RefreshSession → Bool) (ss : List RefreshSession) (s : RefreshSession)
    → find p ss ≡ some s
    → any p ss ≡ true
found_any p [] s e = absurd (ground arith)
found_any p (y ∷ ys) s e = ground (arith, found_any p ys s)

-- The rotated session is not usable, and no other one has its token.
rotated_or_other :
    (now h : ℕ) (s y : RefreshSession)
    → s.token_hash ≡ h
    → (y ≡ s) ⊎ Apart s y
    → (updated (λ (t : RefreshSession). t.id == s.id) (rotated_row now) y).token_hash ≡ h
    → is_usable (updated (λ (t : RefreshSession). t.id == s.id) (rotated_row now) y) ≡ false
rotated_or_other now h s y e (inl same) k = ground arith
rotated_or_other now h s y e (inr a) k = ground arith

found_hash :
    (h : ℕ) (ss : List RefreshSession) (s : RefreshSession)
    → find (λ (t : RefreshSession). t.token_hash == h) ss ≡ some s
    → s.token_hash ≡ h
found_hash h [] s e = absurd (ground arith)
found_hash h (y ∷ ys) s e = ground (arith, found_hash h ys s)

mark_rotated-IsSpent :
    (now h : ℕ) (s : RefreshSession) (db : Db)
    → SessionsValid db
    → find_session h db ≡ some s
    → IsSpent h (mark_rotated now s.id db)
mark_rotated-IsSpent now h s db v e = (
  rw (any-withdrawn h _ (rotated_row now) (rotated-Withdraws now) db.sessions)
      (found_any _ db.sessions s e),
  update_where-All (λ y. (y ≡ s) ⊎ Apart s y) _ _ (rotated_row now)
      (λ y. rotated_or_other now h s y (found_hash h db.sessions s e)) db.sessions
      (find-Pairwise Apart Apart-flip _ db.sessions v e),
)

Renewed-IsSpent :
    (now id k h : ℕ) (s : RefreshSession) (db db' : Db)
    → IsSpent h (mark_rotated now s.id db)
    → Renewed now id k s db db'
    → IsSpent h db'
Renewed-IsSpent now id k h s db db' spent n =
    let other = free-hash h n.next (mark_rotated now s.id db).sessions n.free spent.0 in
    rw n.sessions (ground arith, ((λ e. absurd (other e)), spent.1))

-- A token that was exchanged is spent.
returned-IsSpent :
    (c : Crypto) (now : ℕ) (r : Random) (token : ℕ) (db : Db) (i : IssuedSession)
    (o : Reply IssuedSession × Db)
    → SessionsValid db
    → RefreshOutcome c now r token db o
    → o.0 ≡ returned i
    → IsSpent (c.sha256 token) o.1
returned-IsSpent c now r token db i o v (unknown e) k = absurd (ground arith)
returned-IsSpent c now r token db i o v (copied s e t db' ended) k = absurd (ground arith)
returned-IsSpent c now r token db i o v (over s e f t) k = absurd (ground arith)
returned-IsSpent c now r token db i o v (shut_out s u e n t err w db' ended) k =
    absurd (ground arith)
returned-IsSpent c now r token db i o v (collided s' found' fresh taken) k = absurd (ground arith)
returned-IsSpent c now r token db i o v (renewed s u e n t f a m db' next) k =
    Renewed-IsSpent now r.id (c.sha256 r.token) (c.sha256 token) s db db'
      (mark_rotated-IsSpent now (c.sha256 token) s db v e) next

spent_refused :
    (c : Crypto) (now : ℕ) (r : Random) (token : ℕ) (db : Db) (i : IssuedSession)
    (o : Reply IssuedSession × Db)
    → IsSpent (c.sha256 token) db
    → RefreshOutcome c now r token db o
    → o.0 ≢ returned i
spent_refused c now r token db i o spent (unknown e) = λ k. ground arith
spent_refused c now r token db i o spent (copied s e t db' ended) = λ k. ground arith
spent_refused c now r token db i o spent (over s e f t) = λ k. ground arith
spent_refused c now r token db i o spent (shut_out s u e n t err w db' ended) = λ k. ground arith
spent_refused c now r token db i o spent (collided s' found' fresh taken) = λ k. ground arith
spent_refused c now r token db i o spent (renewed s u e n t f a m db' next) = λ k.
    let both =
      find-All (λ (y : RefreshSession). y.token_hash ≡ c.sha256 token → is_usable y ≡ false) _
        db.sessions spent.1 e in
    ground arith

-- A refresh token that was exchanged for a session is never exchanged again, whatever calls are
-- made in between and whatever happens to the accounts.
pub refresh_once :
    (c : Crypto) (now : ℕ) (r : Random) (token : ℕ) (db : Db) (i : IssuedSession)
    → SessionsValid db
    → (refresh c now r (some token) db).0 ≡ returned i
    → (xs : List Call) → NewFamilies c xs (refresh c now r (some token) db).1
    → (later : ℕ) (r' : Random) (j : IssuedSession)
    → (refresh c later r' (some token) (run c xs (refresh c now r (some token) db).1)).0
      ≢ returned j
refresh_once c now r token db i v e xs f later r' j =
    spent_refused c later r' token after j (refresh c later r' (some token) after)
      (run-IsSpent (c.sha256 token) c xs (refresh c now r (some token) db).1 f (
        returned-IsSpent c now r token db i (refresh c now r (some token) db) v
          (refresh-RefreshOutcome c now r token db v) e))
      (refresh-RefreshOutcome c later r' token after (run-SessionsValid c xs _ once f))
  where
    after : Db
    after = run c xs (refresh c now r (some token) db).1

    once : SessionsValid (refresh c now r (some token) db).1
    once = Change-SessionsValid db _ (refresh-Change c now r (some token) db) v
