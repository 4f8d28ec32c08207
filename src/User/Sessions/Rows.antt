-- ===== src/User/Sessions/Rows.antt =====
-- The sessions of one sign-in: user-service/src/auth/sessions.repository.ts keeps their account and
-- their expiry, and lets one of them refresh at a time.
use foc_app.Common.{
  ℕ, ◌&&◌, Bool, true, false, not, Option, none, some, List, [], ◌∷◌, ◌==◌, find, any, is_some,
  update_where, updated, Pairwise, All, ◌≡◌, ◌≢◌, ◌⊎◌, inl, inr, refl, arith, update_where-All,
  update_where-Pairwise, All-implies, find-Pairwise, find-All, any-none, Bool-cases,
}
use foc_app.User.Accounts.{RefreshSession, Db}
use foc_app.User.Sessions.{
  Inserted, violated, skipped, inserted, is_taken_by, insert_session, continuation,
  insert_continuation, rotate, rotated_row, mark_rotated,
}

-- The session's token would refresh.
abbrev pub is_usable : RefreshSession → Bool
is_usable s = not (is_some s.rotated_at) && not (is_some s.revoked_at)

-- Two sessions have their own keys; in one family they share the account and the expiry, and at
-- most one of them is usable.
abbrev pub Apart : RefreshSession → RefreshSession → Type 0
Apart s t =
    (s.id ≢ t.id)
    × (s.token_hash ≢ t.token_hash)
    × (s.family_id ≡ t.family_id
        → (s.user_id ≡ t.user_id)
          × (s.expires_at ≡ t.expires_at)
          × ((is_usable s && is_usable t) ≡ false))

abbrev pub SessionsValid : Db → Type 0
SessionsValid db = Pairwise Apart db.sessions

-- An update of a session that leaves its keys alone and does not make it usable.
abbrev pub Withdraws : RefreshSession → RefreshSession → Type 0
Withdraws s s' =
    (s'.id ≡ s.id)
    × (s'.token_hash ≡ s.token_hash)
    × (s'.family_id ≡ s.family_id)
    × (s'.user_id ≡ s.user_id)
    × (s'.expires_at ≡ s.expires_at)
    × (is_usable s ≡ false → is_usable s' ≡ false)

-- What the keys do not settle about a new row and an old one.
abbrev pub Beside : RefreshSession → RefreshSession → Type 0
Beside new s =
    new.family_id ≡ s.family_id
    → (new.user_id ≡ s.user_id)
      × (new.expires_at ≡ s.expires_at)
      × ((is_usable new && is_usable s) ≡ false)

pub Apart-flip : (s t : RefreshSession) → Apart s t → Apart t s
Apart-flip s t a = ground arith

Apart-Withdraws :
    (s s' t t' : RefreshSession) → Withdraws s s' → Withdraws t t' → Apart s t → Apart s' t'
Apart-Withdraws s s' t t' ws wt a = ground arith

-- An UPDATE that withdraws rows keeps the sessions valid.
pub update_where-Apart :
    (p : RefreshSession → Bool) (f : RefreshSession → RefreshSession)
    → ((s : RefreshSession) → Withdraws s (f s))
    → (ss : List RefreshSession) → Pairwise Apart ss
    → Pairwise Apart (update_where p f ss)
update_where-Apart p f w ss h =
    update_where-Pairwise Apart p f
      (λ s t a.
        Apart-Withdraws s (updated p f s) t (updated p f t) (ground (arith, w s))
          (ground (arith, w t)) a)
      ss h

fresh-Apart :
    (new : RefreshSession) (ss : List RefreshSession)
    → All (λ s. is_taken_by new s ≡ false) ss
    → All (Beside new) ss
    → All (Apart new) ss
fresh-Apart new [] free beside = tt
fresh-Apart new (s ∷ ss) free beside = (ground arith, fresh-Apart new ss free.1 beside.1)

-- What holds of the tables when a row went in.
abbrev pub WhenInserted : (Db → Type 0) → Inserted → Type 0
WhenInserted P violated = Unit
WhenInserted P skipped = Unit
WhenInserted P (inserted db) = P db

-- A new row that fits beside the others keeps them valid.
pub insert_session-Apart :
    (new : RefreshSession) (db : Db)
    → SessionsValid db
    → All (Beside new) db.sessions
    → WhenInserted SessionsValid (insert_session new db)
insert_session-Apart new db v beside = elim (Bool-cases (any (is_taken_by new) db.sessions)) [
  | inl t ↦ rw t tt
  | inr f ↦ rw f (fresh-Apart new db.sessions (any-none _ db.sessions f) beside, v)
]

-- A session that a rotation has replaced, or another one.
abbrev Replaced : (now : ℕ) → RefreshSession → RefreshSession → Type 0
Replaced now s y = (y ≡ rotated_row now s) ⊎ Apart s y

mark_rotated-Replaced :
    (now : ℕ) (s y : RefreshSession)
    → (y ≡ s) ⊎ Apart s y
    → Replaced now s (updated (λ (t : RefreshSession). t.id == s.id) (rotated_row now) y)
mark_rotated-Replaced now s y (inl e) = inl (ground arith)
mark_rotated-Replaced now s y (inr a) = inr (ground arith)

continuation-Beside :
    (now id token_hash : ℕ) (s y : RefreshSession)
    → is_usable s ≡ true
    → Replaced now s y
    → Beside (continuation id token_hash (rotated_row now s)) y
continuation-Beside now id token_hash s y u (inl e) = ground arith
continuation-Beside now id token_hash s y u (inr a) = ground arith

insert_continuation-Apart :
    (now id token_hash : ℕ) (s : RefreshSession) (found : Option RefreshSession) (db : Db)
    → is_usable s ≡ true
    → SessionsValid db
    → All (Replaced now s) db.sessions
    → ((s' : RefreshSession) → found ≡ some s' → s' ≡ rotated_row now s)
    → WhenInserted SessionsValid (insert_continuation id token_hash found db)
insert_continuation-Apart now id token_hash s none db u v others same = tt
insert_continuation-Apart now id token_hash s (some s') db u v others same =
    insert_session-Apart (continuation id token_hash s') db v (
      All-implies (Replaced now s) (Beside (continuation id token_hash s'))
        (λ y r. rw (same s' refl) (continuation-Beside now id token_hash s y u r)) db.sessions
        others)

-- Rotating a usable session that was found keeps the sessions valid.
pub rotate-Apart :
    (now id token_hash : ℕ) (p : RefreshSession → Bool) (s : RefreshSession) (db : Db)
    → SessionsValid db
    → find p db.sessions ≡ some s
    → is_usable s ≡ true
    → WhenInserted SessionsValid (rotate id token_hash s.id (mark_rotated now s.id db))
rotate-Apart now id token_hash p s db v e u =
    insert_continuation-Apart now id token_hash s _ (mark_rotated now s.id db) u
      (update_where-Apart _ (rotated_row now) (λ t. ground arith) db.sessions v) others
      (λ s' found.
        let both = find-All (Replaced now s) _ (mark_rotated now s.id db).sessions others found in
        ground arith)
  where
    others : All (Replaced now s) (mark_rotated now s.id db).sessions
    others =
        update_where-All _ (Replaced now s) _ (rotated_row now) (mark_rotated-Replaced now s)
          db.sessions (find-Pairwise Apart Apart-flip p db.sessions v e)
