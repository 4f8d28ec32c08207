-- ===== src/User/Sessions/Calls.antt =====
-- user-service/src/auth/sessions.service.ts: sequences of calls of `SessionsService`, with whatever the
-- other parts of the service do to the accounts between them, and what a call does to the sessions.
use foc_app.Common.{
  ℕ, Bool, true, false, Option, some, List, [], ◌∷◌, ◌==◌, find, update_where, All, ◌≡◌,
}
use foc_app.User.Accounts.{RefreshSession, UserRow, LinkToken, Db}
use foc_app.User.Sessions.{inserted, insert_session, rotate, mark_rotated, revoke_all_for_user}
use foc_app.User.Sessions.Service.{Crypto, Random, login, refresh}
use foc_app.User.Sessions.Passwords.{change_password, confirm_password_reset, step_up, logout}
use foc_app.User.Sessions.Rows.{Withdraws, is_usable}

-- A call, with its time, its random values and what it read before it hashed.
pub data Call : Type 0 where
  signs_in : (now : ℕ) → Random → (raw_email password : ℕ) → (seen : Db) → Call
  refreshes : (now : ℕ) → Random → Option ℕ → Call
  changes_password :
      (now salt : ℕ) (bootstrap : Option ℕ) (raw_email current next : ℕ) (seen : Db) → Call
  resets_password :
      (now salt : ℕ) (bootstrap : Option ℕ) (token password correlation_id : ℕ) (seen : Db) → Call
  steps_up : (now user_id session_id password : ℕ) (seen : Db) → Call
  signs_out : (now : ℕ) → Option ℕ → Call
  revokes_sessions : (now user_id : ℕ) → Call
  changes_accounts :
      List UserRow → (activation_tokens password_reset_tokens : List LinkToken) → Call

unfoldable pub perform : Crypto → Call → Db → Db
perform c (signs_in now r e p seen) db = (login c now r e p seen db).1
perform c (refreshes now r token) db = (refresh c now r token db).1
perform c (changes_password now salt b e p q seen) db =
    (change_password c now salt b e p q seen db).1
perform c (resets_password now salt b t p corr seen) db =
    (confirm_password_reset c now salt b t p corr seen db).1
perform c (steps_up now u s p seen) db = (step_up c now u s p seen db).1
perform c (signs_out now token) db = logout c now token db
perform c (revokes_sessions now u) db = revoke_all_for_user now u db
perform c (changes_accounts us links resets) db = record db {
  users = us;
  activation_tokens = links;
  password_reset_tokens = resets;
}

unfoldable pub run : Crypto → List Call → Db → Db
run c [] db = db
run c (x ∷ xs) db = run c xs (perform c x db)

-- `randomUUID` gives a sign-in a family that no session is in.
abbrev pub NewFamily : Call → Db → Type 0
NewFamily (signs_in now r e p seen) db = All (λ s. (s.family_id == r.family_id) ≡ false) db.sessions
NewFamily (refreshes now r token) db = Unit
NewFamily (changes_password now salt b e p q seen) db = Unit
NewFamily (resets_password now salt b t p corr seen) db = Unit
NewFamily (steps_up now u s p seen) db = Unit
NewFamily (signs_out now token) db = Unit
NewFamily (revokes_sessions now u) db = Unit
NewFamily (changes_accounts us links resets) db = Unit

unfoldable pub NewFamilies : Crypto → List Call → Db → Type 0
NewFamilies c [] db = Unit
NewFamilies c (x ∷ xs) db = NewFamily x db × NewFamilies c xs (perform c x db)

-- What a call does to the sessions.
pub data Change (db db' : Db) : Type 0 where
  kept : db'.sessions ≡ db.sessions → Change db db'
  withdrawn :
      (p : RefreshSession → Bool) (f : RefreshSession → RefreshSession)
      → ((s : RefreshSession) → Withdraws s (f s))
      → db'.sessions ≡ update_where p f db.sessions
      → Change db db'
  started :
      (new : RefreshSession)
      → All (λ s. (s.family_id == new.family_id) ≡ false) db.sessions
      → insert_session new db ≡ inserted db'
      → Change db db'
  continued :
      (now id token_hash : ℕ) (p : RefreshSession → Bool) (s : RefreshSession)
      → find p db.sessions ≡ some s
      → is_usable s ≡ true
      → rotate id token_hash s.id (mark_rotated now s.id db) ≡ inserted db'
      → Change db db'
