-- ===== src/User/Examples/SignIns.antt =====
-- user-service/src/auth/sessions.service.ts: one administrator with two sessions, of which one was
-- exchanged, and a mailed link.
use foc_app.Common.{
  ◌+◌, ◌*◌, ◌/◌, ◌≡◌, ◌≢◌, true, false, none, some, List, [], ◌∷◌, ◌==◌, refl, arith,
}
use foc_app.User.Accounts.{active, admin, UserRow, LinkToken, RefreshSession, Db}
use foc_app.User.Sessions.Service.{
  Crypto, Random, IssuedSession, Refusal, raised, returned, login, refresh,
}
use foc_app.User.Sessions.Passwords.{change_password, confirm_password_reset}
use foc_app.User.Sessions.Rows.{SessionsValid}
use foc_app.User.Sessions.Calls.{Call, refreshes, signs_in, signs_out, run, NewFamilies, perform}
use foc_app.User.Sessions.Families.{run-SessionsValid}
use foc_app.User.Sessions.Refresh.{RefreshOutcome}
use foc_app.User.Sessions.Rotation.{refresh-RefreshOutcome}
use foc_app.User.Sessions.Once.{refresh_once}
use foc_app.User.Sessions.Secrets.{UsersValid, PasswordSet}
use foc_app.User.Sessions.Credentials.{PasswordChange, change_password-PasswordChange}
use foc_app.User.Sessions.SignIn.{stale_sign_in, SignIn}
use foc_app.User.Sessions.Resets.{PasswordReset, confirm_password_reset-PasswordReset}

abbrev crypto : Crypto
crypto = record {
  sha256 = λ token. token + 1000;
  verify_password = λ encoded password. (encoded / 100) == password;
  hash_password = λ salt password. password * 100 + salt;
  sign = λ sub sid. sub + sid;
  email_key = λ raw. raw;
}

-- The password is 5.
abbrev owner : UserRow
owner = record {
  id = 1;
  email = 40;
  password_hash = some 501;
  status = active;
  is_seeded_admin = true;
  must_change_password = false;
  activated_at = some 3;
  display_name = 65 ∷ [];
  roles = admin ∷ [];
}

-- The session of token 7, in family 9.
abbrev current : RefreshSession
current = record {
  id = 12;
  family_id = 9;
  user_id = 1;
  token_hash = 1007;
  expires_at = 900;
  rotated_at = none;
  revoked_at = none;
  stepped_up_at = some 60;
}

abbrev exchanged : RefreshSession
exchanged = record current { id = 11; token_hash = 1006; rotated_at = some 50 }

abbrev link : LinkToken
link = record { user_id = 1; token_hash = 1020; expires_at = 500; consumed_at = none }

abbrev db : Db
db = record {
  users = owner ∷ [];
  sessions = current ∷ exchanged ∷ [];
  activation_tokens = [];
  password_reset_tokens = link ∷ [];
  outbox = [];
}

abbrev random : Random
random = record { id = 13; family_id = 10; token = 8 }

abbrev again : Random
again = record { id = 14; family_id = 11; token = 9 }

db-SessionsValid : SessionsValid db
db-SessionsValid = ground arith

db-UsersValid : UsersValid db
db-UsersValid = (tt, tt)

abbrev calls : List Call
calls = refreshes 100 random (some 7) ∷ signs_in 110 again 40 5 db ∷ signs_out 120 (some 8) ∷ []

calls-NewFamilies : NewFamilies crypto calls db
unfolding NewFamilies perform refresh
calls-NewFamilies = (tt, ((refl, (refl, (refl, tt))), (tt, tt)))

run-SessionsValid_example : SessionsValid (run crypto calls db)
run-SessionsValid_example = run-SessionsValid crypto calls db db-SessionsValid calls-NewFamilies

refresh-RefreshOutcome_example :
    RefreshOutcome crypto 100 random 6 db (refresh crypto 100 random (some 6) db)
refresh-RefreshOutcome_example = refresh-RefreshOutcome crypto 100 random 6 db db-SessionsValid

-- Token 6 was exchanged before: its family is revoked.
copied_runs : (refresh crypto 100 random (some 6) db).0 ≡ raised Refusal.refresh_token_reused
unfolding refresh
copied_runs = refl

abbrev issued : IssuedSession
issued = record {
  access_token = 14;
  refresh_token = 8;
  user = record { id = 1; display_name = 65 ∷ []; roles = admin ∷ []; status = active };
}

refresh_runs : (refresh crypto 100 random (some 7) db).0 ≡ returned issued
unfolding refresh
refresh_runs = refl

abbrev later_calls : List Call
later_calls = signs_in 110 again 40 5 db ∷ []

later_calls-NewFamilies : NewFamilies crypto later_calls (refresh crypto 100 random (some 7) db).1
unfolding NewFamilies refresh
later_calls-NewFamilies = ((refl, (refl, (refl, tt))), tt)

refresh_once_example :
    (refresh crypto 130 again
      (some 7)
      (run crypto later_calls (refresh crypto 100 random (some 7) db).1)).0
    ≢ returned issued
refresh_once_example =
    refresh_once crypto 100 random 7 db issued db-SessionsValid refresh_runs later_calls
      later_calls-NewFamilies 130 again issued

change_password-PasswordChange_example :
    PasswordChange crypto 2
      (some 77)
      40
      5
      6
      db
      db
      (change_password crypto 100 2 (some 77) 40 5 6 db db)
change_password-PasswordChange_example =
    change_password-PasswordChange crypto 100 2 (some 77) 40 5 6 db db db-UsersValid

change_runs : (change_password crypto 100 2 (some 77) 40 5 6 db db).0 ≡ returned tt
unfolding change_password
change_runs = refl

-- The tables once the password is 6.
abbrev changed_db : Db
changed_db = record {
  users = record owner { password_hash = some 602 } ∷ [];
  sessions =
      record current { revoked_at = some 100 } ∷ record exchanged { revoked_at = some 100 } ∷ [];
  activation_tokens = [];
  password_reset_tokens = [];
  outbox = [];
}

changed_db-PasswordSet : PasswordSet 1 602 db changed_db
changed_db-PasswordSet = record {
  password = ground arith;
  sessions_ended = ground arith;
  links_used = tt;
  other_users = refl;
  other_sessions = refl;
}

stale_sign_in_example :
    (e : Refusal) × (login crypto 110 again 40 5 db changed_db ≡ (raised e, changed_db))
stale_sign_in_example =
    stale_sign_in crypto 110 again 40 5 db db changed_db
      (record { user = owner; password_hash = 501 }) 602 changed_db-PasswordSet refl
      (λ e. ground arith)

confirm_password_reset-PasswordReset_example :
    PasswordReset crypto 100 3 none 20 6 db db
      (confirm_password_reset crypto 100 3 none 20 6 1 db db)
confirm_password_reset-PasswordReset_example =
    confirm_password_reset-PasswordReset crypto 100 3 none 20 6 1 db db

reset_runs : (confirm_password_reset crypto 100 3 none 20 6 1 db db).0 ≡ returned tt
unfolding confirm_password_reset
reset_runs = refl
