-- ===== src/Users/Emails/Runs.antt =====
-- Sequences of requests that write accounts.
use novax_backend.Common.{ℕ, Bool, List, [], ◌∷◌}
use novax_backend.Common.Text.{Text}
use novax_backend.Schema.Db.{Db}
use novax_backend.Accounts.Sessions.{Bcrypt, Jwt, Draws}
use novax_backend.Accounts.Codes.{OtpRequest, request_otp}
use novax_backend.Accounts.Signup.{Register, register}
use novax_backend.Accounts.Revocation.{delete_own_account}
use novax_backend.Users.{UpdateProfile, update_profile}
use novax_backend.Users.Emails.{AreDistinct}
use novax_backend.Users.Emails.Requests.{
  update_profile-AreDistinct, register-AreDistinct, delete-AreDistinct, request-AreDistinct,
}

-- The requests that write an account.
pub data Call : Type 0 where
  registers : Register → (new_user : ℕ) → Draws → Call
  asks_for_code : OtpRequest → (new_user : ℕ) → Text → Draws → Call
  edits_profile : (user : ℕ) → UpdateProfile → Call
  deletes_account : (reachable : Bool) (ttl_ms user now : ℕ) → Call

module _ (bcrypt : Bcrypt) (jwt : Jwt) where
  unfoldable pub run : Call → Db → Db
  run (Call.registers dto user draws) db = (register bcrypt jwt dto user draws db).1
  run (Call.asks_for_code dto user code draws) db = (request_otp bcrypt dto user code draws db).1
  run (Call.edits_profile user dto) db = (update_profile user dto db).1
  run (Call.deletes_account reachable ttl_ms user now) db =
      (delete_own_account reachable ttl_ms user now db).1

  unfoldable pub run_all : List Call → Db → Db
  unfolding run
  run_all [] db = db
  run_all (call ∷ calls) db = run_all calls (run call db)

  run-AreDistinct : (call : Call) (db : Db) → AreDistinct db.users → AreDistinct (run call db).users
  unfolding run
  run-AreDistinct (Call.registers dto user draws) db =
      register-AreDistinct bcrypt jwt dto user draws db
  run-AreDistinct (Call.asks_for_code dto user code draws) db =
      request-AreDistinct bcrypt dto user code draws db
  run-AreDistinct (Call.edits_profile user dto) db = update_profile-AreDistinct user dto db
  run-AreDistinct (Call.deletes_account reachable ttl_ms user now) db =
      delete-AreDistinct reachable ttl_ms user now db

  -- Whatever registrations, requests for codes, edits of profiles and deletions are made, one after
  -- the other, no two accounts ever have the same e-mail address.
  pub run_all-AreDistinct :
      (calls : List Call) (db : Db) → AreDistinct db.users → AreDistinct (run_all calls db).users
  unfolding run_all
  run_all-AreDistinct [] db distinct = distinct
  run_all-AreDistinct (call ∷ calls) db distinct =
      run_all-AreDistinct calls (run call db) (run-AreDistinct call db distinct)
