-- ===== src/Examples/Users.antt =====
-- Users, sessions and tokens, applied.
use research_monitor.Base.{◌≡◌, ℕ, Bool, none, refl, String, true, List, [], ◌∷◌, some}
use research_monitor.Sql.{Table}
use research_monitor.Http.{empty_response, serve}
use research_monitor.Auth.Types.{
  User, LoginRequest, LoginResponse, ChangePasswordRequest, validate_login,
}
use research_monitor.Auth.Repository.{Model, clash}
use research_monitor.Auth.Tokens.{JwtConfig}
use research_monitor.Auth.Controller.{user_id, login_handler, change_password_handler}
use research_monitor.Auth.Logins.{LoginLaw, login_lem}
use research_monitor.Auth.Passwords.{ChangeLaw, lookup, stored, change_lem}
use research_monitor.Auth.Sound.{IsSound, register, change, apply_all, users-IsSound}
use research_monitor.Auth.Rotation.{Welcome, change_then_login}
use research_monitor.Examples.Memory.{memory}
use research_monitor.Examples.Accounts.{plain_ids, marks, marking, one_subject}

abbrev table : Table Model clash
table = memory clash

abbrev old_password : List ℕ
old_password = 1 ∷ (2 ∷ [])

abbrev new_password : List ℕ
new_password = 1 ∷ (1 ∷ (1 ∷ (1 ∷ (1 ∷ (1 ∷ (1 ∷ (1 ∷ (1 ∷ (1 ∷ (1 ∷ (1 ∷ [])))))))))))

abbrev alice : Model
alice = record {
  id = "u1";
  email = "a@b.c";
  password_hash = marks old_password;
  created_at = 1;
  updated_at = 1;
}

abbrev users : List Model
users = alice ∷ []

abbrev config : JwtConfig
config = record { secret = 7 ∷ []; ttl = 5000000000 }

abbrev any_address : String → Bool
any_address s = true

abbrev request : LoginRequest
request = record { email = "a@b.c"; password = old_password }

login_lem_example :
    LoginLaw plain_ids marking one_subject config any_address 3 table (some request) users (
      serve (
        login_handler plain_ids table marking one_subject config any_address 3
          (some request)
          users))
login_lem_example =
    login_lem plain_ids marking one_subject config any_address 3 table (some request) users

users-IsSound_start : IsSound plain_ids users
users-IsSound_start = record { printed = (("u1", refl), tt); distinct = (refl, tt) }

abbrev reply : LoginResponse String
reply = record {
  access_token = 0 ∷ (5 ∷ (7 ∷ []));
  expires_at = 5000000003;
  user = record { id = "u1"; email = "a@b.c"; created_at = 1 };
}

abbrev rotation : ChangePasswordRequest
rotation = record { current_password = old_password; new_password = new_password }

change_lem_example :
    ChangeLaw plain_ids marking 4 0 9 "u1" rotation users
      (lookup plain_ids marking 4 0 9 "u1" rotation table users)
      (stored plain_ids marking 4 0 9 "u1" rotation table users)
      (serve
        (change_password_handler plain_ids table marking 4 0 9
          (some rotation)
          (user_id "u1")
          users).0)
      (change_password_handler plain_ids table marking 4 0 9 (some rotation) (user_id "u1") users).1
change_lem_example = change_lem plain_ids marking 4 0 9 "u1" rotation table users

rotated :
    serve
      (change_password_handler plain_ids table marking 4 0 9 (some rotation) (user_id "u1") users).0
    ≡ empty_response 204
unfolding serve change_password_handler
rotated = refl

abbrev new_request : LoginRequest
new_request = record { email = "a@b.c"; password = new_password }

new_request_valid : validate_login any_address new_request ≡ none
unfolding validate_login
new_request_valid = refl

change_then_login_example : Welcome plain_ids marking one_subject config any_address table "a@b.c" (
    serve (
      login_handler plain_ids table marking one_subject config any_address 12
        (some new_request)
        (change_password_handler plain_ids table marking 4 0 9
          (some rotation)
          (user_id "u1")
          users).1))
change_then_login_example =
    change_then_login plain_ids marking one_subject config any_address table 4 0 9 "u1" rotation
      users 12 new_request 0 alice users-IsSound_start refl refl rotated refl refl new_request_valid

abbrev bob : User String
bob = record { id = "u2"; email = "b@b.c"; password_hash = "$"; created_at = 2; updated_at = 2 }

users-IsSound_example : IsSound plain_ids (
    apply_all plain_ids table marking
      (register bob ∷ (change 4 0 9 "u1" rotation ∷ (register bob ∷ [])))
      users)
users-IsSound_example =
    users-IsSound plain_ids table marking
      (register bob ∷ (change 4 0 9 "u1" rotation ∷ (register bob ∷ []))) users users-IsSound_start
