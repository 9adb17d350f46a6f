-- ===== src/Auth/Types.antt =====
-- The domain of users (internal/domain/user): model.go, requests.go, responses.go. Passwords are
-- their bytes. `uuid.UUID` and its text are the library's.
use research_monitor.Base.{
  ℕ, ◌≡◌, Bool, ◌||◌, String, List, [], Option, none, some, str_eq, length, ltb, if◌then◌else◌,
}
use research_monitor.Text.{is_empty}
use research_monitor.Http.{GoError, with_reason}

-- `github.com/google/uuid`: `String` and `Parse`; `none` is an error.
pub record Uuids (U : Type 0) : Type 0 where
  pub print : U → String
  pub parse : String → Option U
  pub parse-print : (u : U) → parse (print u) ≡ some u

pub record User (U : Type 0) : Type 0 where
  pub id : U
  pub email : String
  pub password_hash : String
  pub created_at : ℕ
  pub updated_at : ℕ

pub record LoginRequest : Type 0 where
  pub email : String
  pub password : List ℕ

pub record ChangePasswordRequest : Type 0 where
  pub current_password : List ℕ
  pub new_password : List ℕ

pub record SessionResponse (U : Type 0) : Type 0 where
  pub id : U
  pub email : String
  pub created_at : ℕ

pub record LoginResponse (U : Type 0) : Type 0 where
  pub access_token : List ℕ
  pub expires_at : ℕ
  pub user : SessionResponse U

pub record LoginResult (U : Type 0) : Type 0 where
  pub token : List ℕ
  pub expires_at : ℕ
  pub user : User U

-- An outcome with an error.
pub data Result (A : Type 0) : Type 0 where
  ok : A → Result A
  err : GoError → Result A

abbrev pub bcrypt_input_max_bytes : ℕ
bcrypt_input_max_bytes = 72

abbrev pub new_password_min_bytes : ℕ
new_password_min_bytes = 12

-- The reason codes of errors.go.
abbrev pub validation_failed : String
validation_failed = "validation_failed"

abbrev pub password_too_long : String
password_too_long = "password_too_long"

abbrev pub reason_password_policy_violation : String
reason_password_policy_violation = "password-policy-violation"

abbrev pub reason_invalid_credentials : String
reason_invalid_credentials = "invalid_credentials"

abbrev pub reason_current_password_incorrect : String
reason_current_password_incorrect = "current-password-incorrect"

abbrev pub reason_password_unchanged : String
reason_password_unchanged = "password-unchanged"

-- `LoginRequest.Validate`; whether `mail.ParseAddress` takes a text is given.
unfoldable pub validate_login : (String → Bool) → LoginRequest → Option GoError
validate_login is_address r =
    if str_eq r.email "" || is_empty r.password
    then some (with_reason 400 "email and password are required" validation_failed [])
    else if is_address r.email
    then if ltb bcrypt_input_max_bytes (length r.password)
      then some (with_reason 400 "password exceeds 72 bytes" password_too_long [])
      else none
    else some (with_reason 400 "email is not a valid address" validation_failed [])

-- `ChangePasswordRequest.Validate`
unfoldable pub validate_change : ChangePasswordRequest → Option GoError
validate_change r =
    if is_empty r.current_password || is_empty r.new_password
    then some (with_reason 400 "current and new passwords are required" validation_failed [])
    else if ltb bcrypt_input_max_bytes (length r.current_password)
    then some (with_reason 400 "current password exceeds 72 bytes" password_too_long [])
    else if ltb bcrypt_input_max_bytes (length r.new_password)
    then some (with_reason 400 "new password exceeds 72 bytes" password_too_long [])
    else if ltb (length r.new_password) new_password_min_bytes
    then some (
        with_reason 400 "new password must be at least 12 bytes" reason_password_policy_violation
          [])
    else none
