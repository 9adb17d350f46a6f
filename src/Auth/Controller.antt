-- ===== src/Auth/Controller.antt =====
-- The handlers of users (internal/http/controller/auth_controller.go) and their routes
-- (internal/http/route/auth_route.go). What gin binds of a request body is an argument; `none` says
-- that `ShouldBindJSON` failed, as it does where a required field is missing.
use research_monitor.Base.{ℕ, Bool, String, List, [], Option, none, some, if◌then◌else◌}
use research_monitor.Sql.{Table}
use research_monitor.Http.{
  GoError, Handled, wrote, status_only, raised, is_err, with_reason, new_http_error, user_not_found,
  invalid_credentials, current_password_incorrect, password_policy_violation, password_unchanged,
}
use research_monitor.Auth.Types.{
  Uuids, User, LoginRequest, ChangePasswordRequest, LoginResult, LoginResponse, SessionResponse,
  Result, ok, err, validation_failed, reason_invalid_credentials, reason_current_password_incorrect,
  reason_password_policy_violation, reason_password_unchanged,
}
use research_monitor.Auth.Repository.{Model, clash}
use research_monitor.Auth.Hasher.{Bcrypt}
use research_monitor.Auth.Tokens.{Jwt, JwtConfig, verify, jwt_auth}
use research_monitor.Auth.UseCase.{login, session, change_password}

-- What `c.Get("user_id")` yields.
pub data ContextValue (U : Type 0) : Type 0 where
  unset : ContextValue U
  user_id : U → ContextValue U
  other_value : ContextValue U

-- `abortAuth`
abbrev pub abort_auth : {B : Type 0} → ℕ → String → String → GoError → Handled B
abort_auth status message reason cause = raised (with_reason status message reason cause)

module _ {U : Type 0} where
  -- `requireUserID`
  abbrev pub require_user_id : ContextValue U → Result U
  require_user_id unset = err (new_http_error 500 "user_id missing from context" [])
  require_user_id (user_id id) = ok id
  require_user_id other_value = err (new_http_error 500 "user_id has unexpected type" [])

  abbrev pub session_view : User U → SessionResponse U
  session_view u = record { id = u.id; email = u.email; created_at = u.created_at }

  -- The middleware stops the chain with its error, or sets the id for the handler.
  abbrev pub after_auth : {A : Type 0} → (GoError → A) → (U → A) → Result U → A
  after_auth stop handler (err e) = stop e
  after_auth stop handler (ok id) = handler id

  abbrev pub login_reply : Result (LoginResult U) → Handled (LoginResponse U)
  login_reply (ok r) =
      wrote 200
        (record { access_token = r.token; expires_at = r.expires_at; user = session_view r.user })
  login_reply (err e) =
      if is_err invalid_credentials e
      then abort_auth 401 "invalid credentials" reason_invalid_credentials e
      else raised e

  abbrev pub session_reply : Result (User U) → Handled (SessionResponse U)
  session_reply (ok u) = wrote 200 (session_view u)
  session_reply (err e) =
      if is_err user_not_found e
      then abort_auth 401 "invalid credentials" reason_invalid_credentials e
      else raised e

abbrev pub change_error : GoError → Handled (Unit {0})
change_error e =
    if is_err current_password_incorrect e
    then abort_auth 400 "current password incorrect" reason_current_password_incorrect e
    else if is_err password_policy_violation e
    then abort_auth 400 "password policy violation" reason_password_policy_violation e
    else if is_err password_unchanged e
    then abort_auth 400 "new password equals current password" reason_password_unchanged e
    else raised e

abbrev pub change_reply : Option GoError → Handled (Unit {0})
change_reply none = status_only 204
change_reply (some e) = change_error e

module _ {U : Type 0} (uuids : Uuids U) (t : Table Model clash) (b : Bcrypt) where
  open t use {Db}

  -- `Session`, the handler.
  unfoldable pub session_handler : ContextValue U → Db → Handled (SessionResponse U)
  unfolding session
  session_handler value db = elim (require_user_id value) [
    | err e ↦ raised e
    | ok id ↦ session_reply (session uuids t b id db)
  ]

  -- `ChangePassword`, the handler.
  unfoldable pub change_password_handler :
      ℕ → ℕ → ℕ → Option ChangePasswordRequest → ContextValue U → Db → Handled (Unit {0}) × Db
  unfolding change_password
  change_password_handler cost salt stamp none value db =
      (abort_auth 400 "invalid json body" validation_failed [], db)
  change_password_handler cost salt stamp (some req) value db = elim (require_user_id value) [
    | err e ↦ (raised e, db)
    | ok id ↦
        let out = change_password uuids t b cost salt stamp id req db in (change_reply out.0, out.1)
  ]

  module _ (jwt : Jwt) (cfg : JwtConfig) where
    -- `Login`, the handler.
    unfoldable pub login_handler :
        (String → Bool) → ℕ → Option LoginRequest → Db → Handled (LoginResponse U)
    unfolding login
    login_handler is_address now none db = abort_auth 400 "invalid json body" validation_failed []
    login_handler is_address now (some req) db =
        login_reply (login uuids t b jwt cfg is_address now req db)

    -- `GET /auth/session`: the middleware, then the handler.
    unfoldable pub get_session : ℕ → List ℕ → Db → Handled (SessionResponse U)
    unfolding jwt_auth verify session_handler
    get_session now header db =
        after_auth raised (λ id. session_handler (user_id id) db)
          (jwt_auth uuids (verify jwt cfg now) header)

    -- `POST /auth/change-password`
    unfoldable pub post_change_password :
        ℕ → ℕ → ℕ → ℕ → List ℕ → Option ChangePasswordRequest → Db → Handled (Unit {0}) × Db
    unfolding jwt_auth verify change_password_handler
    post_change_password now cost salt stamp header req db =
        after_auth (λ e. (raised e, db))
          (λ id. change_password_handler cost salt stamp req (user_id id) db)
          (jwt_auth uuids (verify jwt cfg now) header)
