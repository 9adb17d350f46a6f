-- ===== src/Auth/UseCase.antt =====
-- The use case of users (internal/application/user_usecase.go): login, session and change of the
-- password, over the repository, the hasher and the token service. The time of the clock, the salt
-- and the time that the repository stamps are arguments; logging is left out.
use research_monitor.Base.{
  ℕ, Bool, true, false, ◌&&◌, ◌==◌, String, List, [], ◌∷◌, Option, none, some, if◌then◌else◌,
}
use research_monitor.Sql.{Table}
use research_monitor.Http.{
  GoError, sentinel, user_not_found, invalid_credentials, current_password_incorrect,
  password_unchanged, is_err,
}
use research_monitor.Auth.Types.{
  Uuids, User, LoginRequest, ChangePasswordRequest, LoginResult, Result, ok, err, validate_login,
  validate_change,
}
use research_monitor.Auth.Repository.{Model, clash, find_by_email, find_by_id, update_password_hash}
use research_monitor.Auth.Hasher.{Bcrypt, hash, verify}
use research_monitor.Auth.Tokens.{Jwt, JwtConfig, issue}

-- Equality of passwords, as `==` on Go strings.
abbrev pub same_bytes : List ℕ → List ℕ → Bool
same_bytes [] [] = true
same_bytes (c ∷ s) (d ∷ t) = c == d && same_bytes s t
same_bytes _ _ = false

module _ {U : Type 0} (uuids : Uuids U) (b : Bcrypt) (jwt : Jwt) (cfg : JwtConfig) where
  open uuids use {print}

  abbrev pub issued : User U → Result (List ℕ × ℕ) → Result (LoginResult U)
  issued u (err e) = err e
  issued u (ok (token, expires_at)) =
      ok (record { token = token; expires_at = expires_at; user = u })

  -- A mismatch and an unreadable hash have one answer.
  abbrev pub authenticated : ℕ → User U → Option GoError → Result (LoginResult U)
  unfolding issue
  authenticated now u (some e) = err (sentinel invalid_credentials ∷ [])
  authenticated now u none = issued u (issue jwt cfg (print u.id) now)

  abbrev pub looked_up : List ℕ → ℕ → Result (User U) → Result (LoginResult U)
  unfolding issue verify
  looked_up password now (err e) =
      if is_err user_not_found e then err (sentinel invalid_credentials ∷ []) else err e
  looked_up password now (ok u) = authenticated now u (verify b password u.password_hash)

module _ {U : Type 0} (uuids : Uuids U) (t : Table Model clash) (b : Bcrypt) where
  open t use {Db}

  module _ (jwt : Jwt) (cfg : JwtConfig) (is_address : String → Bool) where
    abbrev pub attempt : ℕ → LoginRequest → Db → Option GoError → Result (LoginResult U)
    unfolding find_by_email issue verify
    attempt now req db (some e) = err e
    attempt now req db none =
        looked_up uuids b jwt cfg req.password now (find_by_email uuids t req.email db)

    -- `Login`
    unfoldable pub login : ℕ → LoginRequest → Db → Result (LoginResult U)
    unfolding find_by_email issue verify validate_login
    login now req db = attempt now req db (validate_login is_address req)

  -- `Session`
  unfoldable pub session : U → Db → Result (User U)
  unfolding find_by_id
  session id db = find_by_id uuids t id db

  abbrev pub rehash : ℕ → Db → User U → Result String → Option GoError × Db
  unfolding update_password_hash
  rehash stamp db u (err e) = (some e, db)
  rehash stamp db u (ok h) = update_password_hash uuids t u.id h stamp db

  abbrev pub confirmed :
      ℕ → ℕ → ℕ → ChangePasswordRequest → Db → User U → Option GoError → Option GoError × Db
  unfolding update_password_hash hash
  confirmed cost salt stamp req db u (some e) =
      (some (sentinel current_password_incorrect ∷ []), db)
  confirmed cost salt stamp req db u none =
      if same_bytes req.new_password req.current_password
      then (some (sentinel password_unchanged ∷ []), db)
      else rehash stamp db u (hash b cost salt req.new_password)

  abbrev pub resolved :
      ℕ → ℕ → ℕ → ChangePasswordRequest → Db → Result (User U) → Option GoError × Db
  unfolding update_password_hash hash verify
  resolved cost salt stamp req db (err e) = (some e, db)
  resolved cost salt stamp req db (ok u) =
      confirmed cost salt stamp req db u (verify b req.current_password u.password_hash)

  abbrev pub change_valid :
      ℕ → ℕ → ℕ → U → ChangePasswordRequest → Db → Option GoError → Option GoError × Db
  unfolding update_password_hash hash verify find_by_id
  change_valid cost salt stamp id req db (some e) = (some e, db)
  change_valid cost salt stamp id req db none =
      resolved cost salt stamp req db (find_by_id uuids t id db)

  -- `ChangePassword`; `none` is the nil error.
  unfoldable pub change_password : ℕ → ℕ → ℕ → U → ChangePasswordRequest → Db → Option GoError × Db
  unfolding update_password_hash hash verify find_by_id validate_change
  change_password cost salt stamp id req db =
      change_valid cost salt stamp id req db (validate_change req)
