-- ===== src/Auth/Sessions.antt =====
-- Logins and what follows them: a session with the token, and a login with a new password.
use research_monitor.Base.{ℕ, ◌+◌, ◌*◌, ◌/◌, ◌≡◌, ◌⊎◌, Bool, true, false, List, ◌++◌, some}
use research_monitor.Sql.{Table}
use research_monitor.Http.{ErrorBody, Response, data_response, error_response, internal}
use research_monitor.Auth.Types.{Uuids, LoginResponse, SessionResponse}
use research_monitor.Auth.Repository.{Model, clash}
use research_monitor.Auth.Hasher.{Bcrypt}
use research_monitor.Auth.Tokens.{Jwt, JwtConfig, nanoseconds, bearer_prefix, expired_access_token}

abbrev pub bearer : List ℕ → List ℕ
bearer token = bearer_prefix ++ token

abbrev pub late_body : ErrorBody
late_body = record {
  code = 401;
  message = "invalid access token";
  details = some expired_access_token;
}

-- The second at which a token of this moment stops to be valid.
abbrev pub end_of_life : JwtConfig → ℕ → ℕ
end_of_life cfg now = (now + cfg.ttl) / nanoseconds * nanoseconds

module _ {U : Type 0} (uuids : Uuids U) (jwt : Jwt) (cfg : JwtConfig) where
  open uuids use {print, parse}

  abbrev Shows : U → Model → Response (SessionResponse U) → Type 0
  Shows id m r =
      (r ≡ data_response 200 (record { id = id; email = m.email; created_at = m.created_at }))
      ⊎ (r ≡ error_response 500 internal)

  module _ (t : Table Model clash) (b : Bcrypt) where
    open t use {Db, rows, first, first_lem}

    -- The answer to a session with the token of a login.
    abbrev pub Continues : Bool → LoginResponse U → Response (SessionResponse U) → Type 0
    Continues true body r = (r ≡ data_response 200 body.user) ⊎ (r ≡ error_response 500 internal)
    Continues false body r = r ≡ error_response 401 late_body
