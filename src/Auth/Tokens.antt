-- ===== src/Auth/Tokens.antt =====
-- Tokens (internal/infrastructure/auth/jwt_token_service.go) over the library golang-jwt, and the
-- middleware that reads them (internal/http/middleware/jwt_auth.go). Times are nanoseconds.
use research_monitor.Base.{
  ℕ, ◌+◌, ◌*◌, ◌/◌, ◌≡◌, ◌≤◌, ◌<◌, Bool, true, false, String, List, [], ◌∷◌, Option, none, some,
  any, str_eq, drop, length, if◌then◌else◌,
}
use research_monitor.Text.{codes, is_empty, has_prefix}
use research_monitor.Http.{
  GoError, sentinel, token_expired, token_malformed, token_signature_invalid, is_err, with_reason,
}
use research_monitor.Auth.Types.{Uuids, Result, ok, err}

-- `jwt.RegisteredClaims`, less what the program leaves empty. `NewNumericDate` cuts to seconds.
pub record Claims : Type 0 where
  pub subject : String
  pub issued_at : ℕ
  pub expires_at : ℕ

-- The errors of the library that the program tells apart. One that the key function returned
-- stands in the library's error.
pub data JwtError : Type 0 where
  jwt_expired jwt_signature_invalid jwt_malformed jwt_other : JwtError
  from_key : GoError → JwtError

-- `ParseWithClaims`: an error, told by what it wraps, or a token with `Valid` and its claims.
pub data Parsed : Type 0 where
  rejected : List JwtError → Parsed
  no_token : Parsed
  parsed : Bool → Claims → Parsed

-- The method in the header of a token: HMAC of some width, or another.
pub data Method : Type 0 where
  hmac other_method : Method

abbrev pub nanoseconds : ℕ
nanoseconds = 1000000000

-- `github.com/golang-jwt/jwt/v5`: `SignedString` with HS256, and `ParseWithClaims` with the key
-- function and the time.
pub record Jwt : Type 0 where
  pub sign : List ℕ → Claims → Option (List ℕ)
  pub parse : (Method → Result (List ℕ)) → ℕ → List ℕ → Parsed
  pub sign-ne-nil : (secret : List ℕ) (c : Claims) → sign secret c ≡ some [] → ⊥
  -- A token that was signed is valid under the same key until it expires.
  pub parse-sign :
      (key : Method → Result (List ℕ)) (secret : List ℕ) (c : Claims) (token : List ℕ) (now : ℕ)
      → sign secret c ≡ some token
      → key hmac ≡ ok secret
      → now < c.expires_at * nanoseconds
      → parse key now token ≡ parsed true c
  pub parse-late :
      (key : Method → Result (List ℕ)) (secret : List ℕ) (c : Claims) (token : List ℕ) (now : ℕ)
      → sign secret c ≡ some token
      → key hmac ≡ ok secret
      → c.expires_at * nanoseconds ≤ now
      → parse key now token ≡ rejected (jwt_expired ∷ [])

-- `JWTConfig`, less the clock.
pub record JwtConfig : Type 0 where
  pub secret : List ℕ
  pub ttl : ℕ

-- `keyFunc`
abbrev pub key_func : JwtConfig → Method → Result (List ℕ)
key_func cfg hmac = ok cfg.secret
key_func cfg other_method = err (sentinel token_signature_invalid ∷ [])

abbrev pub is_expired : JwtError → Bool
is_expired jwt_expired = true
is_expired _ = false

abbrev pub is_unsigned : JwtError → Bool
is_unsigned jwt_signature_invalid = true
is_unsigned (from_key e) = is_err token_signature_invalid e
is_unsigned _ = false

-- `mapJWTError`; the last two of its cases are one.
unfoldable pub map_jwt_error : List JwtError → GoError
map_jwt_error e =
    if any is_expired e
    then sentinel token_expired ∷ []
    else if any is_unsigned e
    then sentinel token_signature_invalid ∷ []
    else sentinel token_malformed ∷ []

module _ (jwt : Jwt) (cfg : JwtConfig) where
  open jwt use {sign, parse}

  abbrev pub claims : String → ℕ → Claims
  claims subject now = record {
    subject = subject;
    issued_at = now / nanoseconds;
    expires_at = (now + cfg.ttl) / nanoseconds;
  }

  abbrev pub signed : ℕ → Option (List ℕ) → Result (List ℕ × ℕ)
  signed exp none = err []
  signed exp (some token) = ok (token, exp)

  -- `Issue`
  unfoldable pub issue : String → ℕ → Result (List ℕ × ℕ)
  issue subject now =
      if str_eq subject ""
      then err []
      else signed (now + cfg.ttl) (sign cfg.secret (claims subject now))

  abbrev pub accepted : Parsed → Result String
  unfolding map_jwt_error
  accepted (rejected e) = err (map_jwt_error e)
  accepted no_token = err (sentinel token_malformed ∷ [])
  accepted (parsed true c) = ok c.subject
  accepted (parsed false c) = err (sentinel token_malformed ∷ [])

  -- `Verify`
  unfoldable pub verify : ℕ → List ℕ → Result String
  unfolding map_jwt_error
  verify now token = accepted (parse (key_func cfg) now token)

-- The reason codes of the middleware.
abbrev pub credentials_missing : String
credentials_missing = "credentials_missing"

abbrev pub credentials_malformed : String
credentials_malformed = "credentials_malformed"

abbrev pub invalid_access_token : String
invalid_access_token = "invalid_access_token"

abbrev pub expired_access_token : String
expired_access_token = "expired_access_token"

abbrev pub malformed_access_token : String
malformed_access_token = "malformed_access_token"

-- `reasonForVerifyError`; the last two of its cases are one.
unfoldable pub reason_for_verify_error : GoError → String
reason_for_verify_error e =
    if is_err token_expired e
    then expired_access_token
    else if is_err token_malformed e
    then malformed_access_token
    else invalid_access_token

abbrev pub bearer_prefix : List ℕ
bearer_prefix = codes "Bearer "

module _ {U : Type 0} (uuids : Uuids U) where
  -- `abortWith`
  abbrev pub abort_with : String → String → GoError → Result U
  abort_with message reason cause = err (with_reason 401 message reason cause)

  abbrev pub with_subject : Option U → Result U
  with_subject none = abort_with "invalid access token" invalid_access_token []
  with_subject (some id) = ok id

  abbrev pub verified : Result String → Result U
  unfolding reason_for_verify_error
  verified (err e) = abort_with "invalid access token" (reason_for_verify_error e) e
  verified (ok subject) = with_subject (uuids.parse subject)

  -- `JWTAuth`: the user id that it sets, or the error with which it stops.
  unfoldable pub jwt_auth : (List ℕ → Result String) → List ℕ → Result U
  unfolding reason_for_verify_error has_prefix
  jwt_auth check header =
      if is_empty header
      then abort_with "missing authorization header" credentials_missing []
      else if has_prefix bearer_prefix header
      then if is_empty (drop (length bearer_prefix) header)
        then abort_with "malformed authorization header" credentials_malformed []
        else verified (check (drop (length bearer_prefix) header))
      else abort_with "malformed authorization header" credentials_malformed []
