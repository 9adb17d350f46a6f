-- ===== src/Http.antt =====
-- Errors that carry an HTTP status (internal/domain/shared/errors.go), the envelope of a response
-- (internal/http/common) and the middleware that every request passes
-- (internal/http/middleware: error_envelope.go, recovery.go, request_id.go). A handler is told by
-- what it did to its gin context; logging is left out.
use research_monitor.Base.{
  ℕ, Bool, true, false, String, List, [], ◌∷◌, Option, none, some, str_eq, any, if◌then◌else◌,
}

-- `HTTPError`, less the error that it wraps: that stands behind it in the chain.
pub record HttpError : Type 0 where
  pub code : ℕ
  pub message : String
  pub reason : String

-- The sentinels that are plain errors: `user.Err…` and those of shared/errors.go.
pub data Sentinel : Type 0 where
  user_not_found email_exists invalid_credentials current_password_incorrect : Sentinel
  password_policy_violation password_unchanged : Sentinel
  hash_mismatch token_malformed token_signature_invalid token_expired : Sentinel

-- One error of a chain of `Unwrap`.
pub data Link : Type 0 where
  http : HttpError → Link
  sentinel : Sentinel → Link

-- An error is the links of its chain that some test of this program can tell; an error that none
-- can, as one of a driver, is the empty chain.
abbrev pub GoError : Type 0
GoError = List Link

abbrev pub new_http_error : ℕ → String → GoError → GoError
new_http_error code message cause =
    http (record { code = code; message = message; reason = "" }) ∷ cause

-- `NewHTTPError(…).WithReason(…)`
abbrev pub with_reason : ℕ → String → String → GoError → GoError
with_reason code message reason cause =
    http (record { code = code; message = message; reason = reason }) ∷ cause

-- `AsHTTPError`: the first of the chain.
abbrev pub as_http_error : GoError → Option HttpError
as_http_error [] = none
as_http_error (http e ∷ chain) = some e
as_http_error (sentinel s ∷ chain) = as_http_error chain

abbrev pub same_sentinel : Sentinel → Sentinel → Bool
same_sentinel user_not_found user_not_found = true
same_sentinel email_exists email_exists = true
same_sentinel invalid_credentials invalid_credentials = true
same_sentinel current_password_incorrect current_password_incorrect = true
same_sentinel password_policy_violation password_policy_violation = true
same_sentinel password_unchanged password_unchanged = true
same_sentinel hash_mismatch hash_mismatch = true
same_sentinel token_malformed token_malformed = true
same_sentinel token_signature_invalid token_signature_invalid = true
same_sentinel token_expired token_expired = true
same_sentinel _ _ = false

abbrev pub is_link : Sentinel → Link → Bool
is_link s (http e) = false
is_link s (sentinel t) = same_sentinel t s

-- `errors.Is`
abbrev pub is_err : Sentinel → GoError → Bool
is_err s e = any (is_link s) e

-- The struct `Error` of the envelope; `details` holds the reason, where there is one.
pub record ErrorBody : Type 0 where
  pub code : ℕ
  pub message : String
  pub details : Option String

abbrev pub error_body : ℕ → String → ErrorBody
error_body code message = record { code = code; message = message; details = none }

-- What a handler leaves behind: `c.JSON(status, common.Data(v))`, `c.Status(status)`,
-- `c.Error(err)`, or a panic.
pub data Handled (B : Type 0) : Type 0 where
  wrote : ℕ → B → Handled B
  status_only : ℕ → Handled B
  raised : GoError → Handled B
  panicked : Handled B

-- A response: with data, with nothing, or with an error body.
pub data Response (B : Type 0) : Type 0 where
  data_response : ℕ → B → Response B
  empty_response : ℕ → Response B
  error_response : ℕ → ErrorBody → Response B

-- `common.Err`, with `details` where there is a reason.
unfoldable pub http_body : HttpError → ErrorBody
http_body e =
    if str_eq e.reason ""
    then error_body e.code e.message
    else record { code = e.code; message = e.message; details = some e.reason }

abbrev pub internal : ErrorBody
internal = error_body 500 "internal server error"

abbrev pub rendered : {B : Type 0} → Option HttpError → Response B
unfolding http_body
rendered none = error_response 500 internal
rendered (some e) = error_response e.code (http_body e)

-- `ErrorEnvelope` inside `Recovery`, after the handler.
unfoldable pub serve : {B : Type 0} → Handled B → Response B
unfolding http_body
serve (wrote status body) = data_response status body
serve (status_only status) = empty_response status
serve (raised e) = rendered (as_http_error e)
serve panicked = error_response 500 internal

-- `RequestID`: the id of the header, or a fresh one.
unfoldable pub request_id : String → String → String
request_id header fresh = if str_eq header "" then fresh else header
