-- ===== src/Extraction/Types.antt =====
-- The extraction aggregate (internal/domain/extraction/model.go, errors.go, requests.go). Titles,
-- bodies and messages are code points; a timestamp is a number of nanoseconds.
use research_monitor.Base.{
  ℕ, Bool, true, false, ◌||◌, String, List, Option, none, some, str_eq, if◌then◌else◌,
}
use research_monitor.Text.{is_blank}

pub data JobStatus : Type 0 where
  pending running done failed : JobStatus

-- `unset` is the zero value of the Go type, the empty text.
pub data FailureReason : Type 0 where
  unset : FailureReason
  scanned_pdf parse_failed extractor_failure too_large expired process_restart : FailureReason

pub record Metadata : Type 0 where
  pub content_type : String
  pub word_count : ℕ

pub record Artifact : Type 0 where
  pub title : List ℕ
  pub body_markdown : List ℕ
  pub metadata : Metadata

pub record RequestPayload : Type 0 where
  pub source_type : String
  pub source_id : String
  pub pdf_path : String

pub record Failure : Type 0 where
  pub reason : FailureReason
  pub message : List ℕ

pub record Extraction : Type 0 where
  pub id : String
  pub source_type : String
  pub source_id : String
  pub status : JobStatus
  pub request_payload : RequestPayload
  pub artifact : Option Artifact
  pub failure : Option Failure
  pub created_at : ℕ
  pub updated_at : ℕ

pub record PriorState : Type 0 where
  pub status : JobStatus
  pub failure_reason : FailureReason

pub record ExtractInput : Type 0 where
  pub pdf_path : String
  pub source_type : String
  pub source_id : String

pub record ExtractOutput : Type 0 where
  pub markdown : List ℕ
  pub title_hint : List ℕ

pub record SubmitResult : Type 0 where
  pub id : String
  pub status : JobStatus

-- The sentinels of errors.go.
pub data Sentinel : Type 0 where
  invalid_request unsupported_source_type not_found : Sentinel
  catalogue_unavailable invalid_transition : Sentinel
  scanned_pdf_error parse_failed_error extractor_failure_error : Sentinel

-- A result, or the sentinel that the returned error wraps; the rest of its text is left out.
pub data Result {ℓ} (A : Type ℓ) : Type ℓ where
  ok : A → Result A
  err : Sentinel → Result A

abbrev pub is_done : JobStatus → Bool
is_done done = true
is_done _ = false

abbrev pub is_failed : JobStatus → Bool
is_failed failed = true
is_failed _ = false

abbrev pub same_status : JobStatus → JobStatus → Bool
same_status pending pending = true
same_status running running = true
same_status done done = true
same_status failed failed = true
same_status _ _ = false

-- `SubmitRequest.Validate`; `none` is the nil error.
unfoldable pub validate : RequestPayload → Option Sentinel
unfolding is_blank
validate r =
    if is_blank r.source_type || is_blank r.source_id || is_blank r.pdf_path
    then some invalid_request
    else if str_eq r.source_type "paper"
    then none
    else some unsupported_source_type
