-- ===== src/Extraction/Row.antt =====
-- The persisted row and its conversions (internal/infrastructure/persistence/extraction/model.go).
-- The JSON codec of the payload column, which the standard library derives from the struct, and the
-- fresh uuid are parameters.
use research_monitor.Base.{
  ℕ, ◌≡◌, Bool, ◌&&◌, ◌||◌, String, List, [], Option, none, some, str_eq, if◌then◌else◌, ◌>>=◌,
}
use research_monitor.Extraction.Types.{
  JobStatus, FailureReason, unset, Artifact, RequestPayload, Failure, Extraction, is_done,
  is_failed,
}

pub record Row : Type 0 where
  pub id : String
  pub source_type : String
  pub source_id : String
  pub status : JobStatus
  pub request_payload : String
  pub body_markdown : List ℕ
  pub metadata_content_type : String
  pub metadata_word_count : ℕ
  pub title : List ℕ
  pub failure_reason : FailureReason
  pub failure_message : List ℕ
  pub created_at : ℕ
  pub updated_at : ℕ

-- `json.Marshal` and `json.Unmarshal` at the payload; `none` is an error.
pub record Codec : Type 0 where
  pub marshal : RequestPayload → Option String
  pub unmarshal : String → Option RequestPayload
  pub marshal-some : (p : RequestPayload) → (s : String) × (marshal p ≡ some s)
  pub unmarshal-marshal :
      (p : RequestPayload) (s : String) → marshal p ≡ some s → unmarshal s ≡ some p

-- The primary key, and the unique index on (source_type, source_id).
abbrev pub same_source : String → String → Row → Bool
same_source source_type source_id r =
    str_eq r.source_type source_type && str_eq r.source_id source_id

abbrev pub clash : Row → Row → Bool
clash r s = str_eq s.id r.id || same_source r.source_type r.source_id s

abbrev pub artifact_columns : Option Artifact → Row → Row
artifact_columns none row = row
artifact_columns (some a) row = record row {
  title = a.title;
  body_markdown = a.body_markdown;
  metadata_content_type = a.metadata.content_type;
  metadata_word_count = a.metadata.word_count;
}

abbrev pub failure_columns : Option Failure → Row → Row
failure_columns none row = row
failure_columns (some f) row = record row { failure_reason = f.reason; failure_message = f.message }

abbrev pub artifact_of : Row → Option Artifact
artifact_of row =
    if is_done row.status
    then some (record {
      title = row.title;
      body_markdown = row.body_markdown;
      metadata = record {
        content_type = row.metadata_content_type;
        word_count = row.metadata_word_count;
      };
    })
    else none

abbrev pub failure_of : Row → Option Failure
failure_of row =
    if is_failed row.status
    then some (record { reason = row.failure_reason; message = row.failure_message })
    else none

module _ (codec : Codec) where
  -- `FromDomain`, with the uuid that it takes where the id is empty.
  unfoldable pub from_domain : String → Extraction → Option Row
  from_domain uuid e = do
    payload ← codec.marshal e.request_payload
    some (
        failure_columns e.failure (
          artifact_columns e.artifact (record {
            id = if str_eq e.id "" then uuid else e.id;
            source_type = e.source_type;
            source_id = e.source_id;
            status = e.status;
            request_payload = payload;
            body_markdown = [];
            metadata_content_type = "";
            metadata_word_count = 0;
            title = [];
            failure_reason = unset;
            failure_message = [];
            created_at = e.created_at;
            updated_at = e.updated_at;
          })))

  -- `ToDomain`; `none` is the error that wraps `ErrCatalogueUnavailable`.
  unfoldable pub to_domain : Row → Option Extraction
  to_domain row = do
    payload ← codec.unmarshal row.request_payload
    some (record {
      id = row.id;
      source_type = row.source_type;
      source_id = row.source_id;
      status = row.status;
      request_payload = payload;
      artifact = artifact_of row;
      failure = failure_of row;
      created_at = row.created_at;
      updated_at = row.updated_at;
    })
