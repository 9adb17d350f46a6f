-- ===== src/Extraction/Trip.antt =====
-- An extraction through the row and back (`FromDomain`, then `ToDomain`).
use research_monitor.Base.{
  [], ◌≡◌, Bool, true, false, String, Option, none, some, str_eq, if◌then◌else◌, ◌>>=◌,
}
use research_monitor.Extraction.Types.{Extraction, Artifact, Failure, unset, is_done, is_failed}
use research_monitor.Extraction.Row.{
  Row, Codec, artifact_columns, failure_columns, from_domain, to_domain,
}

-- The artifact is there exactly when the extraction is done, the failure exactly when it failed.
abbrev pub has {ℓ} : {A : Type ℓ} → Option A → Bool
has none = false
has (some _) = true

abbrev pub IsShaped : Extraction → Type 0
IsShaped e = (has e.artifact ≡ is_done e.status) × (has e.failure ≡ is_failed e.status)

abbrev stored : String → Extraction → Extraction
stored uuid e = record e { id = if str_eq e.id "" then uuid else e.id }

module _ (codec : Codec) (id column : String) (e : Extraction)
    (back : codec.unmarshal column ≡ some e.request_payload) where
  -- The row before its optional columns.
  abbrev bare : Row
  bare = record {
    id = id;
    source_type = e.source_type;
    source_id = e.source_id;
    status = e.status;
    request_payload = column;
    body_markdown = [];
    metadata_content_type = "";
    metadata_word_count = 0;
    title = [];
    failure_reason = unset;
    failure_message = [];
    created_at = e.created_at;
    updated_at = e.updated_at;
  }

  read-bare :
      (a : Option Artifact) (f : Option Failure)
      → has a ≡ is_done e.status
      → has f ≡ is_failed e.status
      → to_domain codec (failure_columns f (artifact_columns a bare))
        ≡ some (record e { id = id; artifact = a; failure = f })
  unfolding to_domain
  read-bare none none da df = rw (back, ← da, ← df)
  read-bare (some a) none da df = rw (back, ← da, ← df)
  read-bare none (some f) da df = rw (back, ← da, ← df)
  read-bare (some a) (some f) da df = rw (back, ← da, ← df)

-- What is written and read again is the extraction itself, under the fresh uuid where its id was
-- empty, if it has an artifact exactly when it is done and a failure exactly when it failed.
pub to_domain-from_domain :
    (codec : Codec) (uuid : String) (e : Extraction)
    → IsShaped e
    → (from_domain codec uuid e >>= to_domain codec) ≡ some (stored uuid e)
unfolding from_domain to_domain
to_domain-from_domain codec uuid e shape =
    let (column, h) = codec.marshal-some e.request_payload in
    rw h (
      read-bare codec (if str_eq e.id "" then uuid else e.id) column e
        (codec.unmarshal-marshal e.request_payload column h) e.artifact e.failure shape.0 shape.1)
