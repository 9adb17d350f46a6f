-- ===== src/Extraction/UseCase/Outcome.antt =====
-- What `Process` writes, and the reason it gives.
use research_monitor.Base.{
  ◌⊎◌, ◌++◌, get_elem?, ℕ, ◌≡◌, Bool, true, false, String, List, [], Option, none, some, ltb,
  if◌then◌else◌,
}
use research_monitor.Fault.{Fault}
use research_monitor.Text.{codes, decimal}
use research_monitor.Sql.{update_where, Table}
use research_monitor.Extraction.Types.{
  running, done, failed, scanned_pdf, parse_failed, extractor_failure, scanned_pdf_error,
  parse_failed_error, FailureReason, too_large, ExtractOutput, Extraction, Sentinel,
}
use research_monitor.Extraction.Row.{Row, clash}
use research_monitor.Extraction.FilePath.{fallback_title}
use research_monitor.Extraction.Normalize.{NormalizedArtifact, normalize}
use research_monitor.Extraction.Repository.Effects.{gate}
use research_monitor.Extraction.UseCase.{Extracted, output, fault, LogLine, ProcessError, cancelled}

-- A row that has failed, or is done: all other columns stay.
abbrev pub failed_row : FailureReason → List ℕ → ℕ → Row → Row
failed_row reason message now r = record {
  id = r.id;
  source_type = r.source_type;
  source_id = r.source_id;
  status = failed;
  request_payload = r.request_payload;
  body_markdown = r.body_markdown;
  metadata_content_type = r.metadata_content_type;
  metadata_word_count = r.metadata_word_count;
  title = r.title;
  failure_reason = reason;
  failure_message = message;
  created_at = r.created_at;
  updated_at = now;
}

abbrev pub done_row : String → NormalizedArtifact → ℕ → Row → Row
done_row content_type n now r = record {
  id = r.id;
  source_type = r.source_type;
  source_id = r.source_id;
  status = done;
  request_payload = r.request_payload;
  body_markdown = n.body_markdown;
  metadata_content_type = content_type;
  metadata_word_count = n.word_count;
  title = n.title;
  failure_reason = r.failure_reason;
  failure_message = r.failure_message;
  created_at = r.created_at;
  updated_at = now;
}

-- The change that an output of the extractor calls for.
abbrev pub output_verdict : ℕ → ℕ → ExtractOutput → Extraction → Row → Row
output_verdict now most out e =
    let n = normalize out.markdown (fallback_title e.request_payload.pdf_path) in
    if ltb most n.word_count
    then failed_row too_large
        (codes "word count "
          ++ (decimal n.word_count ++ (codes " exceeds threshold " ++ decimal most)))
        now
    else done_row e.request_payload.source_type n now

-- The chain of the error has this sentinel.
abbrev pub Wraps : Fault Sentinel → Sentinel → Type 0
Wraps f s = (i : ℕ) × (get_elem? f.wraps i ≡ some s)

-- The reason for a fault: a scanned PDF goes before a failed parse, and that before all else.
abbrev pub Classified : Fault Sentinel → FailureReason → Type 0
Classified f reason =
    (Wraps f scanned_pdf_error × (reason ≡ scanned_pdf))
    ⊎ ((¬ Wraps f scanned_pdf_error) × Wraps f parse_failed_error × (reason ≡ parse_failed))
    ⊎ ((¬ Wraps f scanned_pdf_error)
        × (¬ Wraps f parse_failed_error)
        × (reason ≡ extractor_failure))

module _ (t : Table Row clash) where
  open t use {Db, rows}

  -- Without an error, exactly the running row with this id changes, as told.
  abbrev Writes : Db → String → (Row → Row) → Option ProcessError × Db × List LogLine → Type 0
  Writes db id f out = (out.0 ≡ none) × (rows out.1 ≡ update_where (gate id running) f (rows db))

  abbrev pub ProcessLaw :
      ℕ → ℕ → Bool → Extraction → Db → Extracted → Option ProcessError × Db × List LogLine → Type 0
  ProcessLaw now most true e db (fault f) out = out ≡ (some cancelled, db, [])
  ProcessLaw now most false e db (fault f) out =
      (reason : FailureReason) × Classified f reason
      × Writes db e.id (failed_row reason f.text now) out
  ProcessLaw now most is_cancelled e db (output o) out =
      Writes db e.id (output_verdict now most o e) out
