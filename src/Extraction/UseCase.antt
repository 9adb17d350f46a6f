-- ===== src/Extraction/UseCase.antt =====
-- The use case (internal/application/extraction/usecase.go) and the notifier (notifier.go). The
-- uuid, the clock readings, the extractor's answer and `ctx.Err()` are arguments; the log lines
-- that carry a decision are returned beside the rest.
pub mod Outcome
use research_monitor.Base.{
  ℕ, ◌+◌, Bool, true, false, String, List, [], ◌∷◌, ◌++◌, Option, none, some, ltb, any,
  if◌then◌else◌,
}
use research_monitor.Fault.{Fault, is_err}
use research_monitor.Text.{codes, decimal}
use research_monitor.Sql.{Table}
use research_monitor.Extraction.Types.{
  JobStatus, pending, FailureReason, scanned_pdf, parse_failed, extractor_failure, too_large,
  Artifact, RequestPayload, Extraction, ExtractInput, ExtractOutput, PriorState, SubmitResult,
  Sentinel, scanned_pdf_error, parse_failed_error, extractor_failure_error, Result, ok, err,
  validate,
}
use research_monitor.Extraction.Row.{Row, Codec, clash}
use research_monitor.Extraction.FilePath.{fallback_title}
use research_monitor.Extraction.Normalize.{NormalizedArtifact, normalize}
use research_monitor.Extraction.Repository.{upsert, find_by_id, mark_done, mark_failed}

-- `Notify`: a non-blocking send into the channel of wake signals.
unfoldable pub notify : ℕ → ℕ → ℕ
notify cap waiting = if ltb waiting cap then waiting + 1 else waiting

pub data Extracted : Type 0 where
  output : ExtractOutput → Extracted
  fault : Fault Sentinel → Extracted

pub data LogLine : Type 0 where
  reextract : String → RequestPayload → PriorState → LogLine
  unexpected_error : String → List ℕ → LogLine
  worker_failed : String → FailureReason → List ℕ → LogLine
  worker_done : String → ℕ → LogLine

pub data ProcessError : Type 0 where
  cancelled : ProcessError
  mark_failed_error : Sentinel → ProcessError
  mark_done_error : Sentinel → ProcessError

abbrev pub is_scanned : Sentinel → Bool
is_scanned scanned_pdf_error = true
is_scanned _ = false

abbrev pub is_unparsed : Sentinel → Bool
is_unparsed parse_failed_error = true
is_unparsed _ = false

abbrev pub is_extractor_failure : Sentinel → Bool
is_extractor_failure extractor_failure_error = true
is_extractor_failure _ = false

-- `classifyExtractorError`: the reason, the message, and whether a sentinel matched.
unfoldable pub classify_extractor_error : Fault Sentinel → FailureReason × List ℕ × Bool
classify_extractor_error e =
    if is_err is_scanned e
    then (scanned_pdf, e.text, true)
    else if is_err is_unparsed e
    then (parse_failed, e.text, true)
    else (extractor_failure, e.text, is_err is_extractor_failure e)

abbrev pub too_large_message : ℕ → ℕ → List ℕ
unfolding decimal
too_large_message words most =
    codes "word count " ++ (decimal words ++ (codes " exceeds threshold " ++ decimal most))

abbrev pub artifact_of : RequestPayload → NormalizedArtifact → Artifact
artifact_of payload n = record {
  title = n.title;
  body_markdown = n.body_markdown;
  metadata = record { content_type = payload.source_type; word_count = n.word_count };
}

abbrev pub extract_input : Extraction → ExtractInput
extract_input row = record {
  pdf_path = row.request_payload.pdf_path;
  source_type = row.request_payload.source_type;
  source_id = row.request_payload.source_id;
}

abbrev reextract_line : RequestPayload → String → Option PriorState → List LogLine
reextract_line payload id none = []
reextract_line payload id (some prior) = reextract id payload prior ∷ []

module _ (t : Table Row clash) (codec : Codec) where
  open t use {Db}

  abbrev submitted :
      ℕ
      → ℕ
      → RequestPayload
      → Result (String × Option PriorState) × Db
      → Result SubmitResult × Db × ℕ × List LogLine
  unfolding notify
  submitted cap waiting payload (err s, db) = (err s, db, waiting, [])
  submitted cap waiting payload (ok (id, prior), db) = (
    ok (record { id = id; status = pending }),
    db,
    notify cap waiting,
    reextract_line payload id prior,
  )

  abbrev submit_valid :
      String
      → ℕ
      → ℕ
      → ℕ
      → RequestPayload
      → Db
      → Option Sentinel
      → Result SubmitResult × Db × ℕ × List LogLine
  unfolding notify
  submit_valid uuid now cap waiting payload db (some s) = (err s, db, waiting, [])
  submit_valid uuid now cap waiting payload db none =
      submitted cap waiting payload (upsert t codec uuid now payload db)

  -- `Submit`, with the channel of wake signals: its capacity and how many wait.
  unfoldable pub submit :
      String → ℕ → ℕ → ℕ → RequestPayload → Db → Result SubmitResult × Db × ℕ × List LogLine
  unfolding validate notify
  submit uuid now cap waiting payload db =
      submit_valid uuid now cap waiting payload db (validate payload)

  -- `Get`
  abbrev pub get : String → Db → Result Extraction
  get id db = find_by_id t codec id db

module _ (t : Table Row clash) where
  open t use {Db}

  abbrev pub failed_outcome :
      String
      → FailureReason
      → List ℕ
      → List LogLine
      → Result (Unit {0}) × Db
      → Option ProcessError × Db × List LogLine
  failed_outcome id reason message lines (err s, db) = (some (mark_failed_error s), db, lines)
  failed_outcome id reason message lines (ok _, db) =
      (none, db, lines ++ worker_failed id reason message ∷ [])

  abbrev pub done_outcome :
      String → ℕ → Result (Unit {0}) × Db → Option ProcessError × Db × List LogLine
  done_outcome id words (err s, db) = (some (mark_done_error s), db, [])
  done_outcome id words (ok _, db) = (none, db, worker_done id words ∷ [])

  -- The branch of `Process` for an extractor's error.
  unfoldable pub process_fault :
      ℕ → Bool → Fault Sentinel → String → Db → Option ProcessError × Db × List LogLine
  unfolding classify_extractor_error
  process_fault now is_cancelled e id db =
      let (reason, message, known) = classify_extractor_error e in
      if is_cancelled
      then (some cancelled, db, [])
      else failed_outcome id reason message (if known then [] else unexpected_error id e.text ∷ [])
          (mark_failed t now id reason message db)

  -- The branch of `Process` for an extractor's output.
  unfoldable pub process_output :
      ℕ → ℕ → ExtractOutput → Extraction → Db → Option ProcessError × Db × List LogLine
  unfolding normalize fallback_title
  process_output now max_words out row db =
      let n = normalize out.markdown (fallback_title row.request_payload.pdf_path) in
      let message = too_large_message n.word_count max_words in
      if ltb max_words n.word_count
      then failed_outcome row.id too_large message []
          (mark_failed t now row.id too_large message db)
      else done_outcome row.id n.word_count
          (mark_done t now row.id (artifact_of row.request_payload n) db)

  -- `Process`
  unfoldable pub process :
      (ExtractInput → Extracted)
      → ℕ
      → ℕ
      → Bool
      → Extraction
      → Db
      → Option ProcessError × Db × List LogLine
  unfolding process_fault process_output
  process extract now max_words is_cancelled row db = elim (extract (extract_input row)) [
    | fault e ↦ process_fault now is_cancelled e row.id db
    | output out ↦ process_output now max_words out row db
  ]
