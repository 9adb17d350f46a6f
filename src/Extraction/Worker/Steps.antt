-- ===== src/Extraction/Worker/Steps.antt =====
-- What the statements of a round do to the rows that still wait.
use research_monitor.Base.{
  ℕ, zero, suc, ◌≡◌, refl, inl, inr, Bool, true, false, String, List, [], ◌∷◌, Option, some, ltb,
  any, All, get_elem?, arith, Bool-cases,
}
use mathlib.Core.Option.{some-injective}
use research_monitor.Sql.{Table}
use research_monitor.Extraction.Types.{
  RequestPayload, pending, running, FailureReason, ExtractInput, ExtractOutput, Extraction,
  Artifact, Result, ok, err,
}
use research_monitor.Fault.{Fault}
use research_monitor.Extraction.Types.{Sentinel}
use research_monitor.Extraction.Row.{Row, Codec, clash, artifact_of, failure_of, to_domain}
use research_monitor.Extraction.Repository.{
  has_status, expected_prior, to_done, to_failed, mark_done, mark_failed,
}
use research_monitor.Extraction.UseCase.{
  Extracted, output, fault, ProcessError, LogLine, extract_input, failed_outcome, done_outcome,
  process_fault, process_output, process,
}
use research_monitor.Extraction.FilePath.{fallback_title}
use research_monitor.Extraction.Normalize.{normalize}
use research_monitor.Extraction.Worker.Settling.{
  waiting, Settles, Progress, Progress-refl, transition-Progress,
}

pub to_failed-Settles :
    (reason : FailureReason) (message : List ℕ) (now : ℕ) → Settles (to_failed reason message now)
unfolding to_failed
to_failed-Settles reason message now r = (refl, refl)

module _ (t : Table Row clash) (codec : Codec) where
  open t use {Db, rows}

  pub mark_failed-Progress :
      (now : ℕ) (id : String) (reason : FailureReason) (message : List ℕ) (db : Db)
      → Progress codec (rows db) (rows (mark_failed t now id reason message db).1)
  unfolding mark_failed
  mark_failed-Progress now id reason message db =
      transition-Progress t codec id (expected_prior reason) (to_failed reason message now)
        (to_failed-Settles reason message now) db

  mark_done-Progress :
      (now : ℕ) (id : String) (a : Artifact) (db : Db)
      → Progress codec (rows db) (rows (mark_done t now id a db).1)
  unfolding mark_done to_done
  mark_done-Progress now id a db =
      transition-Progress t codec id running (to_done a now) (λ r. (refl, refl)) db

  failed_outcome-db :
      (id : String) (reason : FailureReason) (message : List ℕ) (lines : List LogLine)
      (x : Result (Unit {0}) × Db)
      → (failed_outcome t id reason message lines x).1 ≡ x.1
  failed_outcome-db id reason message lines (ok _, db) = refl
  failed_outcome-db id reason message lines (err s, db) = refl

  done_outcome-db :
      (id : String) (words : ℕ) (x : Result (Unit {0}) × Db) → (done_outcome t id words x).1 ≡ x.1
  done_outcome-db id words (ok _, db) = refl
  done_outcome-db id words (err s, db) = refl

  process_fault-Progress :
      (now : ℕ) (is_cancelled : Bool) (f : Fault Sentinel) (id : String) (db : Db)
      → Progress codec (rows db) (rows (process_fault t now is_cancelled f id db).1)
  unfolding process_fault
  process_fault-Progress now true f id db = Progress-refl codec (rows db)
  process_fault-Progress now false f id db =
      rw (failed_outcome-db id _ _ _ _) (mark_failed-Progress now id _ _ db)

  process_output-Progress :
      (now most : ℕ) (out : ExtractOutput) (e : Extraction) (db : Db)
      → Progress codec (rows db) (rows (process_output t now most out e db).1)
  unfolding process_output
  process_output-Progress now most out e db =
      let n = normalize out.markdown (fallback_title e.request_payload.pdf_path) in
      elim (Bool-cases (ltb most n.word_count)) [
        | inl large ↦
            rw (large, failed_outcome-db e.id _ _ _ _) (mark_failed-Progress now e.id _ _ db)
        | inr fits ↦ rw (fits, done_outcome-db e.id _ _) (mark_done-Progress now e.id _ db)
      ]

  pub process-Progress :
      (extract : ExtractInput → Extracted) (now most : ℕ) (is_cancelled : Bool) (e : Extraction)
      (db : Db)
      → Progress codec (rows db) (rows (process t extract now most is_cancelled e db).1)
  unfolding process
  process-Progress extract now most is_cancelled e db =
      elim (extract (extract_input e))
        as (λ x. Progress codec (rows db) (
          rows
            (elim x as (λ _. Option ProcessError × Db × List LogLine) [
              | fault f ↦ process_fault t now is_cancelled f e.id db
              | output out ↦ process_output t now most out e db
            ]).1)) [
              | fault f ↦ process_fault-Progress now is_cancelled f e.id db
              | output out ↦ process_output-Progress now most out e db
            ]

pub All-at :
    (P : Row → Type 0) (rs : List Row) (i : ℕ) {r : Row} → All P rs → get_elem? rs i ≡ some r → P r
All-at P [] i h at = absurd (ground arith)
All-at P (r ∷ rs) zero (h, _) at = rw⁻¹ (some-injective _ _ at) h
All-at P (r ∷ rs) (suc i) (_, hs) at = All-at P rs i hs at

pub to_domain-id :
    (codec : Codec)
    → (row : Row) (payload : RequestPayload) → codec.unmarshal row.request_payload ≡ some payload
    → (e : Extraction) × (to_domain codec row ≡ some e) × (e.id ≡ row.id)
unfolding to_domain
to_domain-id codec row payload decoded =
    let e : Extraction = record {
      id = row.id;
      source_type = row.source_type;
      source_id = row.source_id;
      status = row.status;
      request_payload = payload;
      artifact = artifact_of row;
      failure = failure_of row;
      created_at = row.created_at;
      updated_at = row.updated_at;
    } in
    (e, rw decoded refl, refl)

pub none-waiting : (rs : List Row) → any (has_status pending) rs ≡ false → waiting rs ≡ 0
none-waiting [] h = refl
none-waiting (r ∷ rs) h = ground (arith, none-waiting rs)
