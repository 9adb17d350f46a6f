-- ===== src/Analyzer/UseCase/Outcome.antt =====
-- The outcome of `analyze`.
use research_monitor.Base.{ℕ, refl, inl, String}
use research_monitor.Sql.{Table}
use research_monitor.Extraction.Types.{
  Extraction, Result, ok, err, invalid_request, unsupported_source_type, not_found,
  catalogue_unavailable, invalid_transition, scanned_pdf_error, parse_failed_error,
  extractor_failure_error,
}
use research_monitor.Analyzer.{Row, clash}
use research_monitor.Analyzer.UseCase.{LlmRequest, Completion, ready_body, analyze}
use research_monitor.Analyzer.UseCase.Analyzing.{AnalyzeLaw, summarise_lem}

module _ (t : Table Row clash) (id : String) (now : ℕ)
    (first_call second : LlmRequest → Completion) where
  open t use {Db, rows}

  -- `Analyze` answers with an analysis only if the extraction was loaded, is done and has an artifact,
  -- and both calls, the short prompt first and the long one next with its body, were answered: a row of
  -- the table then holds the answer, whose short summary is the trimmed text of the first response,
  -- whose long summary and model are the trimmed text and the model of the second, whose time of update
  -- is the present, and whose time of creation is the present too, or, where a row had the id before,
  -- that of such a row. Every failure leaves the rows as they were
  -- and has its cause: an extraction that is not found, or is not done or without artifact, makes no
  -- call; a call that fails or answers nil ends the analysis there; the catalogue is unavailable where
  -- the extraction cannot be loaded, or after both calls were answered.
  pub analyze_lem :
      (row : Result Extraction) (db : Db)
      → AnalyzeLaw id now row first_call second
          (rows db)
          (analyze t id now row first_call second db).0
          (analyze t id now row first_call second db).1
          (rows (analyze t id now row first_call second db).2)
  unfolding analyze
  analyze_lem (ok e) db =
      summarise_lem id now (ok e) first_call second t db e refl (ready_body e) refl
  analyze_lem (err not_found) db = ((refl, refl), refl)
  analyze_lem (err invalid_request) db = (inl (refl, (invalid_request, refl)), refl)
  analyze_lem (err unsupported_source_type) db = (inl (refl, (unsupported_source_type, refl)), refl)
  analyze_lem (err catalogue_unavailable) db = (inl (refl, (catalogue_unavailable, refl)), refl)
  analyze_lem (err invalid_transition) db = (inl (refl, (invalid_transition, refl)), refl)
  analyze_lem (err scanned_pdf_error) db = (inl (refl, (scanned_pdf_error, refl)), refl)
  analyze_lem (err parse_failed_error) db = (inl (refl, (parse_failed_error, refl)), refl)
  analyze_lem (err extractor_failure_error) db = (inl (refl, (extractor_failure_error, refl)), refl)
