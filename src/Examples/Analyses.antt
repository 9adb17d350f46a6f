-- ===== src/Examples/Analyses.antt =====
-- Analyses, applied.
use research_monitor.Base.{◌≡◌, refl, [], ◌∷◌}
use research_monitor.Text.{codes}
use research_monitor.Sql.{Table}
use research_monitor.Extraction.Types.{ok}
use research_monitor.Analyzer.{Row, clash, value, from_domain, upsert, find_by_id}
use research_monitor.Analyzer.UseCase.{
  LlmRequest, LlmResponse, Completion, response, analysis, analyze,
}
use research_monitor.Analyzer.UseCase.Analyzing.{AnalyzeLaw}
use research_monitor.Analyzer.UseCase.Outcome.{analyze_lem}
use research_monitor.Examples.Memory.{memory}
use research_monitor.Examples.Catalogue.{finished}

abbrev table : Table Row clash
table = memory clash

abbrev reply : LlmRequest → Completion
reply _ = response (record { text = codes " a summary\n"; model = "m" })

abbrev long_reply : LlmResponse
long_reply = record { text = codes "all of it"; model = "m" }

abbrev stored_row : Row
stored_row = from_domain (analysis "x" (codes "old") long_reply 3)

-- A rerun keeps the time of creation, and is found under the id.
rerun_keeps :
    find_by_id table "x"
      (upsert table (analysis "x" (codes "new") long_reply 9) (stored_row ∷ [])).1
    ≡ value (record (analysis "x" (codes "new") long_reply 9) { created_at = 3 })
unfolding find_by_id upsert analysis
rerun_keeps = refl

analyze_lem_example :
    AnalyzeLaw "x" 9
      (ok finished)
      reply
      reply
      (stored_row ∷ [])
      (analyze table "x" 9 (ok finished) reply reply (stored_row ∷ [])).0
      (analyze table "x" 9 (ok finished) reply reply (stored_row ∷ [])).1
      (analyze table "x" 9 (ok finished) reply reply (stored_row ∷ [])).2
analyze_lem_example = analyze_lem table "x" 9 reply reply (ok finished) (stored_row ∷ [])
