-- ===== src/Analyzer/UseCase.antt =====
-- The use case (internal/application/analyzer/usecase.go): `analyze` with the calls of the LLM that
-- it makes, in order. What the repository of extractions answers, what the LLM answers to the first
-- and to the second call, and the reading of the clock are arguments; logging is left out.
pub mod Analyzing
pub mod Outcome
use research_monitor.Base.{ℕ, Bool, true, String, List, [], ◌∷◌, Option, none, some, if◌then◌else◌}
use research_monitor.Sql.{Table}
use research_monitor.Text.{trim_space}
use research_monitor.Extraction.Types.{
  Artifact, Extraction, done, same_status, Result, ok, err, not_found,
}
use research_monitor.Analyzer.{
  Analysis, Row, Failure, extraction_not_found, extraction_not_ready, llm_upstream,
  catalogue_unavailable, Answer, value, fault, clash, upsert, find_by_id,
}

-- `shared.LLMRequest`
pub record LlmRequest : Type 0 where
  pub system_prompt : String
  pub user_prompt : List ℕ
  pub model : String
  pub prompt_version : String

-- The text and the model of `shared.LLMResponse`.
pub record LlmResponse : Type 0 where
  pub text : List ℕ
  pub model : String

-- What `LLMClient.Complete` answers: an error, a nil response without one, or a response.
pub data Completion : Type 0 where
  call_failed nil_response : Completion
  response : LlmResponse → Completion

abbrev pub prompt_version_short : String
prompt_version_short = "analyzer.short.v1"

abbrev pub prompt_version_long : String
prompt_version_long = "analyzer.long.v1"

abbrev pub prompt_version_composite : String
prompt_version_composite = "analyzer.short.v1+analyzer.long.v1"

abbrev pub prompt_short_system : String
prompt_short_system =
    "You are a research assistant. Produce a short summary of the paper below.\nConstraints:\n- Two to four sentences.\n- No preamble, no markdown, no headers.\n- Plain prose only."

abbrev pub prompt_long_system : String
prompt_long_system =
    "You are a research assistant. Produce a long, structured summary of the paper below.\nConstraints:\n- Plain prose, may use short paragraphs but no markdown headers or lists.\n- Cover problem, approach, key findings, and stated limitations."

abbrev pub thesis_rationale_placeholder : String
thesis_rationale_placeholder =
    "default — thesis classification not yet implemented; see thesis-profile follow-up spec."

abbrev pub request : String → String → List ℕ → LlmRequest
request version system body = record {
  system_prompt = system;
  user_prompt = body;
  model = "";
  prompt_version = version;
}

abbrev pub short_request : List ℕ → LlmRequest
short_request body = request prompt_version_short prompt_short_system body

abbrev pub long_request : List ℕ → LlmRequest
long_request body = request prompt_version_long prompt_long_system body

-- What `complete` makes of the answer.
abbrev pub completed : Completion → Answer LlmResponse
completed call_failed = fault llm_upstream
completed nil_response = fault llm_upstream
completed (response r) = value r

-- The analysis that is stored.
unfoldable pub analysis : String → List ℕ → LlmResponse → ℕ → Analysis
unfolding trim_space
analysis id short_text long now = record {
  extraction_id = id;
  short_summary = trim_space short_text;
  long_summary = trim_space long.text;
  thesis_angle_flag = true;
  thesis_angle_rationale = thesis_rationale_placeholder;
  model = long.model;
  prompt_version = prompt_version_composite;
  created_at = now;
  updated_at = now;
}

abbrev pub body_of : Option Artifact → Option (List ℕ)
body_of none = none
body_of (some a) = some a.body_markdown

-- The body of an extraction that is done and has an artifact.
abbrev pub ready_body : Extraction → Option (List ℕ)
ready_body e = if same_status e.status done then body_of e.artifact else none

module _ (t : Table Row clash) (id : String) (now : ℕ) where
  open t use {Db}

  -- The calls made, the answer and the state of the table.
  abbrev pub Outcome : Type 0
  Outcome = List LlmRequest × Answer Analysis × Db

  abbrev pub after_long : List ℕ → List ℕ → Db → Answer LlmResponse → Outcome
  unfolding analysis upsert
  after_long body short_text db (fault f) =
      (short_request body ∷ (long_request body ∷ []), fault f, db)
  after_long body short_text db (value long) =
      let out = upsert t (analysis id short_text long now) db in
      (short_request body ∷ (long_request body ∷ []), out.0, out.1)

  abbrev pub after_short : (LlmRequest → Completion) → List ℕ → Db → Answer LlmResponse → Outcome
  unfolding analysis upsert
  after_short second body db (fault f) = (short_request body ∷ [], fault f, db)
  after_short second body db (value short) =
      after_long body short.text db (completed (second (long_request body)))

  abbrev pub summarise :
      (LlmRequest → Completion) → (LlmRequest → Completion) → Db → Option (List ℕ) → Outcome
  unfolding analysis upsert
  summarise first_call second db none = ([], fault extraction_not_ready, db)
  summarise first_call second db (some body) =
      after_short second body db (completed (first_call (short_request body)))

  unfoldable pub analyze :
      Result Extraction → (LlmRequest → Completion) → (LlmRequest → Completion) → Db → Outcome
  unfolding analysis upsert
  analyze (err not_found) first_call second db = ([], fault extraction_not_found, db)
  analyze (err _) first_call second db = ([], fault catalogue_unavailable, db)
  analyze (ok e) first_call second db = summarise first_call second db (ready_body e)

  unfoldable pub get : Db → Answer Analysis
  unfolding find_by_id
  get db = find_by_id t id db
