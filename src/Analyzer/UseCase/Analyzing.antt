-- ===== src/Analyzer/UseCase/Analyzing.antt =====
-- What `analyze` calls, stores and answers, on every branch.
use research_monitor.Base.{
  ℕ, ◌≡◌, ◌≢◌, refl, ◌∙◌, ap, any, get_elem?, ◌⊎◌, inl, inr, true, false, String, List, [], ◌∷◌,
  Option, none, some, arith, Bool-cases, Option-cases,
}
use research_monitor.Sql.{Table}
use research_monitor.Extraction.Types.{
  JobStatus, Artifact, Extraction, done, same_status, Result, Sentinel, ok, err, not_found,
}
use research_monitor.Extraction.Repository.Edges.{same_status-eq}
use research_monitor.Text.{trim_space}
use research_monitor.Analyzer.{
  Analysis, Row, Failure, extraction_not_found, extraction_not_ready, llm_upstream,
  analysis_not_found, catalogue_unavailable, Answer, value, fault, clash, from_domain, has_id,
  upsert,
}
use research_monitor.Analyzer.Storing.{Fresh, Rerun, StoreLaw, upsert_stores}
use research_monitor.Analyzer.UseCase.{
  LlmRequest, LlmResponse, Completion, call_failed, nil_response, response, prompt_short_system,
  prompt_long_system, thesis_rationale_placeholder, completed, analysis, ready_body, after_long,
  after_short, summarise,
}

-- What the LLM is asked about a body: first with the short prompt, then with the long one.
abbrev pub short_call : List ℕ → LlmRequest
short_call body = record {
  system_prompt = prompt_short_system;
  user_prompt = body;
  model = "";
  prompt_version = "analyzer.short.v1";
}

abbrev pub long_call : List ℕ → LlmRequest
long_call body = record {
  system_prompt = prompt_long_system;
  user_prompt = body;
  model = "";
  prompt_version = "analyzer.long.v1";
}

abbrev pub both : List ℕ → List LlmRequest
both body = short_call body ∷ (long_call body ∷ [])

-- The extraction was loaded, is done and has an artifact with this body.
abbrev pub IsReady : Result Extraction → List ℕ → Type 0
IsReady row body =
    (e : Extraction) × (a : Artifact) × (row ≡ ok e)
    × (e.status ≡ done)
    × (e.artifact ≡ some a)
    × (body ≡ a.body_markdown)

-- It is not done or has no artifact.
abbrev pub IsUnready : Extraction → Type 0
IsUnready e = (e.status ≢ done) ⊎ (e.artifact ≡ none)

-- The call failed, or its response is nil.
abbrev pub IsUnanswered : Completion → Type 0
IsUnanswered c = (c ≡ call_failed) ⊎ (c ≡ nil_response)

not_done : (status : JobStatus) → same_status status done ≡ false → status ≢ done
not_done status miss h = absurd (ground (arith, h))

ready_body-some :
    (e : Extraction) (body : List ℕ)
    → ready_body e ≡ some body
    → (a : Artifact) × (e.status ≡ done) × (e.artifact ≡ some a) × (body ≡ a.body_markdown)
ready_body-some e body h = elim (Bool-cases (same_status e.status done)) [
  | inl finished ↦ elim (Option-cases e.artifact) [
    | inl nothing ↦ absurd (ground arith)
    | inr (a, got) ↦ (a, same_status-eq e.status done finished, got, ground arith)
  ]
  | inr other ↦ absurd (ground arith)
]

ready_body-none : (e : Extraction) → ready_body e ≡ none → IsUnready e
ready_body-none e h = elim (Bool-cases (same_status e.status done)) [
  | inl finished ↦ elim (Option-cases e.artifact) [
    | inl nothing ↦ inr nothing
    | inr (a, got) ↦ absurd (ground arith)
  ]
  | inr other ↦ inl (not_done e.status other)
]

module _ (id : String) (now : ℕ) (row : Result Extraction)
    (first_call second : LlmRequest → Completion) where
  -- The stored analysis is made of the two responses.
  abbrev pub answer_of : LlmResponse → LlmResponse → ℕ → Analysis
  answer_of short long created = record {
    extraction_id = id;
    short_summary = trim_space short.text;
    long_summary = trim_space long.text;
    thesis_angle_flag = true;
    thesis_angle_rationale = thesis_rationale_placeholder;
    model = long.model;
    prompt_version = "analyzer.short.v1+analyzer.long.v1";
    created_at = created;
    updated_at = now;
  }

  abbrev pub row_of : LlmResponse → LlmResponse → ℕ → Row
  row_of short long created = record {
    extraction_id = id;
    short_summary = trim_space short.text;
    long_summary = trim_space long.text;
    thesis_angle_flag = true;
    thesis_angle_rationale = thesis_rationale_placeholder;
    model = long.model;
    prompt_version = "analyzer.short.v1+analyzer.long.v1";
    created_at = created;
    updated_at = now;
  }

  -- A first analysis is created now; a rerun keeps the time of creation of the row that it finds.
  abbrev pub Dated : List Row → ℕ → Type 0
  Dated before created =
      ((any (has_id id) before ≡ false) × (created ≡ now))
      ⊎ ((i : ℕ) × (r : Row) × (get_elem? before i ≡ some r)
          × (has_id id r ≡ true)
          × (created ≡ r.created_at))

  abbrev pub Answers : List Row → List LlmRequest → Analysis → List Row → Type 0
  Answers before calls stored after =
      (body : List ℕ) × (short : LlmResponse) × (long : LlmResponse) × IsReady row body
      × (calls ≡ both body)
      × (first_call (short_call body) ≡ response short)
      × (second (long_call body) ≡ response long)
      × ((created : ℕ) × Dated before created
          × (stored ≡ answer_of short long created)
          × ((i : ℕ) × (get_elem? after i ≡ some (row_of short long created))))

  -- Why an analysis failed, and after which calls.
  abbrev pub Fails : List LlmRequest → Failure → Type 0
  Fails calls extraction_not_found = (row ≡ err not_found) × (calls ≡ [])
  Fails calls extraction_not_ready = (calls ≡ []) × ((e : Extraction) × (row ≡ ok e) × IsUnready e)
  Fails calls llm_upstream =
      (body : List ℕ) × IsReady row body
      × (((calls ≡ short_call body ∷ []) × IsUnanswered (first_call (short_call body)))
          ⊎ ((calls ≡ both body) × IsUnanswered (second (long_call body))))
  Fails calls analysis_not_found = ⊥
  Fails calls catalogue_unavailable =
      ((calls ≡ []) × ((e : Sentinel) × (row ≡ err e)))
      ⊎ ((body : List ℕ) × (short : LlmResponse) × (long : LlmResponse) × IsReady row body
          × (calls ≡ both body)
          × (first_call (short_call body) ≡ response short)
          × (second (long_call body) ≡ response long))

  abbrev pub AnalyzeLaw : List Row → List LlmRequest → Answer Analysis → List Row → Type 0
  AnalyzeLaw before calls (value stored) after = Answers before calls stored after
  AnalyzeLaw before calls (fault f) after = Fails calls f × (after ≡ before)

  module _ (t : Table Row clash) (db : Table.Db t) where
    open t use {Db, rows}

    abbrev pub Law : List LlmRequest × Answer Analysis × Db → Type 0
    Law (calls, out, after) = AnalyzeLaw (rows db) calls out (rows after)

    dated_lem :
        (short long : LlmResponse) (stored : Analysis) (before after : List Row)
        → Fresh (answer_of short long now) before stored after
          ⊎ Rerun (answer_of short long now) before stored after
        → (created : ℕ) × Dated before created × (stored ≡ answer_of short long created)
    dated_lem short long stored before after (inl (same, _, nobody)) =
        (now, inl (nobody, refl), same)
    dated_lem short long stored before after (inr (i, r, at, hit, same, _)) =
        (r.created_at, inr (i, r, at, hit, refl), same)

    stored_lem :
        (body : List ℕ) (short long : LlmResponse)
        → IsReady row body
        → first_call (short_call body) ≡ response short
        → second (long_call body) ≡ response long
        → (out : Answer Analysis × Db)
        → StoreLaw (analysis id short.text long now) (rows db) out.0 (rows out.1)
        → Law (both body, out.0, out.1)
    unfolding analysis
    stored_lem body short long ready s l (value stored, after) ((i, at), how) =
        let (created, dated, same) = dated_lem short long stored (rows db) (rows after) how in
        (
          body,
          short,
          long,
          ready,
          refl,
          s,
          l,
          (created, dated, same, (i, at ∙ ap (λ (a : Analysis). some (from_domain a)) same)),
        )
    stored_lem body short long ready s l (fault extraction_not_found, after) (e, same) =
        absurd (ground arith)
    stored_lem body short long ready s l (fault extraction_not_ready, after) (e, same) =
        absurd (ground arith)
    stored_lem body short long ready s l (fault llm_upstream, after) (e, same) =
        absurd (ground arith)
    stored_lem body short long ready s l (fault analysis_not_found, after) (e, same) =
        absurd (ground arith)
    stored_lem body short long ready s l (fault catalogue_unavailable, after) (e, same) =
        (inr (body, short, long, ready, refl, s, l), same)

    after_long_lem :
        (body : List ℕ) (short : LlmResponse)
        → IsReady row body
        → first_call (short_call body) ≡ response short
        → (c : Completion) → second (long_call body) ≡ c
        → Law (after_long t id now body short.text db (completed c))
    unfolding analysis upsert
    after_long_lem body short ready s call_failed l = ((body, ready, inr (refl, inl l)), refl)
    after_long_lem body short ready s nil_response l = ((body, ready, inr (refl, inr l)), refl)
    after_long_lem body short ready s (response long) l =
        stored_lem body short long ready s l (upsert t (analysis id short.text long now) db)
          (upsert_stores t (analysis id short.text long now) db)

    after_short_lem :
        (body : List ℕ)
        → IsReady row body
        → (c : Completion) → first_call (short_call body) ≡ c
        → Law (after_short t id now second body db (completed c))
    unfolding analysis upsert
    after_short_lem body ready call_failed s = ((body, ready, inl (refl, inl s)), refl)
    after_short_lem body ready nil_response s = ((body, ready, inl (refl, inr s)), refl)
    after_short_lem body ready (response short) s =
        after_long_lem body short ready s (second (long_call body)) refl

    pub summarise_lem :
        (e : Extraction)
        → row ≡ ok e
        → (body : Option (List ℕ)) → ready_body e ≡ body
        → Law (summarise t id now first_call second db body)
    unfolding analysis upsert
    summarise_lem e loaded none h = ((refl, (e, loaded, ready_body-none e h)), refl)
    summarise_lem e loaded (some body) h =
        let (a, finished, got, same) = ready_body-some e body h in
        after_short_lem body (e, a, loaded, finished, got, same) (first_call (short_call body)) refl
