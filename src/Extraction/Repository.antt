-- ===== src/Extraction/Repository.antt =====
-- The repository (internal/infrastructure/persistence/extraction/repo.go) over a table, a codec and
-- the reading of `time.Now()`. A failed statement surfaces as `catalogue_unavailable`.
pub mod Effects
pub mod Upserts
pub mod Clean
pub mod Sound
pub mod Edges
pub mod Claims
pub mod Waiting
use research_monitor.Base.{
  ℕ, zero, suc, Bool, true, false, ◌&&◌, String, List, [], ◌∷◌, Option, none, some, str_eq, keep_if,
  map, if◌then◌else◌,
}
use research_monitor.Sql.{
  Created, inserted, duplicated, create_failed, Found, found, absent, read_failed, Updated, updated,
  update_failed, Table,
}
use research_monitor.Text.{codes}
use research_monitor.Extraction.Types.{
  JobStatus, pending, running, done, failed, FailureReason, unset, expired, process_restart,
  Artifact, RequestPayload, Extraction, PriorState, Result, ok, err, not_found,
  catalogue_unavailable, invalid_transition, same_status,
}
use research_monitor.Extraction.Row.{Row, Codec, clash, same_source, from_domain, to_domain}

-- The row that `Upsert` builds for a payload.
abbrev pub fresh : RequestPayload → ℕ → Extraction
fresh payload now = record {
  id = "";
  source_type = payload.source_type;
  source_id = payload.source_id;
  status = pending;
  request_payload = payload;
  artifact = none;
  failure = none;
  created_at = now;
  updated_at = now;
}

-- The columns that an overwrite resets.
unfoldable pub reset : String → ℕ → Row → Row
reset payload now r = record r {
  status = pending;
  body_markdown = [];
  metadata_content_type = "";
  metadata_word_count = 0;
  title = [];
  failure_reason = unset;
  failure_message = [];
  request_payload = payload;
  created_at = now;
  updated_at = now;
}

abbrev pub has_status : JobStatus → Row → Bool
has_status status r = same_status r.status status

abbrev pub is_expired_reason : FailureReason → Bool
is_expired_reason expired = true
is_expired_reason _ = false

-- The prior status that `MarkFailed` demands.
unfoldable pub expected_prior : FailureReason → JobStatus
expected_prior reason = if is_expired_reason reason then pending else running

unfoldable pub to_running : ℕ → Row → Row
to_running now r = record r { status = running; updated_at = now }

unfoldable pub to_done : Artifact → ℕ → Row → Row
to_done a now r = record r {
  status = done;
  body_markdown = a.body_markdown;
  metadata_content_type = a.metadata.content_type;
  metadata_word_count = a.metadata.word_count;
  title = a.title;
  updated_at = now;
}

unfoldable pub to_failed : FailureReason → List ℕ → ℕ → Row → Row
to_failed reason message now r = record r {
  status = failed;
  failure_reason = reason;
  failure_message = message;
  updated_at = now;
}

-- The prior state that an overwrite reports.
abbrev pub prior_of : Row → PriorState
prior_of r = record { status = r.status; failure_reason = r.failure_reason }

module _ (t : Table Row clash) where
  open t use {Db, first, update, commits}

  -- The end of the transaction: a commit that fails rolls back to the state before.
  abbrev pub commit : Db → Row → Updated × Db → Result (String × Option PriorState) × Db
  commit before r (update_failed, after) = (err catalogue_unavailable, before)
  commit before r (updated n, after) =
      if commits after
      then (ok (r.id, some (prior_of r)), after)
      else (err catalogue_unavailable, before)

  abbrev pub overwrite :
      RequestPayload → String → ℕ → Db → Found Row → Result (String × Option PriorState) × Db
  unfolding reset
  overwrite payload column now db (found r) =
      commit db r (update (same_source payload.source_type payload.source_id) (reset column now) db)
  overwrite payload column now db _ = (err catalogue_unavailable, db)

  -- `overwriteOnConflict`; `First` orders by the primary key, and at most one row matches.
  unfoldable pub overwrite_on_conflict :
      RequestPayload → String → ℕ → Db → Result (String × Option PriorState) × Db
  unfolding reset
  overwrite_on_conflict payload column now db =
      overwrite payload column now db
        (first (same_source payload.source_type payload.source_id) (λ _. 0) db)

  abbrev pub checked : Updated × Db → Result (Unit {0}) × Db
  checked (update_failed, db) = (err catalogue_unavailable, db)
  checked (updated zero, db) = (err invalid_transition, db)
  checked (updated (suc n), db) = (ok tt, db)

  -- `transition`: an UPDATE gated on the id and the expected status.
  unfoldable pub transition : String → JobStatus → (Row → Row) → Db → Result (Unit {0}) × Db
  transition id expected_status change db =
      checked (update (λ r. str_eq r.id id && has_status expected_status r) change db)

  unfoldable pub claim_pending : ℕ → String → Db → Result (Unit {0}) × Db
  unfolding transition to_running
  claim_pending now id db = transition id pending (to_running now) db

  unfoldable pub mark_done : ℕ → String → Artifact → Db → Result (Unit {0}) × Db
  unfolding transition to_done
  mark_done now id artifact db = transition id running (to_done artifact now) db

  unfoldable pub mark_failed : ℕ → String → FailureReason → List ℕ → Db → Result (Unit {0}) × Db
  unfolding transition to_failed expected_prior
  mark_failed now id reason message db =
      transition id (expected_prior reason) (to_failed reason message now) db

  abbrev pub recovered : Updated × Db → Result ℕ × Db
  recovered (update_failed, db) = (err catalogue_unavailable, db)
  recovered (updated n, db) = (ok n, db)

  unfoldable pub recover_running_on_startup : ℕ → Db → Result ℕ × Db
  unfolding to_failed
  recover_running_on_startup now db = recovered (
      update (has_status running)
        (to_failed process_restart (codes "process exited while extraction was in flight") now) db)

module _ (t : Table Row clash) (codec : Codec) where
  open t use {Db, create, first}

  abbrev pub after_create :
      RequestPayload → Row → ℕ → Created × Db → Result (String × Option PriorState) × Db
  unfolding overwrite_on_conflict
  after_create payload row now (inserted, db) = (ok (row.id, none), db)
  after_create payload row now (duplicated, db) =
      overwrite_on_conflict t payload row.request_payload now db
  after_create payload row now (create_failed, db) = (err catalogue_unavailable, db)

  abbrev pub upsert_row :
      RequestPayload → ℕ → Db → Option Row → Result (String × Option PriorState) × Db
  unfolding overwrite_on_conflict
  upsert_row payload now db none = (err catalogue_unavailable, db)
  upsert_row payload now db (some row) = after_create payload row now (create row db)

  unfoldable pub upsert :
      String → ℕ → RequestPayload → Db → Result (String × Option PriorState) × Db
  unfolding from_domain overwrite_on_conflict
  upsert uuid now payload db =
      upsert_row payload now db (from_domain codec uuid (fresh payload now))

  abbrev converted : Option Extraction → Result Extraction
  converted none = err catalogue_unavailable
  converted (some e) = ok e

  abbrev read_one : Found Row → Result Extraction
  unfolding to_domain
  read_one (found r) = converted (to_domain codec r)
  read_one absent = err not_found
  read_one read_failed = err catalogue_unavailable

  unfoldable pub find_by_id : String → Db → Result Extraction
  unfolding to_domain
  find_by_id id db = read_one (first (λ r. str_eq r.id id) (λ _. 0) db)

  unfoldable pub found_pending : Found Row → Result (Option Extraction)
  unfolding to_domain
  found_pending (found r) = elim (to_domain codec r) [
    | none ↦ err catalogue_unavailable
    | some e ↦ ok (some e)
  ]
  found_pending absent = ok none
  found_pending read_failed = err catalogue_unavailable

  unfoldable pub peek_next_pending : Db → Result (Option Extraction)
  unfolding found_pending
  peek_next_pending db = found_pending (first (has_status pending) (λ r. r.created_at) db)

module _ (t : Table Row clash) where
  open t use {Db, find}

  abbrev pub plucked : Option (List Row) → Result (List String)
  plucked none = err catalogue_unavailable
  plucked (some rows) = ok (map (λ r. r.id) rows)

  unfoldable pub list_pending_ids : Db → Result (List String)
  list_pending_ids db = plucked (find (has_status pending) (λ r. r.created_at) false db)
