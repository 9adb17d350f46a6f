-- ===== src/Analyzer.antt =====
-- Analyses of extractions: the domain type (internal/domain/analyzer), the repository
-- (internal/infrastructure/persistence/analyzer) and the use case (internal/application/analyzer).
-- The extraction's repository, the LLM and the clock are given by their answers; an error is told by
-- its sentinel alone.
pub mod Storing
pub mod UseCase
use research_monitor.Base.{
  ℕ, Bool, true, false, String, List, [], ◌∷◌, Option, none, some, str_eq, if◌then◌else◌,
}
use research_monitor.Sql.{
  Created, inserted, duplicated, create_failed, Found, found, absent, read_failed, Updated, updated,
  update_failed, Table,
}
use research_monitor.Text.{codes, trim_space}
use research_monitor.Extraction.Types.{Extraction, Artifact, same_status}

-- The struct `Analysis` of the domain.
pub record Analysis : Type 0 where
  pub extraction_id : String
  pub short_summary : List ℕ
  pub long_summary : List ℕ
  pub thesis_angle_flag : Bool
  pub thesis_angle_rationale : String
  pub model : String
  pub prompt_version : String
  pub created_at : ℕ
  pub updated_at : ℕ

-- The struct `Analysis` of the adapter.
pub record Row : Type 0 where
  pub extraction_id : String
  pub short_summary : List ℕ
  pub long_summary : List ℕ
  pub thesis_angle_flag : Bool
  pub thesis_angle_rationale : String
  pub model : String
  pub prompt_version : String
  pub created_at : ℕ
  pub updated_at : ℕ

-- The sentinels of errors.go that the code returns.
pub data Failure : Type 0 where
  extraction_not_found extraction_not_ready llm_upstream : Failure
  analysis_not_found catalogue_unavailable : Failure

pub data Answer {ℓ} (A : Type ℓ) : Type ℓ where
  value : A → Answer A
  fault : Failure → Answer A

abbrev pub from_domain : Analysis → Row
from_domain a = record {
  extraction_id = a.extraction_id;
  short_summary = a.short_summary;
  long_summary = a.long_summary;
  thesis_angle_flag = a.thesis_angle_flag;
  thesis_angle_rationale = a.thesis_angle_rationale;
  model = a.model;
  prompt_version = a.prompt_version;
  created_at = a.created_at;
  updated_at = a.updated_at;
}

abbrev pub to_domain : Row → Analysis
to_domain m = record {
  extraction_id = m.extraction_id;
  short_summary = m.short_summary;
  long_summary = m.long_summary;
  thesis_angle_flag = m.thesis_angle_flag;
  thesis_angle_rationale = m.thesis_angle_rationale;
  model = m.model;
  prompt_version = m.prompt_version;
  created_at = m.created_at;
  updated_at = m.updated_at;
}

abbrev pub has_id : String → Row → Bool
has_id id r = str_eq r.extraction_id id

-- The primary key.
abbrev pub clash : Row → Row → Bool
clash r s = has_id r.extraction_id s

-- The columns that an overwrite sets: all but the key and the time of creation.
unfoldable pub set_columns : Analysis → Row → Row
set_columns a r = record r {
  short_summary = a.short_summary;
  long_summary = a.long_summary;
  thesis_angle_flag = a.thesis_angle_flag;
  thesis_angle_rationale = a.thesis_angle_rationale;
  model = a.model;
  prompt_version = a.prompt_version;
  updated_at = a.updated_at;
}

module _ (t : Table Row clash) where
  open t use {Db, create, first, update, commits}

  -- The end of the transaction: a commit that fails rolls back to the state before.
  abbrev pub commit : Analysis → Db → Row → Updated × Db → Answer Analysis × Db
  commit a before r (update_failed, after) = (fault catalogue_unavailable, before)
  commit a before r (updated n, after) =
      if commits after
      then (value (record a { created_at = r.created_at }), after)
      else (fault catalogue_unavailable, before)

  abbrev pub overwrite : Analysis → Db → Found Row → Answer Analysis × Db
  unfolding set_columns
  overwrite a db (found r) = commit a db r (update (has_id a.extraction_id) (set_columns a) db)
  overwrite a db _ = (fault catalogue_unavailable, db)

  -- `overwriteOnConflict`; `First` orders by the primary key, and at most one row matches.
  unfoldable pub overwrite_on_conflict : Analysis → Db → Answer Analysis × Db
  unfolding set_columns
  overwrite_on_conflict a db = overwrite a db (first (has_id a.extraction_id) (λ _. 0) db)

  abbrev pub after_create : Analysis → Created × Db → Answer Analysis × Db
  unfolding overwrite_on_conflict
  after_create a (inserted, db) = (value (to_domain (from_domain a)), db)
  after_create a (duplicated, db) = overwrite_on_conflict a db
  after_create a (create_failed, db) = (fault catalogue_unavailable, db)

  unfoldable pub upsert : Analysis → Db → Answer Analysis × Db
  unfolding overwrite_on_conflict
  upsert a db = after_create a (create (from_domain a) db)

  abbrev pub read_one : Found Row → Answer Analysis
  read_one (found r) = value (to_domain r)
  read_one absent = fault analysis_not_found
  read_one read_failed = fault catalogue_unavailable

  unfoldable pub find_by_id : String → Db → Answer Analysis
  find_by_id id db = read_one (first (has_id id) (λ _. 0) db)
