-- ===== src/Extraction/Repository/Upserts.antt =====
-- What `Upsert` does to the rows, on every branch.
use research_monitor.Base.{
  ℕ, ◌≡◌, refl, Bool, true, false, String, List, [], ◌∷◌, ◌++◌, Option, none, some, any, get_elem?,
  if◌then◌else◌,
}
use research_monitor.Sql.{
  Created, inserted, duplicated, create_failed, Found, found, absent, read_failed, Updated, updated,
  update_failed, update_where, CreateLaw, FirstLaw, UpdateLaw, Table,
}
use research_monitor.Extraction.Types.{
  pending, unset, RequestPayload, PriorState, Result, ok, err, catalogue_unavailable,
}
use research_monitor.Extraction.Row.{Row, Codec, clash, same_source}
use research_monitor.Extraction.Repository.{
  reset, prior_of, commit, overwrite, overwrite_on_conflict, after_create, upsert,
}

-- The row of a first submission.
abbrev pub new_row : String → String → ℕ → RequestPayload → Row
new_row uuid column now payload = record {
  id = uuid;
  source_type = payload.source_type;
  source_id = payload.source_id;
  status = pending;
  request_payload = column;
  body_markdown = [];
  metadata_content_type = "";
  metadata_word_count = 0;
  title = [];
  failure_reason = unset;
  failure_message = [];
  created_at = now;
  updated_at = now;
}

abbrev pub has_source : RequestPayload → Row → Bool
has_source payload = same_source payload.source_type payload.source_id

-- What a row becomes when its source is submitted again: its id and its source stay.
abbrev pub renewed_row : String → ℕ → Row → Row
renewed_row column now r = record {
  id = r.id;
  source_type = r.source_type;
  source_id = r.source_id;
  status = pending;
  request_payload = column;
  body_markdown = [];
  metadata_content_type = "";
  metadata_word_count = 0;
  title = [];
  failure_reason = unset;
  failure_message = [];
  created_at = now;
  updated_at = now;
}

-- The row that an overwrite found and reports.
abbrev pub Overwrites : RequestPayload → List Row → String → PriorState → Type 0
Overwrites payload before id prior =
    (i : ℕ) × (r : Row) × (get_elem? before i ≡ some r)
    × (has_source payload r ≡ true)
    × (id ≡ r.id)
    × (prior ≡ prior_of r)

abbrev pub UpsertLaw :
    String
    → ℕ
    → RequestPayload
    → String
    → List Row
    → Result (String × Option PriorState)
    → List Row
    → Type 0
UpsertLaw uuid now payload column before (ok (id, none)) after =
    (id ≡ uuid)
    × (after ≡ before ++ new_row uuid column now payload ∷ [])
    × (any (clash (new_row uuid column now payload)) before ≡ false)
UpsertLaw uuid now payload column before (ok (id, some prior)) after =
    Overwrites payload before id prior
    × (after ≡ update_where (has_source payload) (renewed_row column now) before)
UpsertLaw uuid now payload column before (err f) after =
    (f ≡ catalogue_unavailable) × (after ≡ before)

module _ (t : Table Row clash) (uuid : String) (now : ℕ) (payload : RequestPayload)
    (column : String) where
  open t use {Db, rows, create, create_lem, first, first_lem, update, update_lem, commits}

  abbrev Law : Db → Result (String × Option PriorState) × Db → Type 0
  Law db out = UpsertLaw uuid now payload column (rows db) out.0 (rows out.1)

  commit_lem :
      (before : Db) (r : Row) (u : Updated × Db)
      → Overwrites payload (rows before) r.id (prior_of r)
      → UpdateLaw (has_source payload) (reset column now) (rows before) u.0 (rows u.1)
      → Law before (commit t before r u)
  unfolding reset
  commit_lem before r (update_failed, after) o h = (refl, refl)
  commit_lem before r (updated n, after) o h =
      elim (commits after)
        as (λ c. Law before (
          if c
          then (ok (r.id, some (prior_of r)), after)
          else (err catalogue_unavailable, before))) [ true ↦ (o, h.0) | false ↦ (refl, refl) ]

  overwrite_lem :
      (db : Db) (f : Found Row)
      → FirstLaw (has_source payload) (λ _. 0) (rows db) f
      → Law db (overwrite t payload column now db f)
  unfolding overwrite
  overwrite_lem db (found r) (p, (i, at), least) =
      commit_lem db r (update (has_source payload) (reset column now) db) (i, r, at, p, refl, refl)
        (update_lem (has_source payload) (reset column now) db)
  overwrite_lem db absent h = (refl, refl)
  overwrite_lem db read_failed h = (refl, refl)

module _ (t : Table Row clash) (codec : Codec) (uuid : String) (now : ℕ) (payload : RequestPayload)
    (column : String) where
  open t use {Db, rows, create, create_lem, first, first_lem}

  after_create_lem :
      (db : Db) (c : Created × Db)
      → CreateLaw clash (new_row uuid column now payload) (rows db) c.0 (rows c.1)
      → Law t uuid now payload column db
          (after_create t codec payload (new_row uuid column now payload) now c)
  unfolding overwrite_on_conflict
  after_create_lem db (inserted, after) (same, free) = (refl, same, free)
  after_create_lem db (duplicated, after) (same, _) = rw (← same) (
      overwrite_lem t uuid now payload column after (first (has_source payload) (λ _. 0) after)
        (first_lem (has_source payload) (λ _. 0) after))
  after_create_lem db (create_failed, after) h = (refl, h)

  -- `Upsert` either appends one fresh pending row, with the new id, where no row clashes with it; or
  -- makes the row with this source a pending one with the new payload and the present time as its
  -- time of creation and of update, empty in the columns of the artifact and of the failure, under
  -- its old id, and reports that id and the status and the failure reason that this row had; or fails
  -- with `catalogue_unavailable` and leaves the rows as they were.
  pub upsert_lem :
      (db : Db)
      → codec.marshal payload ≡ some column
      → UpsertLaw uuid now payload column
          (rows db)
          (upsert t codec uuid now payload db).0
          (rows (upsert t codec uuid now payload db).1)
  unfolding upsert
  upsert_lem db marshalled = rw marshalled (
      after_create_lem db (create (new_row uuid column now payload) db)
        (create_lem (new_row uuid column now payload) db))
