-- ===== src/Analyzer/Storing.antt =====
-- What `Upsert` stores and answers.
use research_monitor.Base.{
  ℕ, suc, ◌≡◌, refl, ap, ◌∙◌, ◌⊎◌, inl, inr, true, false, List, [], ◌∷◌, ◌++◌, some, any, get_elem?,
  eq_iff, zero, if◌then◌else◌, arith,
}
use research_monitor.Sql.Rows.{update_where-at}
use research_monitor.Sql.{
  Created, inserted, duplicated, create_failed, Found, found, absent, read_failed, Updated, updated,
  update_failed, update_where, CreateLaw, FirstLaw, UpdateLaw, Table,
}
use research_monitor.Analyzer.{
  Analysis, Row, catalogue_unavailable, Answer, value, fault, from_domain, has_id, clash,
  set_columns, commit, overwrite, overwrite_on_conflict, after_create, upsert,
}

module _ {A : Type 0} where
  get_elem?-last : (xs : List A) (x : A) → (i : ℕ) × (get_elem? (xs ++ x ∷ []) i ≡ some x)
  get_elem?-last [] x = (zero, refl)
  get_elem?-last (y ∷ xs) x = let (i, at) = get_elem?-last xs x in (suc i, at)

-- The row under the key, rewritten, is the row of the answer.
set_columns-from_domain :
    (a : Analysis) (r : Row)
    → r.extraction_id ≡ a.extraction_id
    → set_columns a r ≡ from_domain (record a { created_at = r.created_at })
unfolding set_columns
set_columns-from_domain a r h = rw h refl

-- A first analysis: the row is appended.
abbrev pub Fresh : Analysis → List Row → Analysis → List Row → Type 0
Fresh a before stored after =
    (stored ≡ a)
    × (after ≡ before ++ from_domain a ∷ [])
    × (any (has_id a.extraction_id) before ≡ false)

-- Another analysis: the row under the key is rewritten, and keeps its time of creation.
abbrev pub Rerun : Analysis → List Row → Analysis → List Row → Type 0
Rerun a before stored after =
    (i : ℕ) × (r : Row) × (get_elem? before i ≡ some r)
    × (has_id a.extraction_id r ≡ true)
    × (stored ≡ record a { created_at = r.created_at })
    × (after ≡ update_where (has_id a.extraction_id) (set_columns a) before)

abbrev pub Holds : List Row → Analysis → Type 0
Holds rows a = (i : ℕ) × (get_elem? rows i ≡ some (from_domain a))

abbrev pub StoreLaw : Analysis → List Row → Answer Analysis → List Row → Type 0
StoreLaw a before (value stored) after =
    Holds after stored × (Fresh a before stored after ⊎ Rerun a before stored after)
StoreLaw a before (fault e) after = (e ≡ catalogue_unavailable) × (after ≡ before)

module _ (t : Table Row clash) (a : Analysis) where
  open t use {Db, rows, create, create_lem, first, first_lem, update, update_lem, commits}

  abbrev Law : Db → Answer Analysis × Db → Type 0
  Law db out = StoreLaw a (rows db) out.0 (rows out.1)

  -- The rewritten row stands where the old one stood.
  rewritten :
      (before : Db) (r : Row) (i : ℕ)
      → get_elem? (rows before) i ≡ some r
      → has_id a.extraction_id r ≡ true
      → get_elem? (update_where (has_id a.extraction_id) (set_columns a) (rows before)) i
        ≡ some (from_domain (record a { created_at = r.created_at }))
  rewritten before r i at hit =
      update_where-at (has_id a.extraction_id) (set_columns a) (rows before) i r at hit
      ∙ ap some (
          set_columns-from_domain a r (ground (arith, hit, eq_iff r.extraction_id a.extraction_id)))

  commit_lem :
      (before : Db) (r : Row) (u : Updated × Db)
      → (i : ℕ) × (get_elem? (rows before) i ≡ some r)
      → has_id a.extraction_id r ≡ true
      → UpdateLaw (has_id a.extraction_id) (set_columns a) (rows before) u.0 (rows u.1)
      → Law before (commit t a before r u)
  commit_lem before r (update_failed, after) o hit h = (refl, refl)
  commit_lem before r (updated n, after) (i, at) hit (same, _) =
      elim (commits after)
        as (λ c. Law before (
          if c
          then (value (record a { created_at = r.created_at }), after)
          else (fault catalogue_unavailable, before))) [
            | true ↦ (
              (i, ap (λ rs. get_elem? rs i) same ∙ rewritten before r i at hit),
              inr (i, r, at, hit, refl, same),
            )
            | false ↦ (refl, refl)
          ]

  overwrite_lem :
      (db : Db) (f : Found Row)
      → FirstLaw (has_id a.extraction_id) (λ _. 0) (rows db) f
      → Law db (overwrite t a db f)
  unfolding overwrite
  overwrite_lem db (found r) (hit, at, least) =
      commit_lem db r (update (has_id a.extraction_id) (set_columns a) db) at hit
        (update_lem (has_id a.extraction_id) (set_columns a) db)
  overwrite_lem db absent h = (refl, refl)
  overwrite_lem db read_failed h = (refl, refl)

  after_create_lem :
      (db : Db) (c : Created × Db)
      → CreateLaw clash (from_domain a) (rows db) c.0 (rows c.1)
      → Law db (after_create t a c)
  unfolding overwrite_on_conflict
  after_create_lem db (inserted, after) (same, free) =
      let (i, at) = get_elem?-last (rows db) (from_domain a) in
      ((i, ap (λ rs. get_elem? rs i) same ∙ at), inl (refl, same, free))
  after_create_lem db (duplicated, after) (same, _) = rw (← same) (
      overwrite_lem after (first (has_id a.extraction_id) (λ _. 0) after)
        (first_lem (has_id a.extraction_id) (λ _. 0) after))
  after_create_lem db (create_failed, after) h = (refl, h)

  -- `Upsert` of an analysis answers with the analysis that the table then holds. Either no row had
  -- its extraction id, and it is appended as it is; or the row with this id takes all its columns
  -- but the time of creation, which the answer shows as the row had it. Otherwise the answer is that
  -- the catalogue is unavailable, and no row has changed.
  pub upsert_stores : (db : Db) → StoreLaw a (rows db) (upsert t a db).0 (rows (upsert t a db).1)
  unfolding upsert
  upsert_stores db = after_create_lem db (create (from_domain a) db) (create_lem (from_domain a) db)
