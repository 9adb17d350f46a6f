-- ===== src/Paper/Catalogue.antt =====
-- The repository of papers (internal/infrastructure/persistence/paper/repo.go, model.go) over a
-- table. The JSON codec of the list columns, the fresh uuid and the reading of the clock are
-- parameters; an error is told by its sentinel alone. A zero time is 0.
use research_monitor.Base.{
  ℕ, zero, suc, ◌≡◌, Bool, true, false, ◌&&◌, ◌||◌, String, List, [], ◌∷◌, Option, none, some,
  str_eq, ◌>>=◌,
}
use research_monitor.Sql.{
  Created, inserted, duplicated, create_failed, Found, found, absent, read_failed, Table,
}
use research_monitor.Paper.{Entry}

-- The struct `Paper`.
pub record Row : Type 0 where
  pub id : String
  pub source : String
  pub source_id : String
  pub version : String
  pub title : String
  pub authors : String
  pub abstract : String
  pub primary_category : String
  pub categories : String
  pub submitted_at : ℕ
  pub updated_at : ℕ
  pub pdf_url : String
  pub abs_url : String
  pub created_at : ℕ

-- `json.Marshal` and `json.Unmarshal` at `[]string`; `none` is an error.
pub record ListCodec : Type 0 where
  pub marshal : List String → Option String
  pub unmarshal : String → Option (List String)
  pub marshal-some : (xs : List String) → (s : String) × (marshal xs ≡ some s)
  pub unmarshal-marshal :
      (xs : List String) (s : String) → marshal xs ≡ some s → unmarshal s ≡ some xs

-- A result, or one of the two catalogue sentinels of domain/paper/errors.go.
pub data Answer {ℓ} (A : Type ℓ) : Type ℓ where
  value : A → Answer A
  not_found : Answer A
  catalogue_unavailable : Answer A

-- The composite unique index, and the primary key.
abbrev pub has_key : String → String → Row → Bool
has_key source source_id r = str_eq r.source source && str_eq r.source_id source_id

abbrev pub clash : Row → Row → Bool
clash r s = str_eq s.id r.id || has_key r.source r.source_id s

-- GORM's auto-create and auto-update times: a time that is zero at `Create` becomes the present one.
abbrev pub filled : ℕ → ℕ → ℕ
filled now zero = now
filled now (suc time) = suc time

unfoldable pub stamped : ℕ → Row → Row
stamped now m = record m {
  created_at = filled now m.created_at;
  updated_at = filled now m.updated_at;
}

module _ (codec : ListCodec) where
  -- `FromDomain`; the time of creation is left zero.
  unfoldable pub from_domain : String → Entry → Option Row
  from_domain uuid e = do
    authors ← codec.marshal e.authors
    categories ← codec.marshal e.categories
    some (record {
      id = uuid;
      source = e.source;
      source_id = e.source_id;
      version = e.version;
      title = e.title;
      authors = authors;
      abstract = e.abstract;
      primary_category = e.primary_category;
      categories = categories;
      submitted_at = e.submitted_at;
      updated_at = e.updated_at;
      pdf_url = e.pdf_url;
      abs_url = e.abs_url;
      created_at = 0;
    })

  -- `ToDomain`
  unfoldable pub to_domain : Row → Option Entry
  to_domain m = do
    authors ← codec.unmarshal m.authors
    categories ← codec.unmarshal m.categories
    some (record {
      source = m.source;
      source_id = m.source_id;
      version = m.version;
      title = m.title;
      authors = authors;
      abstract = m.abstract;
      primary_category = m.primary_category;
      categories = categories;
      submitted_at = m.submitted_at;
      updated_at = m.updated_at;
      pdf_url = m.pdf_url;
      abs_url = m.abs_url;
    })

  unfoldable pub convert_all : List Row → Option (List Entry)
  unfolding to_domain
  convert_all [] = some []
  convert_all (m ∷ rows) = do e ← to_domain m; es ← convert_all rows; some (e ∷ es)

module _ (t : Table Row clash) (codec : ListCodec) where
  open t use {Db, create, first, find}

  abbrev pub created : Created × Db → Answer Bool × Db
  created (inserted, db) = (value true, db)
  created (duplicated, db) = (value false, db)
  created (create_failed, db) = (catalogue_unavailable, db)

  abbrev pub save_row : ℕ → Db → Option Row → Answer Bool × Db
  unfolding stamped
  save_row now db none = (catalogue_unavailable, db)
  save_row now db (some m) = created (create (stamped now m) db)

  -- `Save`
  unfoldable pub save : String → ℕ → Entry → Db → Answer Bool × Db
  unfolding from_domain stamped
  save uuid now e db = save_row now db (from_domain codec uuid e)

  abbrev pub converted : Option Entry → Answer Entry
  converted none = catalogue_unavailable
  converted (some e) = value e

  unfoldable pub found_entry : Found Row → Answer Entry
  unfolding to_domain
  found_entry (found m) = converted (to_domain codec m)
  found_entry absent = not_found
  found_entry read_failed = catalogue_unavailable

  -- `FindByKey`; `First` orders by the primary key, and at most one row has the key.
  unfoldable pub find_by_key : String → String → Db → Answer Entry
  unfolding found_entry
  find_by_key source source_id db = found_entry (first (has_key source source_id) (λ _. 0) db)

  abbrev pub listed : Option (List Row) → Answer (List Entry)
  unfolding convert_all
  listed none = catalogue_unavailable
  listed (some rows) = elim (convert_all codec rows) [
    | none ↦ catalogue_unavailable
    | some es ↦ value es
  ]

  -- `List`
  unfoldable pub list : Db → Answer (List Entry)
  unfolding convert_all
  list db = listed (find (λ _. true) (λ r. r.submitted_at) true db)
