-- ===== src/Sources/Repository.antt =====
-- The repository of sources over a keyed table.
use research_monitor.Base.{
  ℕ, zero, suc, Bool, true, false, ◌&&◌, ◌||◌, not, String, List, Option, none, some, str_eq, map,
}
use research_monitor.Sql.{Found, found, absent, read_failed, Updated, updated, update_failed}
use research_monitor.Sql.Keyed.{Writing, Keyed}
use research_monitor.Sources.Types.{Source, Failure, not_found, storage, Result, ok, err}

-- The struct `Source` of the adapter.
pub record Row : Type 0 where
  pub id : String
  pub name : String
  pub kind : String
  pub url : String
  pub is_active : Bool
  pub last_fetched_at : Option ℕ
  pub created_at : ℕ
  pub updated_at : ℕ

abbrev pub from_domain : Source → Row
from_domain s = record {
  id = s.id;
  name = s.name;
  kind = s.kind;
  url = s.url;
  is_active = s.is_active;
  last_fetched_at = s.last_fetched_at;
  created_at = s.created_at;
  updated_at = s.updated_at;
}

abbrev pub to_domain : Row → Source
to_domain m = record {
  id = m.id;
  name = m.name;
  kind = m.kind;
  url = m.url;
  is_active = m.is_active;
  last_fetched_at = m.last_fetched_at;
  created_at = m.created_at;
  updated_at = m.updated_at;
}

abbrev pub has_id : String → Row → Bool
has_id id m = str_eq m.id id

abbrev pub has_url : String → Row → Bool
has_url url m = str_eq m.url url

-- The primary key and the unique index.
abbrev pub clash : Row → Row → Bool
clash m n = has_id m.id n || has_url m.url n

-- How GORM writes this row by its tags: `updated_at` is stamped, and a new row is active.
abbrev pub writing : Writing Row
writing = record {
  same_key = λ m n. has_id m.id n;
  conflicts = λ m n. has_url m.url n && not (has_id m.id n);
  touched = λ stamp m. record m { updated_at = stamp };
  defaulted = λ m. record m { is_active = true };
}

module _ (k : Keyed Row clash writing) where
  open k use {table}
  open table use {Db, first, find}

  -- `Save`: `none` is the nil error.
  abbrev pub saved : Bool × Db → Option Failure × Db
  saved (true, db) = (none, db)
  saved (false, db) = (some storage, db)

  unfoldable pub save : ℕ → Source → Db → Option Failure × Db
  save stamp s db = saved (k.save stamp (from_domain s) db)

  abbrev pub read_one : Found Row → Result Source
  read_one (found m) = ok (to_domain m)
  read_one absent = err not_found
  read_one read_failed = err storage

  -- `First` orders by the primary key, and at most one row matches.
  unfoldable pub find_by_id : String → Db → Result Source
  find_by_id id db = read_one (first (has_id id) (λ _. 0) db)

  unfoldable pub find_by_url : String → Db → Result Source
  find_by_url url db = read_one (first (has_url url) (λ _. 0) db)

  abbrev pub listed : Option (List Row) → Result (List Source)
  listed none = err storage
  listed (some rows) = ok (map to_domain rows)

  unfoldable pub list : Db → Result (List Source)
  list db = listed (find (λ _. true) (λ m. m.created_at) true db)

  abbrev pub removed : Updated × Db → Option Failure × Db
  removed (update_failed, db) = (some storage, db)
  removed (updated zero, db) = (some not_found, db)
  removed (updated (suc n), db) = (none, db)

  unfoldable pub delete : String → Db → Option Failure × Db
  delete id db = removed (k.delete (has_id id) db)
