-- ===== src/Sql.antt =====
-- A table behind GORM: what the repositories rely on of the database and its driver, none of which
-- is in this repository. A table is the list of its rows; `clash` says that two rows break a
-- primary key or a unique index together. Every statement may fail, and then changes nothing. The
-- client takes such a table as a parameter.
pub mod Rows
pub mod Keyed
use research_monitor.Base.{
  ℕ, ◌≤◌, ◌≡◌, Bool, true, false, List, [], ◌∷◌, ◌++◌, some, map, any, count_if, keep_if, leb,
  Option, none, get_elem?, if◌then◌else◌,
}

-- `Create(&row).Error`: nil, `gorm.ErrDuplicatedKey` (under TranslateError) or another error.
pub data Created : Type 0 where
  inserted duplicated create_failed : Created

-- `First(&row).Error`: nil with the row, `gorm.ErrRecordNotFound` or another error.
pub data Found (Row : Type 0) : Type 0 where
  found : Row → Found Row
  absent : Found Row
  read_failed : Found Row

-- `Updates(…)`: `RowsAffected`, or an error.
pub data Updated : Type 0 where
  updated : ℕ → Updated
  update_failed : Updated

abbrev pub update_where : {Row : Type 0} → (Row → Bool) → (Row → Row) → List Row → List Row
update_where p f rows = map (λ r. if p r then f r else r) rows

module _ {Row : Type 0} where
  abbrev pub CreateLaw : (Row → Row → Bool) → Row → List Row → Created → List Row → Type 0
  CreateLaw clash row before inserted after =
      (after ≡ before ++ row ∷ []) × (any (clash row) before ≡ false)
  CreateLaw clash row before duplicated after = (after ≡ before) × (any (clash row) before ≡ true)
  CreateLaw clash row before create_failed after = after ≡ before

  -- `ORDER BY key LIMIT 1`: a row with the least key; nothing is said of ties.
  abbrev pub FirstLaw : (Row → Bool) → (Row → ℕ) → List Row → Found Row → Type 0
  FirstLaw p key rows (found r) =
      (p r ≡ true)
      × ((i : ℕ) × (get_elem? rows i ≡ some r))
      × ((i : ℕ) (r' : Row) → get_elem? rows i ≡ some r' → p r' ≡ true → key r ≤ key r')
  FirstLaw p key rows absent = any p rows ≡ false
  FirstLaw p key rows read_failed = Unit

  -- `ORDER BY key`, ascending or descending: the order of two neighbours.
  abbrev pub in_order : (Row → ℕ) → Bool → Row → Row → Bool
  in_order key descending r s = if descending then leb (key s) (key r) else leb (key r) (key s)

  abbrev pub Ordered : (Row → ℕ) → Bool → List Row → Type 0
  Ordered key descending [] = Unit
  Ordered key descending (r ∷ []) = Unit
  Ordered key descending (r ∷ (s ∷ rows)) =
      (in_order key descending r s ≡ true) × Ordered key descending (s ∷ rows)

  -- The rows that pass, each as often as it is there, in order.
  abbrev pub FindLaw : (Row → Bool) → (Row → ℕ) → Bool → List Row → Option (List Row) → Type 0
  FindLaw p key descending rows none = Unit
  FindLaw p key descending rows (some found_rows) =
      Ordered key descending found_rows
      × ((q : Row → Bool) → count_if q found_rows ≡ count_if q (keep_if p rows))

  abbrev pub UpdateLaw : (Row → Bool) → (Row → Row) → List Row → Updated → List Row → Type 0
  UpdateLaw p f before (updated n) after =
      (after ≡ update_where p f before) × (n ≡ count_if p before)
  UpdateLaw p f before update_failed after = after ≡ before

pub record Table (Row : Type 0) (clash : Row → Row → Bool) : Type 1 where
  pub Db : Type 0
  pub rows : Db → List Row
  pub create : Row → Db → Created × Db
  pub first : (Row → Bool) → (Row → ℕ) → Db → Found Row
  -- `Find(&rows).Error` or `Pluck`: `none` is an error.
  pub find : (Row → Bool) → (Row → ℕ) → Bool → Db → Option (List Row)
  pub update : (Row → Bool) → (Row → Row) → Db → Updated × Db
  -- Whether the commit of a transaction that ends in this state succeeds.
  pub commits : Db → Bool
  pub create_lem :
      (row : Row) (db : Db)
      → CreateLaw clash row (rows db) (create row db).0 (rows (create row db).1)
  pub first_lem :
      (p : Row → Bool) (key : Row → ℕ) (db : Db) → FirstLaw p key (rows db) (first p key db)
  pub find_lem :
      (p : Row → Bool) (key : Row → ℕ) (descending : Bool) (db : Db)
      → FindLaw p key descending (rows db) (find p key descending db)
  pub update_lem :
      (p : Row → Bool) (f : Row → Row) (db : Db)
      → UpdateLaw p f (rows db) (update p f db).0 (rows (update p f db).1)
