-- ===== src/Sql/Keyed.antt =====
-- A table with GORM's `Save` of a whole row and with `Delete`, which some repositories use. `Save`
-- updates every column of the row with the primary key, and stamps `updated_at`; where there is no
-- such row, it inserts, and columns that are zero take their default.
use research_monitor.Base.{
  ℕ, ◌≡◌, not, Bool, true, false, List, [], ◌∷◌, ◌++◌, any, count_if, keep_if, if◌then◌else◌,
}
use research_monitor.Sql.{Updated, updated, update_failed, update_where, Table}

-- How a row is written: whether another has its primary key, whether another breaks a unique index,
-- the stamp of an update, and the defaults of an insertion.
pub record Writing (Row : Type 0) : Type 0 where
  pub same_key : Row → Row → Bool
  pub conflicts : Row → Row → Bool
  pub touched : ℕ → Row → Row
  pub defaulted : Row → Row

module _ {Row : Type 0} (w : Writing Row) where
  open w use {same_key, conflicts, touched, defaulted}

  abbrev pub saved_rows : ℕ → Row → List Row → List Row
  saved_rows stamp row rows =
      if any (same_key row) rows
      then update_where (same_key row) (λ _. touched stamp row) rows
      else rows ++ defaulted row ∷ []

  -- `Save(&row).Error`: `true` is the nil error.
  abbrev pub SaveLaw : ℕ → Row → List Row → Bool → List Row → Type 0
  SaveLaw stamp row before true after =
      (any (conflicts row) before ≡ false) × (after ≡ saved_rows stamp row before)
  SaveLaw stamp row before false after = after ≡ before

-- `Delete(…)`: `RowsAffected`, or an error.
abbrev pub DeleteLaw : {Row : Type 0} → (Row → Bool) → List Row → Updated → List Row → Type 0
DeleteLaw p before (updated n) after =
    (after ≡ keep_if (λ r. not (p r)) before) × (n ≡ count_if p before)
DeleteLaw p before update_failed after = after ≡ before

pub record Keyed (Row : Type 0) (clash : Row → Row → Bool) (w : Writing Row) : Type 1 where
  pub table : Table Row clash
  pub save : ℕ → Row → Table.Db table → Bool × Table.Db table
  pub delete : (Row → Bool) → Table.Db table → Updated × Table.Db table
  pub save_lem :
      (stamp : ℕ) (row : Row) (db : Table.Db table)
      → SaveLaw w stamp row
          (Table.rows table db)
          (save stamp row db).0
          (Table.rows table (save stamp row db).1)
  pub delete_lem :
      (p : Row → Bool) (db : Table.Db table)
      → DeleteLaw p (Table.rows table db) (delete p db).0 (Table.rows table (delete p db).1)
