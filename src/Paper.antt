-- ===== src/Paper.antt =====
-- The paper aggregate: identity and the fetched entry (internal/domain/paper).
-- A timestamp is the number of its nanoseconds; 0 stands for the zero `time.Time`.
pub mod Catalogue
pub mod Keys
pub mod Listing
use research_monitor.Base.{ℕ, String, List}

pub record PaperId : Type 0 where
  pub source : String
  pub source_id : String
  pub version : String

pub record Entry : Type 0 where
  pub source : String
  pub source_id : String
  pub version : String
  pub title : String
  pub authors : List String
  pub abstract : String
  pub primary_category : String
  pub categories : List String
  pub submitted_at : ℕ
  pub updated_at : ℕ
  pub pdf_url : String
  pub abs_url : String

unfoldable pub id_from_entry : Entry → PaperId
id_from_entry e = record { source = e.source; source_id = e.source_id; version = e.version }
