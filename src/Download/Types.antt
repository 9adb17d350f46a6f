-- ===== src/Download/Types.antt =====
-- The wire and state types of a download job (pdfdownload/types.go).
-- A timestamp is a number of nanoseconds, 0 for the zero `time.Time`; a description is its bytes.
use research_monitor.Base.{ℕ, Bool, String, List, [], ◌∷◌}
use research_monitor.Paper.{PaperId, Entry, id_from_entry}

pub record Request : Type 0 where
  pub paper_id : PaperId
  pub pdf_url : String

-- The loop of `RequestsFromEntries`.
unfoldable pub requests_from_entries : List Entry → List Request
requests_from_entries [] = []
requests_from_entries (e ∷ es) =
    (record { paper_id = id_from_entry e; pdf_url = e.pdf_url }) ∷ requests_from_entries es

pub data EntryStatus : Type 0 where
  pending success failed : EntryStatus

pub record EntryResult : Type 0 where
  pub paper_id : PaperId
  pub status : EntryStatus
  pub bytes : ℕ
  pub category : String
  pub description : List ℕ
  pub completed_at : ℕ

pub record JobSnapshot : Type 0 where
  pub job_id : String
  pub total : ℕ
  pub succeeded : ℕ
  pub failures : ℕ
  pub completed : Bool
  pub completed_at : ℕ
  pub entries : List EntryResult

-- Exactly one of `Progress` and `Summary` is set: one constructor for each.
pub data Event : Type 0 where
  progress : String → EntryResult → Event
  summary : String → JobSnapshot → Event
