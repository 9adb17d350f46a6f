-- ===== src/Download/Dto.antt =====
-- What the routes of a download job show of it, and the handler `Status`
-- (internal/http/controller/paper: pdfdownload_responses.go, pdfdownload_controller.go).
use research_monitor.Base.{ℕ, Bool, String, List, [], Option, none, some, map, ◌==◌, if◌then◌else◌}
use research_monitor.Paper.{PaperId}
use research_monitor.Http.{Handled, GoError, wrote, raised, new_http_error}
use research_monitor.Download.Types.{
  EntryStatus, pending, success, failed, EntryResult, JobSnapshot,
}

pub record PaperIdDto : Type 0 where
  pub source : String
  pub source_id : String
  pub version : String

pub record EntryResultDto : Type 0 where
  pub paper_id : PaperIdDto
  pub status : String
  pub bytes : ℕ
  pub category : String
  pub description : List ℕ
  pub completed_at : Option ℕ

pub record SnapshotDto : Type 0 where
  pub job_id : String
  pub total : ℕ
  pub succeeded : ℕ
  pub failures : ℕ
  pub completed : Bool
  pub completed_at : Option ℕ
  pub entries : List EntryResultDto

-- `ToPaperIDDTO`
unfoldable pub to_paper_id_dto : PaperId → PaperIdDto
to_paper_id_dto id = record { source = id.source; source_id = id.source_id; version = id.version }

abbrev pub status_text : EntryStatus → String
status_text pending = "pending"
status_text success = "success"
status_text failed = "failed"

-- A zero time is left out.
abbrev pub known_time : ℕ → Option ℕ
known_time t = if t == 0 then none else some t

-- `ToDownloadEntryResultDTO`
unfoldable pub to_entry_result_dto : EntryResult → EntryResultDto
unfolding to_paper_id_dto
to_entry_result_dto r = record {
  paper_id = to_paper_id_dto r.paper_id;
  status = status_text r.status;
  bytes = r.bytes;
  category = r.category;
  description = r.description;
  completed_at = known_time r.completed_at;
}

-- `ToDownloadJobSnapshotDTO`
unfoldable pub to_snapshot_dto : JobSnapshot → SnapshotDto
unfolding to_entry_result_dto
to_snapshot_dto s = record {
  job_id = s.job_id;
  total = s.total;
  succeeded = s.succeeded;
  failures = s.failures;
  completed = s.completed;
  completed_at = known_time s.completed_at;
  entries = map to_entry_result_dto s.entries;
}

-- `ErrJobUnknown`
abbrev pub job_unknown : GoError
job_unknown = new_http_error 404 "download job unknown" []

-- `Status`, given what the registry's `Snapshot` answers.
unfoldable pub status : Option JobSnapshot → Handled SnapshotDto
unfolding to_snapshot_dto
status none = raised job_unknown
status (some snap) = wrote 200 (to_snapshot_dto snap)
