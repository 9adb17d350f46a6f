-- ===== src/Download/Job.antt =====
-- One download job: the record, its critical sections, and the worker that drives it
-- (pdfdownload/service.go and worker.go). Each function is one section under `j.mu`; `none` is a
-- panic. `streams` is the heap of the channels made for the job, and a channel is named by its
-- place there: a client keeps its channel after the worker has dropped it from `subscribers`.
use research_monitor.Base.{
  ℕ, ◌+◌, Bool, true, false, String, List, [], ◌∷◌, ◌++◌, Option, none, some, ltb, length,
  get_elem?, set, if◌then◌else◌, ◌>>=◌,
}
use research_monitor.Download.Types.{
  Request, EntryStatus, pending, success, failed, EntryResult, JobSnapshot, Event, progress,
  summary,
}
use research_monitor.Download.Stream.{Stream, offer, close_stream}

pub record Job : Type 0 where
  pub id : String
  pub total : ℕ
  pub requests : List Request
  pub entries : List EntryResult
  pub events : List Event
  pub subscribers : List ℕ
  pub streams : List Stream
  pub started_at : ℕ
  pub completed : Bool
  pub completed_at : ℕ

abbrev pub pending_entry : Request → EntryResult
pending_entry req = record {
  paper_id = req.paper_id;
  status = pending;
  bytes = 0;
  category = "";
  description = [];
  completed_at = 0;
}

unfoldable pub pending_entries : List Request → List EntryResult
pending_entries [] = []
pending_entries (req ∷ reqs) = pending_entry req ∷ pending_entries reqs

-- The job that `Schedule` registers.
unfoldable pub new_job : String → List Request → Job
new_job id requests = record {
  id = id;
  total = length requests;
  requests = requests;
  entries = pending_entries requests;
  events = [];
  subscribers = [];
  streams = [];
  started_at = 0;
  completed = false;
  completed_at = 0;
}

abbrev pub is_success : EntryStatus → Bool
is_success success = true
is_success _ = false

abbrev pub is_failed : EntryStatus → Bool
is_failed failed = true
is_failed _ = false

-- The counters of the loop in `buildSnapshotLocked`.
unfoldable pub count_succeeded : List EntryResult → ℕ
count_succeeded [] = 0
count_succeeded (e ∷ es) = let n = count_succeeded es in if is_success e.status then n + 1 else n

unfoldable pub count_failed : List EntryResult → ℕ
count_failed [] = 0
count_failed (e ∷ es) = let n = count_failed es in if is_failed e.status then n + 1 else n

unfoldable pub build_snapshot : Job → Bool → ℕ → JobSnapshot
build_snapshot j completed completed_at = record {
  job_id = j.id;
  total = j.total;
  succeeded = count_succeeded j.entries;
  failures = count_failed j.entries;
  completed = completed;
  completed_at = completed_at;
  entries = j.entries;
}

abbrev pub snapshot_for_job : Job → JobSnapshot
snapshot_for_job j = build_snapshot j j.completed j.completed_at

pub record Fan : Type 0 where
  pub kept : List ℕ
  pub dropped : ℕ
  pub streams : List Stream

abbrev tally : ℕ → Bool → Fan → Fan
tally k sent fan =
    if sent then record fan { kept = k ∷ fan.kept } else record fan { dropped = fan.dropped + 1 }

-- The loop of `fanOutLocked` over the subscribers.
unfoldable pub fan_out_loop : Event → List ℕ → List Stream → Option Fan
fan_out_loop ev [] streams = some (record { kept = []; dropped = 0; streams = streams })
fan_out_loop ev (k ∷ ks) streams = do
  s ← get_elem? streams k
  (s', sent) ← offer ev s
  fan ← fan_out_loop ev ks (set streams k s')
  some (tally k sent fan)

unfoldable pub fan_out : Event → Job → Option (Job × ℕ)
fan_out ev j = do
  fan ← fan_out_loop ev j.subscribers j.streams
  some (record j { subscribers = fan.kept; streams = fan.streams }, fan.dropped)

-- An index out of range panics.
unfoldable pub append_and_fan_out : ℕ → EntryResult → Job → Option (Job × ℕ)
append_and_fan_out idx result j =
    let ev = progress j.id result in
    if ltb idx (length j.entries)
    then fan_out ev (record j { entries = set j.entries idx result; events = j.events ++ ev ∷ [] })
    else none

-- `for _, ch := range j.subscribers { close(ch) }`
unfoldable pub close_all : List ℕ → List Stream → Option (List Stream)
close_all [] streams = some streams
close_all (k ∷ ks) streams = do
  s ← get_elem? streams k
  s' ← close_stream s
  close_all ks (set streams k s')

unfoldable pub finish_job : ℕ → Job → Option (Job × ℕ × JobSnapshot)
finish_job completed_at j =
    let snap = build_snapshot j true completed_at in
    let ev = summary j.id snap in
    do
      (j', dropped) ← fan_out ev (record j { events = j.events ++ ev ∷ [] })
      streams ← close_all j'.subscribers j'.streams
      some (
        record j' {
          subscribers = [];
          streams = streams;
          completed = true;
          completed_at = completed_at;
        },
        dropped,
        snap,
      )

-- The part of `Subscribe` under `j.mu`. The new channel is the last of the heap; it is returned
-- closed, and is not registered, if the job has completed.
unfoldable pub attach : ℕ → Job → Job
attach cap j =
    let live : Stream = record {
      cap = cap;
      backlog = j.events;
      taken = [];
      buf = [];
      closed = j.completed;
    } in
    record j {
      subscribers = if j.completed then j.subscribers else j.subscribers ++ length j.streams ∷ [];
      streams = j.streams ++ live ∷ [];
    }
