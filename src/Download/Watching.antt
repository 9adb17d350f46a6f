-- ===== src/Download/Watching.antt =====
-- The handler `Stream` of a download job (internal/http/controller/paper: pdfdownload_controller.go
-- and pdfdownload_responses.go): a client of one channel of the job, who writes each event as a
-- frame of Server-Sent Events. One turn is one round of a loop of the handler; between two turns
-- the worker and the other clients run. `ctx.Done()` may win the `select` whenever the handler
-- waits. The handler has not been served a frame that it could not write: `c.SSEvent` reports none.
pub mod Pasts
pub mod Unmoved
pub mod Turns
pub mod Told
pub mod Holding
pub mod Keeping
pub mod Streaming
pub mod Ending
pub mod Complete
use research_monitor.Base.{
  ℕ, zero, suc, ◌≡◌, ◌≢◌, Bool, true, false, String, List, [], ◌∷◌, ◌++◌, Option, none, some, map,
  length, get_elem?, ◌==◌, if◌then◌else◌,
}
use research_monitor.Pdf.Key.{Key}
use research_monitor.Paper.{PaperId}
use research_monitor.Http.{Handled, GoError, wrote, raised, new_http_error}
use research_monitor.Download.Types.{
  Request, EntryStatus, pending, success, failed, EntryResult, JobSnapshot, Event, progress,
  summary,
}
use research_monitor.Download.Stream.{Stream}
use research_monitor.Download.Job.{attach}
use research_monitor.Download.Worker.{Ensured, Life, worker_step}
use research_monitor.Download.Life.{receive_at, Reach}
use research_monitor.Download.Dto.{EntryResultDto, to_entry_result_dto}

pub record SummaryDto : Type 0 where
  pub job_id : String
  pub total : ℕ
  pub succeeded : ℕ
  pub failures : ℕ

pub data Payload : Type 0 where
  result : EntryResultDto → Payload
  totals : SummaryDto → Payload
  reason : String → Payload

pub record Frame : Type 0 where
  pub event : String
  pub payload : Payload

-- The frame that `writeDownloadEvent` writes.
unfoldable pub frame_of : Event → Frame
unfolding to_entry_result_dto
frame_of (progress id r) = record {
  event = "download.progress";
  payload = result (to_entry_result_dto r);
}
frame_of (summary id s) = record {
  event = "download.summary";
  payload = totals (record {
    job_id = s.job_id;
    total = s.total;
    succeeded = s.succeeded;
    failures = s.failures;
  });
}

-- What `writeDownloadEvent` returns.
abbrev pub is_summary : Event → Bool
is_summary (progress id r) = false
is_summary (summary id s) = true

abbrev pub closed_frame : Frame
closed_frame = record { event = "error"; payload = reason "stream_closed" }

-- How the handler returns: behind a summary, at a closed channel, or without its client.
pub data End : Type 0 where
  summarised stream_closed disconnected : End

-- Where the handler stands: in its loop over the backlog, in its `select`, or at its end.
pub data Place : Type 0 where
  replaying : List Event → Place
  waiting : Place
  ended : End → Place

pub record Watcher : Type 0 where
  pub place : Place
  pub frames : List Frame

-- After one event: the handler returns behind a summary, and goes on else.
unfoldable pub write : Event → Place → List Frame → Watcher
unfolding frame_of
write ev onward frames = record {
  place = if is_summary ev then ended summarised else onward;
  frames = frames ++ frame_of ev ∷ [];
}

-- The case `ev, ok := <-live` of the `select`; `none` is a handler that is blocked.
abbrev pub from_channel : ℕ → Life → List Frame → Bool → List Event → Option (Life × Watcher)
from_channel k l frames closed (ev ∷ rest) =
    some (record l { job = receive_at k l.job }, write ev waiting frames)
from_channel k l frames true [] =
    some (l, record { place = ended stream_closed; frames = frames ++ closed_frame ∷ [] })
from_channel k l frames false [] = none

abbrev pub from_stream : ℕ → Life → List Frame → Option Stream → Option (Life × Watcher)
from_stream k l frames none = none
from_stream k l frames (some s) = from_channel k l frames s.closed s.buf

unfoldable pub turn_at : ℕ → Life → Place → List Frame → Option (Life × Watcher)
unfolding write
turn_at k l (replaying []) frames = some (l, record { place = waiting; frames = frames })
turn_at k l (replaying (ev ∷ rest)) frames = some (l, write ev (replaying rest) frames)
turn_at k l waiting frames = from_stream k l frames (get_elem? l.job.streams k)
turn_at k l (ended e) frames = none

-- The next turn of the handler at channel `k`; `none` if it is blocked or has returned.
unfoldable pub turn : ℕ → Life → Watcher → Option (Life × Watcher)
unfolding turn_at
turn k l w = turn_at k l w.place w.frames

abbrev pub opened : List Event → Watcher
opened backlog = record { place = replaying backlog; frames = [] }

-- The handler among the other goroutines of a job: it starts with a `Subscribe`, and no other
-- client receives from its channel.
pub data Watch (cap : ℕ) (id : String) (rs : List Request) (k : ℕ) : Life → Watcher → Type 0 where
  open_at :
      {l : Life}
      → Reach cap id rs l
      → k ≡ length l.job.streams
      → Watch cap id rs k (record l { job = attach cap l.job }) (opened l.job.events)
  worker :
      {l l' : Life} {w : Watcher} (ensure : Key → Ensured) (now : ℕ)
      → Watch cap id rs k l w
      → worker_step ensure now l ≡ some l'
      → Watch cap id rs k l' w
  newcomer :
      {l : Life} {w : Watcher}
      → Watch cap id rs k l w
      → Watch cap id rs k (record l { job = attach cap l.job }) w
  other_client :
      {l : Life} {w : Watcher} (j : ℕ)
      → j ≢ k
      → Watch cap id rs k l w
      → Watch cap id rs k (record l { job = receive_at j l.job }) w
  turned :
      {l l' : Life} {w w' : Watcher}
      → Watch cap id rs k l w
      → turn k l w ≡ some (l', w')
      → Watch cap id rs k l' w'
  leaving :
      {l : Life} {w : Watcher}
      → Watch cap id rs k l w
      → w.place ≡ waiting
      → Watch cap id rs k l (record w { place = ended disconnected })

-- The handler's turns, until it is blocked or has returned.
unfoldable pub turns : ℕ → ℕ → Life → Watcher → Life × Watcher
turns zero k l w = (l, w)
turns (suc n) k l w = elim (turn k l w) [ none ↦ (l, w) | some (l', w') ↦ turns n k l' w' ]
