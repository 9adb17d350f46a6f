-- ===== src/Download/Worker.antt =====
-- The worker goroutine of a job (pdfdownload/worker.go, `classify` of errfields.go), one section
-- of `runJob` at a time: the program counter says which section comes next, so other goroutines
-- can run between any two. What the store and the clock answer is given to each step. The
-- durations that the log lines carry are left out.
use Prim.Native.String
use research_monitor.Base.{
  ℕ, zero, suc, String, List, [], ◌∷◌, ◌++◌, Option, none, some, get_elem?, str_eq, if◌then◌else◌,
  ◌>>=◌,
}
use research_monitor.Fault.{Fault, is_err}
use research_monitor.Paper.{PaperId}
use research_monitor.Pdf.Key.{
  PdfSentinel, Key, is_invalid_key, is_fetch_failed, is_store_failed, category_invalid_key,
  category_fetch, category_store,
}
use research_monitor.Download.Types.{
  Request, EntryStatus, success, failed, EntryResult, JobSnapshot,
}
use research_monitor.Download.Job.{Job, append_and_fan_out, finish_job}
use research_monitor.Download.Sanitize.{sanitize}

-- The error of `Store.Ensure`, or its locator with the size that `os.Stat` reports for the path
-- (`none` if that fails, or if there is no locator).
pub data Ensured : Type 0 where
  located : Option ℕ → Ensured
  refused : Fault PdfSentinel → Ensured

-- `PDFArtifactKey`
unfoldable pub pdf_artifact_key : PaperId → String
pdf_artifact_key id = String.◌++◌ id.source_id id.version

unfoldable pub artifact_key : Request → Key
unfolding pdf_artifact_key
artifact_key req = record {
  source_type = req.paper_id.source;
  source_id = pdf_artifact_key req.paper_id;
  url = req.pdf_url;
}

-- The category of `classify`, for an error.
unfoldable pub category_of : Fault PdfSentinel → String
category_of e =
    if is_err is_invalid_key e
    then category_invalid_key
    else if is_err is_fetch_failed e
    then category_fetch
    else if is_err is_store_failed e
    then category_store
    else "unknown"

unfoldable pub classify : Ensured → EntryStatus × String × List ℕ
unfolding category_of sanitize
classify (located size) = (success, "", [])
classify (refused e) = (failed, category_of e, sanitize e.text)

abbrev pub size_of : Ensured → ℕ
size_of (located (some n)) = n
size_of _ = 0

unfoldable pub run_entry : (Key → Ensured) → ℕ → Request → EntryResult
unfolding classify artifact_key
run_entry ensure now req =
    let out = ensure (artifact_key req) in
    let (status, category, description) = classify out in
    record {
      paper_id = req.paper_id;
      status = status;
      bytes = size_of out;
      category = category;
      description = description;
      completed_at = now;
    }

-- `formatPaperID`
unfoldable pub format_paper_id : PaperId → String
format_paper_id id =
    let key = String.◌++◌ id.source (String.◌++◌ ":" id.source_id) in
    if str_eq id.version "" then key else String.◌++◌ key id.version

pub data LogLine : Type 0 where
  scheduled : String → ℕ → List String → LogLine
  entry_completed : String → String → EntryResult → LogLine
  subscriber_dropped : String → LogLine
  job_completed : String → JobSnapshot → LogLine
  evicted : String → ℕ → LogLine

-- `emitSubscriberDropped`: one line for each subscriber dropped.
unfoldable pub emit_subscriber_dropped : String → ℕ → List LogLine
emit_subscriber_dropped id zero = []
emit_subscriber_dropped id (suc count) = subscriber_dropped id ∷ emit_subscriber_dropped id count

-- `emitEntryCompleted`
unfoldable pub emit_entry_completed : String → EntryResult → LogLine
unfolding format_paper_id
emit_entry_completed id result = entry_completed id (format_paper_id result.paper_id) result

-- Where the goroutine stands: before its first section, at an entry, or at its end.
pub data Counter : Type 0 where
  starting : Counter
  at_entry : ℕ → Counter
  returned : Counter

pub record Life : Type 0 where
  pub job : Job
  pub counter : Counter
  pub log : List LogLine

abbrev pub launch : Job → Life
launch j = record { job = j; counter = starting; log = [] }

-- One round of the loop of `runJob`.
unfoldable pub entry_section : (Key → Ensured) → ℕ → Life → ℕ → Request → Option Life
unfolding run_entry emit_entry_completed emit_subscriber_dropped
entry_section ensure now l i req =
    let result = run_entry ensure now req in
    do
      (j, dropped) ← append_and_fan_out i result l.job
      some (record l {
        job = j;
        counter = at_entry (suc i);
        log = l.log ++ (emit_entry_completed j.id result ∷ emit_subscriber_dropped j.id dropped);
      })

-- What follows the loop of `runJob`.
unfoldable pub finish_section : ℕ → Life → Option Life
unfolding emit_subscriber_dropped
finish_section now l = do
  (j, dropped, snap) ← finish_job now l.job
  some (record l {
    job = j;
    counter = returned;
    log = l.log ++ (emit_subscriber_dropped j.id dropped ++ job_completed j.id snap ∷ []);
  })

abbrev at_request : (Key → Ensured) → ℕ → Life → ℕ → Option Request → Option Life
at_request ensure now l i none = finish_section now l
at_request ensure now l i (some req) = entry_section ensure now l i req

-- The next section of `runJob`; a worker that has returned does nothing, and `none` is a panic.
unfoldable pub section : (Key → Ensured) → ℕ → Counter → Life → Option Life
unfolding entry_section finish_section
section ensure now starting l =
    some (record l { job = record l.job { started_at = now }; counter = at_entry 0 })
section ensure now (at_entry i) l = at_request ensure now l i (get_elem? l.job.requests i)
section ensure now returned l = some l

unfoldable pub worker_step : (Key → Ensured) → ℕ → Life → Option Life
unfolding section
worker_step ensure now l = section ensure now l.counter l
