-- ===== src/Download/Registry.antt =====
-- The registry (pdfdownload/service.go): the map from job ids to the jobs, which live on a heap, so
-- that a worker and a client keep a job that has been evicted from the map. One function for each
-- method, with the clock's answer and the new uuid as arguments; the section under `registryMu` of
-- `Subscribe` is `find`, so that another goroutine may run before the section under `j.mu`. Go
-- visits a map in any order: the order of `jobs` has no meaning. `age < Retention` is the signed
-- comparison, written without a subtraction. What the methods log is returned beside the rest.
pub mod Sweep
pub mod Reachable
use research_monitor.Base.{
  ℕ, ◌+◌, ◌-◌, Bool, true, false, String, List, [], ◌∷◌, ◌++◌, Option, none, some, map, ltb, length,
  get_elem?, set, str_eq, if◌then◌else◌,
}
use research_monitor.Download.Types.{Request, JobSnapshot, Event}
use research_monitor.Download.Job.{Job, new_job, snapshot_for_job, attach}
use research_monitor.Download.Worker.{Life, launch, LogLine, scheduled, evicted, format_paper_id}

pub record Options : Type 0 where
  pub retention : ℕ
  pub subscriber_buffer : ℕ

pub record Registry : Type 0 where
  pub jobs : List (String × ℕ)
  pub heap : List Life

abbrev pub empty_registry : Registry
empty_registry = record { jobs = []; heap = [] }

abbrev pub lookup : String → List (String × ℕ) → Option ℕ
lookup id [] = none
lookup id ((key, ref) ∷ jobs) = if str_eq key id then some ref else lookup id jobs

abbrev pub without : String → List (String × ℕ) → List (String × ℕ)
without id [] = []
without id ((key, ref) ∷ jobs) =
    let rest = without id jobs in if str_eq key id then rest else (key, ref) ∷ rest

abbrev pub zero_snapshot : JobSnapshot
zero_snapshot = record {
  job_id = "";
  total = 0;
  succeeded = 0;
  failures = 0;
  completed = false;
  completed_at = 0;
  entries = [];
}

-- `Schedule`, which never fails. `go r.runJob(j)` leaves the job with its worker at the start.
unfoldable pub schedule : String → List Request → Registry → Registry × JobSnapshot × List LogLine
unfolding new_job format_paper_id
schedule id [] r = (r, zero_snapshot, [])
schedule id (req ∷ reqs) r =
    let j = new_job id (req ∷ reqs) in
    (
      record { jobs = (id, length r.heap) ∷ without id r.jobs; heap = r.heap ++ launch j ∷ [] },
      snapshot_for_job j,
      scheduled id j.total (map (λ (q : Request). format_paper_id q.paper_id) (req ∷ reqs)) ∷ [],
    )

-- Whether `sweepLocked` evicts the job.
unfoldable pub is_expired : ℕ → ℕ → Job → Bool
is_expired retention now j =
    if j.completed then (if ltb now (j.completed_at + retention) then false else true) else false

abbrev pub expired_at : ℕ → ℕ → List Life → ℕ → Bool
expired_at retention now heap ref = elim (get_elem? heap ref) [
  | none ↦ false
  | some l ↦ is_expired retention now l.job
]

abbrev pub age_at : ℕ → List Life → ℕ → ℕ
age_at now heap ref = elim (get_elem? heap ref) [ none ↦ 0 | some l ↦ now - l.job.completed_at ]

-- The loop of `sweepLocked`: what stays, and the eviction records.
unfoldable pub sweep_loop :
    ℕ → ℕ → List Life → List (String × ℕ) → List (String × ℕ) × List (String × ℕ)
sweep_loop retention now heap [] = ([], [])
sweep_loop retention now heap ((id, ref) ∷ jobs) =
    let (kept, gone) = sweep_loop retention now heap jobs in
    if expired_at retention now heap ref
    then (kept, (id, age_at now heap ref) ∷ gone)
    else ((id, ref) ∷ kept, gone)

-- `logEvictions`
unfoldable pub log_evictions : List (String × ℕ) → List LogLine
log_evictions [] = []
log_evictions ((id, age) ∷ gone) = evicted id age ∷ log_evictions gone

-- `Sweep`, and the first section of the reading methods.
unfoldable pub sweep : Options → ℕ → Registry → Registry × List LogLine
unfolding sweep_loop log_evictions
sweep opts now r =
    let (kept, gone) = sweep_loop opts.retention now r.heap r.jobs in
    (record r { jobs = kept }, log_evictions gone)

-- The section under `registryMu` of `Snapshot` and `Subscribe`; `none` is `ErrJobUnknown`.
unfoldable pub find : Options → ℕ → String → Registry → Registry × Option ℕ × List LogLine
unfolding sweep
find opts now id r = let (r', lines) = sweep opts now r in (r', lookup id r'.jobs, lines)

abbrev pub snapshot_found : Registry → Option ℕ → Option JobSnapshot
snapshot_found r none = none
snapshot_found r (some ref) = elim (get_elem? r.heap ref) [
  | none ↦ none
  | some l ↦ some (snapshot_for_job l.job)
]

unfoldable pub snapshot :
    Options → ℕ → String → Registry → Registry × Option JobSnapshot × List LogLine
unfolding find
snapshot opts now id r =
    let (r', ref, lines) = find opts now id r in (r', snapshot_found r' ref, lines)

-- The backlog and the channel, by its place in the job's heap of channels.
abbrev attach_found : Options → Registry → ℕ → Option Life → Registry × Option (List Event × ℕ)
attach_found opts r ref none = (r, none)
attach_found opts r ref (some l) = (
  record r { heap = set r.heap ref (record l { job = attach opts.subscriber_buffer l.job }) },
  some (l.job.events, length l.job.streams),
)

-- The section under `j.mu` of `Subscribe`, at the job that `find` gave.
unfoldable pub attach_at : Options → ℕ → Registry → Registry × Option (List Event × ℕ)
attach_at opts ref r = attach_found opts r ref (get_elem? r.heap ref)

abbrev attach_ref : Options → Registry → Option ℕ → Registry × Option (List Event × ℕ)
unfolding attach_at
attach_ref opts r none = (r, none)
attach_ref opts r (some ref) = attach_at opts ref r

unfoldable pub subscribe :
    Options → ℕ → String → Registry → Registry × Option (List Event × ℕ) × List LogLine
unfolding find attach_at
subscribe opts now id r =
    let (r', ref, lines) = find opts now id r in
    let (r'', found) = attach_ref opts r' ref in (r'', found, lines)
