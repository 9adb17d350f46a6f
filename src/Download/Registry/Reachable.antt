-- ===== src/Download/Registry/Reachable.antt =====
-- The registry under any interleaving of its methods, its workers and its clients.
use research_monitor.Base.{
  ℕ, ◌+◌, ◌≤◌, ◌≡◌, refl, sym, ap, ◌∙◌, ◌⊎◌, inl, inr, Bool, count_if, false, true, String, List,
  [], ◌∷◌, ◌++◌, Option, none, some, length, get_elem?, get_elem?-lt, get_elem?-set_self,
  get_elem?-set_ne, set, str_eq, eq_iff, Bool-cases, Option-cases, ℕ_discrete, arith,
  get_elem?-append_left, get_elem?-last,
}
use mathlib.Core.Path.{subst}
use research_monitor.Pdf.Key.{Key}
use research_monitor.Download.Types.{pending, success, failed, Request, EntryResult, JobSnapshot}
use research_monitor.Download.Job.{
  new_job, count_succeeded, count_failed, build_snapshot, snapshot_for_job,
}
use research_monitor.Download.Worker.{
  Ensured, Life, launch, Counter, starting, at_entry, returned, worker_step,
}
use research_monitor.Download.Life.{Step, work, subscribe, read, receive_at, Reach, here, next}
use research_monitor.Download.Progress.{entry_ids, request_ids, Progress, Lives, length-entries}
use research_monitor.Download.Reachable.{Reach-Lives}
use research_monitor.Download.Laws.{count_settled}
use research_monitor.Download.Registry.{
  Options, Registry, empty_registry, lookup, without, schedule, sweep, attach_at, snapshot,
  snapshot_found,
}
use research_monitor.Download.Registry.Sweep.{
  Unique, kept, Unique-sweep, Unique-schedule, lookup-kept, snapshot_exact,
}

pub data Act (opts : Options) : Registry → Registry → Type 0 where
  scheduling :
      (id : String) (reqs : List Request) (r : Registry) → Act opts r (schedule id reqs r).0
  sweeping : (now : ℕ) (r : Registry) → Act opts r (sweep opts now r).0
  attaching : (ref : ℕ) (r : Registry) → Act opts r (attach_at opts ref r).0
  working :
      (ref : ℕ) (r : Registry) (ensure : Key → Ensured) (now : ℕ) {l l' : Life}
      → get_elem? r.heap ref ≡ some l
      → worker_step ensure now l ≡ some l'
      → Act opts r (record r { heap = set r.heap ref l' })
  receiving :
      (ref k : ℕ) (r : Registry) {l : Life}
      → get_elem? r.heap ref ≡ some l
      → Act opts r (record r { heap = set r.heap ref (record l { job = receive_at k l.job }) })

pub data Runs (opts : Options) : Registry → Type 0 where
  empty : Runs opts empty_registry
  after : {r r' : Registry} → Runs opts r → Act opts r r' → Runs opts r'

-- `Schedule` was called with this id and these requests.
abbrev pub Requested :
    {opts : Options} {r : Registry} → Runs opts r → String → List Request → Type 0
Requested empty id rs = ⊥
Requested (after runs (scheduling key reqs r)) id rs =
    ((key ≡ id) × (reqs ≡ rs)) ⊎ Requested runs id rs
Requested (after runs (sweeping now r)) id rs = Requested runs id rs
Requested (after runs (attaching ref r)) id rs = Requested runs id rs
Requested (after runs (working ref r ensure now found run)) id rs = Requested runs id rs
Requested (after runs (receiving ref k r found)) id rs = Requested runs id rs

-- Ids with the requests that are asked for under them.
abbrev Asked : Type 1
Asked = String → List Request → Type 0

-- A life that can come of a job with this id and requests that were asked for.
abbrev pub Lived : Options → Asked → String → Life → Type 0
Lived opts q id l = (rs : List Request) × q id rs × Reach opts.subscriber_buffer id rs l

pub record Sane (opts : Options) (q : Asked) (r : Registry) : Type 0 where
  pub unique : Unique r.jobs
  pub mapped :
      (id : String) (ref : ℕ)
      → lookup id r.jobs ≡ some ref
      → (l : Life) × (get_elem? r.heap ref ≡ some l) × Lived opts q id l

-- One job of the heap takes a step of its own.
module _ {opts : Options} {q : Asked} {r : Registry} (ref : ℕ) {l l' : Life} (h : Sane opts q r)
    (found : get_elem? r.heap ref ≡ some l) (st : Step opts.subscriber_buffer l l') where
  moved :
      (id : String) (key : ℕ)
      → lookup id r.jobs ≡ some key
      → (m : Life) × (get_elem? (set r.heap ref l') key ≡ some m) × Lived opts q id m
  moved id key e =
      let (m, at, (rs, asked, reach)) = h.mapped id key e in
      elim (ℕ_discrete ref key) [
        | yes p ↦
            let same : m ≡ l = ground (arith, ap (get_elem? r.heap) p) in
            (
              l',
              ap (get_elem? (set r.heap ref l')) (sym p)
                  ∙ get_elem?-set_self r.heap ref l' (get_elem?-lt r.heap ref found),
              (rs, asked, next (rw same at reach) st),
            )
        | no n ↦ (m, get_elem?-set_ne r.heap ref key l' n ∙ at, (rs, asked, reach))
      ]

  step-Sane : Sane opts q (record r { heap = set r.heap ref l' })
  step-Sane = record { unique = h.unique; mapped = moved }

kept-some :
    (opts : Options) (now : ℕ) (heap : List Life) (o : Option ℕ) {ref : ℕ}
    → kept opts now heap o ≡ some ref
    → o ≡ some ref
kept-some opts now heap o h = ground arith

lookup-without-some :
    (id key : String) (jobs : List (String × ℕ)) {ref : ℕ}
    → Unique jobs
    → lookup key (without id jobs) ≡ some ref
    → lookup key jobs ≡ some ref
lookup-without-some id key [] u h = h
lookup-without-some id key ((k, r) ∷ jobs) {ref} (new, u) h = elim (Bool-cases (str_eq k key)) [
  | inl same ↦ ground (
    arith,
    lookup-without-some id key jobs {ref = ref} u,
    ap (λ q. lookup q jobs) ((eq_iff k key).0 same),
  )
  | inr other ↦ ground (arith, lookup-without-some id key jobs {ref = ref} u)
]

module _ {opts : Options} where
  schedule-Sane :
      {q : Asked} (id : String) (reqs : List Request) (r : Registry)
      → q id reqs
      → Sane opts q r
      → Sane opts q (schedule id reqs r).0
  unfolding schedule
  schedule-Sane id [] r asked h = h
  schedule-Sane {q} id (req ∷ reqs) r asked h = record {
    unique = unfold schedule in Unique-schedule id (req ∷ reqs) r h.unique;
    mapped = λ key ref e. elim (Bool-cases (str_eq id key)) [
      | inl same ↦
          let p : length r.heap ≡ ref = ground arith in
          let heap = r.heap ++ launch (new_job id (req ∷ reqs)) ∷ [] in
          let under : id ≡ key = (eq_iff id key).0 same in
          (
            launch (new_job id (req ∷ reqs)),
            ap (get_elem? heap) (sym p) ∙ get_elem?-last r.heap _,
            (req ∷ reqs, subst (λ x. q x (req ∷ reqs)) under asked, rw (← under) here),
          )
      | inr other ↦
          let (l, at, lived) =
            h.mapped key ref (lookup-without-some id key r.jobs h.unique (rw other at e)) in
          (l, get_elem?-append_left r.heap _ ref at, lived)
    ];
  }

  sweep-Sane :
      {q : Asked} (now : ℕ) (r : Registry) → Sane opts q r → Sane opts q (sweep opts now r).0
  sweep-Sane now r h = record {
    unique = Unique-sweep opts now r h.unique;
    mapped = λ id ref e.
        let (swept, same) = lookup-kept opts now id r h.unique in
        let (l, at, lived) =
          h.mapped id ref (kept-some opts now r.heap (lookup id r.jobs) (sym swept ∙ e)) in
        (l, ap (λ jobs. get_elem? jobs ref) same ∙ at, lived);
  }

  attach_at-Sane :
      {q : Asked} (ref : ℕ) (r : Registry) → Sane opts q r → Sane opts q (attach_at opts ref r).0
  unfolding attach_at
  attach_at-Sane ref r h = elim (Option-cases (get_elem? r.heap ref)) [
    | inl missing ↦ rw missing h
    | inr (l, found) ↦ rw found (step-Sane ref h found (subscribe l))
  ]

  wider-Sane :
      {q q' : Asked} {r : Registry}
      → ((id : String) (rs : List Request) → q id rs → q' id rs)
      → Sane opts q r
      → Sane opts q' r
  wider-Sane wider h = record {
    unique = h.unique;
    mapped = λ id ref e.
        let (l, at, (rs, asked, reach)) = h.mapped id ref e in
        (l, at, (rs, wider id rs asked, reach));
  }

  pub Runs-Sane : {r : Registry} (runs : Runs opts r) → Sane opts (Requested runs) r
  Runs-Sane empty = record { unique = tt; mapped = λ id ref e. absurd (cc) }
  Runs-Sane (after runs (scheduling id reqs r)) =
      schedule-Sane id reqs r (inl (refl, refl))
        (wider-Sane (λ key rs asked. inr asked) (Runs-Sane runs))
  Runs-Sane (after runs (sweeping now r)) = sweep-Sane now r (Runs-Sane runs)
  Runs-Sane (after runs (attaching ref r)) = attach_at-Sane ref r (Runs-Sane runs)
  Runs-Sane (after runs (working ref r ensure now found run)) =
      step-Sane ref (Runs-Sane runs) found (work ensure now run)
  Runs-Sane (after runs (receiving ref k r {l} found)) =
      step-Sane ref (Runs-Sane runs) found (read l k)

count_le : (es : List EntryResult) → count_succeeded es + count_failed es ≤ length es
unfolding count_succeeded count_failed
count_le [] = omega arith
count_le (e ∷ es) = ground (arith, count_le es)

abbrev has_succeeded : EntryResult → Bool
has_succeeded e = elim e.status [ pending ↦ false | success ↦ true | failed ↦ false ]

abbrev has_failed : EntryResult → Bool
has_failed e = elim e.status [ pending ↦ false | success ↦ false | failed ↦ true ]

count_succeeded-count_if : (es : List EntryResult) → count_succeeded es ≡ count_if has_succeeded es
unfolding count_succeeded
count_succeeded-count_if [] = refl
count_succeeded-count_if (e ∷ es) = ground (arith, count_succeeded-count_if es)

count_failed-count_if : (es : List EntryResult) → count_failed es ≡ count_if has_failed es
unfolding count_failed
count_failed-count_if [] = refl
count_failed-count_if (e ∷ es) = ground (arith, count_failed-count_if es)

-- What a snapshot of a job says, in every state of the job.
abbrev pub Consistent : Asked → String → JobSnapshot → Type 0
Consistent asked id snap =
    (snap.job_id ≡ id)
    × ((rs : List Request) × asked id rs
        × (entry_ids snap.entries ≡ request_ids rs)
        × (snap.total ≡ length rs))
    × (snap.succeeded ≡ count_if has_succeeded snap.entries)
    × (snap.failures ≡ count_if has_failed snap.entries)
    × (snap.succeeded + snap.failures ≤ snap.total)
    × (snap.completed ≡ true → snap.succeeded + snap.failures ≡ snap.total)

module _ {id : String} {rs : List Request} {l : Life} (h : Lives id rs l) where
  completed_count :
      l.job.completed ≡ true
      → count_succeeded l.job.entries + count_failed l.job.entries ≡ length l.job.entries
  completed_count done = of_counter l.counter h.progress
    where
      of_counter :
          (c : Counter)
          → Progress c l.job
          → count_succeeded l.job.entries + count_failed l.job.entries ≡ length l.job.entries
      of_counter starting p = absurd (ground (arith, p.unfinished))
      of_counter (at_entry i) p = absurd (ground (arith, p.unfinished))
      of_counter returned p = count_settled l.job.entries p.settled

  Consistent-snapshot : (q : Asked) → q id rs → Consistent q id (snapshot_for_job l.job)
  unfolding build_snapshot
  Consistent-snapshot q asked =
      let reg = h.registered in
      let same : length l.job.entries ≡ l.job.total = length-entries reg ∙ sym reg.total in
      (
        reg.same_id,
        (rs, asked, reg.ids, reg.total),
        count_succeeded-count_if l.job.entries,
        count_failed-count_if l.job.entries,
        omega (arith, count_le l.job.entries),
        λ done. completed_count done ∙ same,
      )

-- Whatever has happened in the registry, a snapshot that `Snapshot` returns for an id bears this id,
-- and has one entry for each request of a call of `Schedule` with this id, in their order, and their
-- number as its total; it counts as succeeded exactly the entries with success, as failures exactly
-- the failed ones, and, if it is complete, every entry is one of these.
pub snapshot-Consistent :
    (opts : Options) {r : Registry} (now : ℕ) (id : String) {snap : JobSnapshot}
    (runs : Runs opts r)
    → (snapshot opts now id r).1 ≡ some snap
    → Consistent (Requested runs) id snap
snapshot-Consistent opts {r} now id {snap} runs e =
    let h = Runs-Sane runs in
    found (lookup id r.jobs) (λ ref at. h.mapped id ref at)
      (sym (snapshot_exact opts now id r h.unique) ∙ e)
  where
    found :
        (o : Option ℕ)
        → ((ref : ℕ)
            → o ≡ some ref
            → (l : Life) × (get_elem? r.heap ref ≡ some l) × Lived opts (Requested runs) id l)
        → snapshot_found r (kept opts now r.heap o) ≡ some snap
        → Consistent (Requested runs) id snap
    found none f q = absurd (cc)
    found (some ref) f q =
        let (l, at, (rs, asked, reach)) = f ref refl in
        let same : snapshot_for_job l.job ≡ snap = ground arith in
        rw (← same) (Consistent-snapshot (Reach-Lives reach) (Requested runs) asked)
