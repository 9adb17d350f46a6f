-- ===== src/Download/Registry/Sweep.antt =====
-- What the reading methods see and what eviction removes.
use research_monitor.Base.{
  ℕ, ◌+◌, ◌<◌, ◌≤◌, ◌≡◌, refl, ap, ◌∙◌, ◌⊎◌, inl, inr, true, false, ltb, get_elem?, String, List,
  [], ◌∷◌, ◌++◌, Option, none, some, length, str_eq, eq_iff, Bool-cases, arith, if◌then◌else◌,
  get_elem?-last,
}
use research_monitor.Download.Types.{Request}
use research_monitor.Download.Job.{new_job, snapshot_for_job}
use research_monitor.Download.Worker.{Life, launch}
use research_monitor.Download.Registry.{
  Options, Registry, lookup, without, schedule, is_expired, expired_at, sweep_loop, sweep, snapshot,
  snapshot_found,
}

-- A key stands once, as in a map.
abbrev pub Unique : List (String × ℕ) → Type 0
Unique [] = Unit
Unique ((key, ref) ∷ jobs) = (lookup key jobs ≡ none) × Unique jobs

-- What a reader may still see of the job at `ref`.
abbrev pub kept : Options → ℕ → List Life → Option ℕ → Option ℕ
kept opts now heap none = none
kept opts now heap (some ref) = if expired_at opts.retention now heap ref then none else some ref

lookup-sweep_loop :
    (opts : Options) (now : ℕ) (heap : List Life) (id : String) (jobs : List (String × ℕ))
    → Unique jobs
    → lookup id (sweep_loop opts.retention now heap jobs).0 ≡ kept opts now heap (lookup id jobs)
unfolding sweep_loop
lookup-sweep_loop opts now heap id [] u = refl
lookup-sweep_loop opts now heap id ((key, ref) ∷ jobs) (new, u) =
    elim (Bool-cases (str_eq key id)) [
      | inl same ↦ ground (
        arith,
        lookup-sweep_loop opts now heap id jobs u,
        ap (λ q. lookup q jobs) ((eq_iff key id).0 same),
      )
      | inr other ↦ ground (arith, lookup-sweep_loop opts now heap id jobs u)
    ]

lookup-without_self : (id : String) (jobs : List (String × ℕ)) → lookup id (without id jobs) ≡ none
lookup-without_self id [] = refl
lookup-without_self id ((key, ref) ∷ jobs) = ground (arith, lookup-without_self id jobs)

lookup-without-none :
    (id key : String) (jobs : List (String × ℕ))
    → lookup key jobs ≡ none
    → lookup key (without id jobs) ≡ none
lookup-without-none id key [] h = refl
lookup-without-none id key ((k, ref) ∷ jobs) h = ground (arith, lookup-without-none id key jobs)

Unique-without : (id : String) (jobs : List (String × ℕ)) → Unique jobs → Unique (without id jobs)
Unique-without id [] u = tt
Unique-without id ((key, ref) ∷ jobs) (new, u) = elim (Bool-cases (str_eq key id)) [
  | inl same ↦ rw same (Unique-without id jobs u)
  | inr other ↦ rw other (lookup-without-none id key jobs new, Unique-without id jobs u)
]

Unique-sweep_loop :
    (opts : Options) (now : ℕ) (heap : List Life) (jobs : List (String × ℕ))
    → Unique jobs
    → Unique (sweep_loop opts.retention now heap jobs).0
unfolding sweep_loop
Unique-sweep_loop opts now heap [] u = tt
Unique-sweep_loop opts now heap ((key, ref) ∷ jobs) (new, u) =
    elim (Bool-cases (expired_at opts.retention now heap ref)) [
      | inl gone ↦ rw gone (Unique-sweep_loop opts now heap jobs u)
      | inr stays ↦ rw stays (
        lookup-sweep_loop opts now heap key jobs u ∙ ap (kept opts now heap) new,
        Unique-sweep_loop opts now heap jobs u,
      )
    ]

pub Unique-sweep :
    (opts : Options) (now : ℕ) (r : Registry) → Unique r.jobs → Unique (sweep opts now r).0.jobs
unfolding sweep
Unique-sweep opts now r u = Unique-sweep_loop opts now r.heap r.jobs u

pub Unique-schedule :
    (id : String) (reqs : List Request) (r : Registry)
    → Unique r.jobs
    → Unique (schedule id reqs r).0.jobs
unfolding schedule
Unique-schedule id [] r u = u
Unique-schedule id (req ∷ reqs) r u = (lookup-without_self id r.jobs, Unique-without id r.jobs u)

-- The job at `ref` has completed, and the retention has passed since.
abbrev pub HasAged : ℕ → ℕ → List Life → ℕ → Type 0
HasAged retention now heap ref =
    (l : Life) × (get_elem? heap ref ≡ some l)
    × (l.job.completed ≡ true)
    × (l.job.completed_at + retention ≤ now)

-- The job at `ref` is still at work, or the retention has not passed yet.
abbrev pub IsRecent : ℕ → ℕ → List Life → ℕ → Type 0
IsRecent retention now heap ref =
    (get_elem? heap ref ≡ none)
    ⊎ ((l : Life) × (get_elem? heap ref ≡ some l)
        × ((l.job.completed ≡ false) ⊎ (now < l.job.completed_at + retention)))

-- What a key of the map leads to before and after a sweep.
abbrev pub SweptLaw : ℕ → ℕ → List Life → Option ℕ → Option ℕ → Type 0
SweptLaw retention now heap none after = after ≡ none
SweptLaw retention now heap (some ref) after =
    ((after ≡ none) × HasAged retention now heap ref)
    ⊎ ((after ≡ some ref) × IsRecent retention now heap ref)

kept-aged :
    (opts : Options) (now ref : ℕ) (heap : List Life) (o : Option Life)
    → get_elem? heap ref ≡ o
    → SweptLaw opts.retention now heap (some ref) (kept opts now heap (some ref))
unfolding is_expired
kept-aged opts now ref heap none at = inr (ground (arith, at), inl at)
kept-aged opts now ref heap (some l) at = elim (Bool-cases l.job.completed) [
  | inl finished ↦ elim (Bool-cases (ltb now (l.job.completed_at + opts.retention))) [
    | inl early ↦
        inr (ground (arith, at, finished, early), inr (l, at, inr (ground (arith, early))))
    | inr late ↦ inl (ground (arith, at, finished, late), (l, at, finished, ground (arith, late)))
  ]
  | inr working ↦ inr (ground (arith, at, working), inr (l, at, inl working))
]

kept-Swept :
    (opts : Options) (now : ℕ) (heap : List Life) (found : Option ℕ)
    → SweptLaw opts.retention now heap found (kept opts now heap found)
kept-Swept opts now heap none = refl
kept-Swept opts now heap (some ref) = kept-aged opts now ref heap (get_elem? heap ref) refl

pub lookup-kept :
    (opts : Options) (now : ℕ) (id : String) (r : Registry)
    → Unique r.jobs
    → (lookup id (sweep opts now r).0.jobs ≡ kept opts now r.heap (lookup id r.jobs))
      × ((sweep opts now r).0.heap ≡ r.heap)
unfolding sweep
lookup-kept opts now id r u = (lookup-sweep_loop opts now r.heap id r.jobs u, refl)

-- In a map with unique keys, a sweep removes a job exactly if it has completed and the retention, or
-- more, has passed since it completed; every other job stays under its id, and no job itself changes.
pub lookup-sweep :
    (opts : Options) (now : ℕ) (id : String) (r : Registry)
    → Unique r.jobs
    → SweptLaw opts.retention now r.heap (lookup id r.jobs) (lookup id (sweep opts now r).0.jobs)
      × ((sweep opts now r).0.heap ≡ r.heap)
lookup-sweep opts now id r u =
    let (at, heap) = lookup-kept opts now id r u in
    (rw at (kept-Swept opts now r.heap (lookup id r.jobs)), heap)

lookup-without_ne :
    (id key : String) (jobs : List (String × ℕ))
    → str_eq id key ≡ false
    → lookup key (without id jobs) ≡ lookup key jobs
lookup-without_ne id key [] h = refl
lookup-without_ne id key ((k, ref) ∷ jobs) h =
    ground (arith, lookup-without_ne id key jobs h, eq_iff k id, eq_iff k key, eq_iff id key)

-- `Snapshot` answers `ErrJobUnknown` exactly if the id has no job or its job has expired, and else
-- with the present state of that job.
pub snapshot_exact :
    (opts : Options) (now : ℕ) (id : String) (r : Registry)
    → Unique r.jobs
    → (snapshot opts now id r).1 ≡ snapshot_found r (kept opts now r.heap (lookup id r.jobs))
unfolding snapshot sweep
snapshot_exact opts now id r u =
    ap (snapshot_found r) (lookup-sweep_loop opts now r.heap id r.jobs u)

not_expired :
    (opts : Options) (now : ℕ) (id : String) (reqs : List Request) (heap : List Life)
    → let j = new_job id reqs in
      snapshot_found
        (record { jobs = []; heap = heap ++ launch j ∷ [] })
        (kept opts now (heap ++ launch j ∷ []) (some (length heap)))
      ≡ some (snapshot_for_job j)
unfolding is_expired new_job
not_expired opts now id reqs heap = ground (arith, get_elem?-last heap (launch (new_job id reqs)))

-- A job is readable as soon as `Schedule` has returned: at any time, a reader of its id gets the
-- snapshot that `Schedule` returned, in which all entries are pending; the map has the other ids as
-- before.
pub snapshot-schedule :
    (opts : Options) (now : ℕ) (id : String) (req : Request) (reqs : List Request) (r : Registry)
    → Unique r.jobs
    → let (r', snap, _) = schedule id (req ∷ reqs) r in
      ((snapshot opts now id r').1 ≡ some snap)
      × (snap ≡ snapshot_for_job (new_job id (req ∷ reqs)))
      × ((key : String) → str_eq id key ≡ false → lookup key r'.jobs ≡ lookup key r.jobs)
unfolding schedule
snapshot-schedule opts now id req reqs r u = (
  snapshot_exact opts now id (schedule id (req ∷ reqs) r).0 (Unique-schedule id (req ∷ reqs) r u)
      ∙ (rw ((eq_iff id id).1 refl) (not_expired opts now id (req ∷ reqs) r.heap)),
  refl,
  λ key h. rw h (lookup-without_ne id key r.jobs h),
)
