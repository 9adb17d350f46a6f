-- ===== src/Download/Watching/Told.antt =====
-- What the handler has written, at any time.
use research_monitor.Base.{
  ℕ, ◌≡◌, ◌≢◌, refl, Bool, true, false, ◌||◌, String, List, [], ◌∷◌, ◌++◌, map, any, take, arith,
  ap, Bool-cases, Option, ◌∙◌, sym, inl, inr,
}
use research_monitor.Download.Stream.{Stream, seen}
use mathlib.Core.List.{append-nil}
use research_monitor.Download.Types.{Request, EntryResult, Event, progress, summary}
use research_monitor.Download.Job.{Job, snapshot_for_job}
use research_monitor.Download.Worker.{Life, Counter, starting, at_entry, returned}
use research_monitor.Download.Life.{Reach}
use research_monitor.Download.Progress.{Progress, Running}
use research_monitor.Download.Reachable.{Reach-Lives}
use research_monitor.Download.Watching.{
  Frame, frame_of, is_summary, closed_frame, summarised, stream_closed, Place, ended,
}

-- The summary is the last event of a job that has completed, and there is none before.
any-progress : (id : String) (es : List EntryResult) → any is_summary (map (progress id) es) ≡ false
any-progress id [] = refl
any-progress id (e ∷ es) = any-progress id es

pub any-append : (p : Event → Bool) (xs ys : List Event) → any p (xs ++ ys) ≡ any p xs || any p ys
any-append p [] ys = refl
any-append p (x ∷ xs) ys = ground (arith, any-append p xs ys)

pub record LogLaw (j : Job) : Type 0 where
  pub unfinished : j.completed ≡ false → any is_summary j.events ≡ false
  pub told :
      j.completed ≡ true
      → (front : List Event) × (s : Event) × (j.events ≡ front ++ s ∷ [])
        × (any is_summary front ≡ false)
        × (is_summary s ≡ true)

Running-LogLaw : (i : ℕ) (j : Job) → Running i j → LogLaw j
Running-LogLaw i j p = record {
  unfinished = λ _. rw p.logged (any-progress j.id (take i j.entries));
  told = λ done. absurd (ground (arith, p.unfinished));
}

LogLaw-at : (c : Counter) (j : Job) → Progress c j → LogLaw j
LogLaw-at starting j p = Running-LogLaw 0 j p
LogLaw-at (at_entry i) j p = Running-LogLaw i j p
LogLaw-at returned j p = record {
  unfinished = λ open_job. absurd (ground (arith, p.finished));
  told = λ _. (
    map (progress j.id) j.entries,
    summary j.id (snapshot_for_job j),
    p.logged,
    any-progress j.id j.entries,
    refl,
  );
}

module _ {cap : ℕ} {id : String} {rs : List Request} where
  pub Reach-LogLaw : {l : Life} → Reach cap id rs l → LogLaw l.job
  Reach-LogLaw {l} r = let h = Reach-Lives r in LogLaw-at l.counter l.job h.progress

-- The frames of these events, among which is no summary.
pub record Written (events : List Event) (frames : List Frame) : Type 0 where
  pub in_frames : frames ≡ map frame_of events
  pub unsummarised : any is_summary events ≡ false

-- What the handler has written, by where it stands, for the log of the job.
pub data Told (log : List Event) (done : Bool) : Place → List Frame → Type 0 where
  underway :
      {p : Place} {frames : List Frame} (events rest : List Event)
      → Written events frames
      → events ++ rest ≡ log
      → p ≢ ended summarised
      → p ≢ ended stream_closed
      → Told log done p frames
  complete :
      {frames : List Frame}
      → frames ≡ map frame_of log
      → done ≡ true
      → Told log done (ended summarised) frames
  cut_short :
      {front frames : List Frame} (events : List Event) (ev : Event) (missing : List Event)
      → Written events front
      → front ++ closed_frame ∷ [] ≡ frames
      → events ++ ev ∷ missing ≡ log
      → Told log done (ended stream_closed) frames

append-ne-nil : (xs ys : List Event) (y : Event) → xs ++ y ∷ ys ≢ []
append-ne-nil [] ys y h = cc
append-ne-nil (x ∷ xs) ys y h = cc

nothing_behind :
    (xs ys front : List Event) (ev s : Event)
    → xs ++ ev ∷ ys ≡ front ++ s ∷ []
    → any is_summary front ≡ false
    → is_summary ev ≡ true
    → ys ≡ []
nothing_behind [] ys [] ev s h q t = ground arith
nothing_behind [] ys (f ∷ front) ev s h q t =
    absurd (ground (arith, ap (λ (o : Option Event). o) refl))
nothing_behind (x ∷ xs) ys [] ev s h q t = absurd (append-ne-nil xs ys ev (cc))
nothing_behind (x ∷ xs) ys (f ∷ front) ev s h q t =
    nothing_behind xs ys front ev s (cc) (ground arith) t

-- A summary in the log ends it.
pub last_event :
    (j : Job) (xs ys : List Event) (ev : Event)
    → LogLaw j
    → xs ++ ev ∷ ys ≡ j.events
    → is_summary ev ≡ true
    → (ys ≡ []) × (j.completed ≡ true)
last_event j xs ys ev law h t = elim (Bool-cases j.completed) [
  | inl done ↦
      let (front, s, eq, q, _) = law.told done in
      (nothing_behind xs ys front ev s (h ∙ eq) q t, done)
  | inr open_job ↦
      absurd
        (ground (arith, law.unfinished, any-append is_summary xs (ev ∷ ys), ap (any is_summary) h))
]

-- A client who has all of the log of a job that has completed was told the summary.
pub none_missed :
    (j : Job) (s : Stream) {frames : List Frame}
    → LogLaw j
    → j.completed ≡ true
    → s.buf ≡ []
    → seen s ≡ j.events
    → Written (s.backlog ++ s.taken) frames
    → ⊥
none_missed j s law done b eq written =
    let (front, last, eq', _, t) = law.told done in
    let all_there : s.backlog ++ s.taken ≡ front ++ last ∷ [] =
      ap (λ q. s.backlog ++ q) (sym (append-nil s.taken) ∙ ap (λ q. s.taken ++ q) (sym b))
      ∙ eq
      ∙ eq' in
    ground (
      arith,
      written.unsummarised,
      ap (any is_summary) all_there,
      any-append is_summary front (last ∷ []),
    )
