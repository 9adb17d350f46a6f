-- ===== src/Download/Watching/Unmoved.antt =====
-- What the other goroutines leave of a channel `k`: its size, its backlog, and what its client has
-- received; and of the log: all that it holds, and the whole once the job has completed.
use research_monitor.Base.{
  ℕ, ◌≡◌, ◌≢◌, refl, sym, ◌∙◌, inl, inr, true, false, String, List, [], ◌∷◌, ◌++◌, some, map,
  get_elem?, Option-cases, arith, get_elem?-append_left,
}
use mathlib.Core.List.{append-nil, map-append}
use research_monitor.Pdf.Key.{Key}
use research_monitor.Download.Types.{Request, Event}
use research_monitor.Download.Stream.{receive}
use research_monitor.Download.Job.{Job, append_and_fan_out, finish_job, attach}
use research_monitor.Download.Worker.{
  Ensured, run_entry, Life, Counter, starting, at_entry, returned, entry_section, finish_section,
  section, worker_step,
}
use research_monitor.Download.Life.{receive_at}
use research_monitor.Download.Progress.{Lives, Progress}
use research_monitor.Download.Watching.Pasts.{
  Past, past, Kept, append_and_fan_out-Kept, finish_job-Kept, map-set_elsewhere,
}

-- The job before, and after.
pub record Unmoved (k : ℕ) (j j' : Job) : Type 0 where
  pub stays :
      (p : Past)
      → get_elem? (map past j.streams) k ≡ some p
      → get_elem? (map past j'.streams) k ≡ some p
  pub more : List Event
  pub grows : j'.events ≡ j.events ++ more
  pub frozen : j.completed ≡ true → (j'.completed ≡ true) × (more ≡ [])

Kept-Unmoved :
    (k : ℕ) {ev : Event} {j j' : Job} → j.completed ≡ false → Kept ev j j' → Unmoved k j j'
Kept-Unmoved k {ev} {j} unfinished h = record {
  stays = λ p e. rw h.pasts e;
  more = ev ∷ [];
  grows = h.logged;
  frozen = λ done. absurd (cc);
}

same-Unmoved :
    (k : ℕ) (j j' : Job)
    → j'.streams ≡ j.streams
    → j'.events ≡ j.events
    → j'.completed ≡ j.completed
    → Unmoved k j j'
same-Unmoved k j j' ss es done = record {
  stays = λ p e. rw ss e;
  more = [];
  grows = es ∙ sym (append-nil j.events);
  frozen = λ d. (done ∙ d, refl);
}

entry_section-Unmoved :
    (k : ℕ) (ensure : Key → Ensured) (now : ℕ) (l : Life) (i : ℕ) (req : Request) {l' : Life}
    → l.job.completed ≡ false
    → entry_section ensure now l i req ≡ some l'
    → Unmoved k l.job l'.job
unfolding entry_section
entry_section-Unmoved k ensure now l i req {l'} open_job h =
    let r = run_entry ensure now req in
    elim (Option-cases (append_and_fan_out i r l.job)) [
      | inl panics ↦ absurd (ground arith)
      | inr ((j', d), run) ↦
          let same : j' ≡ l'.job = ground arith in
          rw same at (Kept-Unmoved k open_job (append_and_fan_out-Kept i r l.job run))
    ]

finish_section-Unmoved :
    (k : ℕ) (now : ℕ) (l : Life) {l' : Life}
    → l.job.completed ≡ false
    → finish_section now l ≡ some l'
    → Unmoved k l.job l'.job
unfolding finish_section
finish_section-Unmoved k now l {l'} open_job h = elim (Option-cases (finish_job now l.job)) [
  | inl panics ↦ absurd (ground arith)
  | inr ((j', d, snap), run) ↦
      let same : j' ≡ l'.job = ground arith in
      rw same at (Kept-Unmoved k open_job (finish_job-Kept now l.job run))
]

section-Unmoved :
    (k : ℕ) (ensure : Key → Ensured) (now : ℕ) (c : Counter) (l : Life) {l' : Life}
    → Progress c l.job
    → section ensure now c l ≡ some l'
    → Unmoved k l.job l'.job
unfolding section
section-Unmoved k ensure now starting l {l'} p h =
    same-Unmoved k l.job l'.job (ground arith) (ground arith) (ground arith)
section-Unmoved k ensure now (at_entry i) l p h = elim (Option-cases (get_elem? l.job.requests i)) [
  | inl beyond ↦ finish_section-Unmoved k now l p.unfinished (rw beyond at h)
  | inr (req, found) ↦ entry_section-Unmoved k ensure now l i req p.unfinished (rw found at h)
]
section-Unmoved k ensure now returned l {l'} p h =
    same-Unmoved k l.job l'.job (ground arith) (ground arith) (ground arith)

pub worker_step-Unmoved :
    {id : String} {rs : List Request} (k : ℕ) (ensure : Key → Ensured) (now : ℕ) (l : Life)
    {l' : Life}
    → Lives id rs l
    → worker_step ensure now l ≡ some l'
    → Unmoved k l.job l'.job
unfolding worker_step
worker_step-Unmoved k ensure now l h run = section-Unmoved k ensure now l.counter l h.progress run

pub attach-Unmoved : (cap k : ℕ) (j : Job) → Unmoved k j (attach cap j)
unfolding attach
attach-Unmoved cap k j = record {
  stays = λ p e. rw map-append (get_elem?-append_left (map past j.streams) _ k e);
  more = [];
  grows = sym (append-nil j.events);
  frozen = λ d. (d, refl);
}

-- Another client's receipt.
pub receive_at-Unmoved : (j k : ℕ) (job : Job) → j ≢ k → Unmoved k job (receive_at j job)
unfolding receive_at
receive_at-Unmoved j k job ne = elim (Option-cases (get_elem? job.streams j)) [
  | inl missing ↦ rw missing (same-Unmoved k job job refl refl refl)
  | inr (s, found) ↦ rw found (record {
    stays = λ p e. map-set_elsewhere job.streams j k (receive s) ne ∙ e;
    more = [];
    grows = sym (append-nil job.events);
    frozen = λ d. (d, refl);
  })
]
