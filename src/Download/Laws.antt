-- ===== src/Download/Laws.antt =====
-- What the download workflow promises to its clients, whatever the interleaving.
use research_monitor.Base.{
  ℕ, zero, suc, ◌+◌, ◌-◌, ◌≤◌, ◌<◌, ◌≡◌, refl, sym, ap, ◌∙◌, ◌⊎◌, inl, inr, true, String, List, [],
  ◌∷◌, ◌++◌, some, length, length-append, length-map, get_elem?, map, all, take, Option-cases,
  arith,
}
use mathlib.Core.Option.{some-injective}
use mathlib.Core.Path.{subst}
use research_monitor.Pdf.Key.{Key}
use research_monitor.Download.Types.{Request, EntryResult, progress, summary}
use research_monitor.Download.Stream.{Stream, seen}
use research_monitor.Download.Job.{
  Job, new_job, count_succeeded, count_failed, build_snapshot, snapshot_for_job,
}
use research_monitor.Download.Worker.{
  Ensured, Life, launch, Counter, starting, at_entry, returned, worker_step, section as section_of,
  entry_section, finish_section,
}
use research_monitor.Download.Life.{
  work, subscribe, read, Reach, here, next, Move, section, client, receipt, move, drive, sections,
}
use research_monitor.Download.Delivery.{Delivered, following, finished, overrun}
use research_monitor.Download.Progress.{
  is_settled, entry_ids, request_ids, Registered, Running, Ended, Progress, length-entries,
}
use research_monitor.Download.Sections.{worker_step-Lives}
use research_monitor.Download.Reachable.{Reach-Lives}

length-take-le {ℓ} : {A : Type ℓ} (n : ℕ) (xs : List A) → length (take n xs) ≤ length xs
length-take-le zero xs = omega arith
length-take-le (suc n) [] = omega arith
length-take-le (suc n) (x ∷ xs) = omega (arith, length-take-le n xs)

module _ {id : String} {rs : List Request} {j : Job} (h : Registered id rs j) where
  Running-log : (i : ℕ) → Running i j → length j.events ≤ length rs
  Running-log i p = omega (
    arith,
    ap length p.logged,
    length-map (progress j.id) (take i j.entries),
    length-take-le i j.entries,
    length-entries h,
  )

  Ended-log : Ended j → length j.events ≡ length rs + 1
  Ended-log p = omega (
    arith,
    ap length p.logged,
    length-append (map (progress j.id) j.entries) (summary j.id (snapshot_for_job j) ∷ []),
    length-map (progress j.id) j.entries,
    length-entries h,
  )

  log_bound : (c : Counter) → Progress c j → length j.events ≤ length rs + 1
  log_bound starting p = omega (arith, Running-log 0 p)
  log_bound (at_entry i) p = omega (arith, Running-log i p)
  log_bound returned p = omega (arith, Ended-log p)

  all_delivered :
      length j.events ≤ length rs + 1
      → (k : ℕ) (s : Stream) → length rs < s.cap
      → Delivered j.events j.subscribers j.completed k s
      → (seen s ≡ j.events) × (s.closed ≡ j.completed)
  all_delivered b k s big (following m o d eq) = (eq, o ∙ sym d)
  all_delivered b k s big (finished m c d eq) = (eq, c ∙ sym d)
  all_delivered b k s big (overrun m c full ev xs eq) = absurd (
      omega (
        arith,
        ap length eq,
        length-append (seen s) (ev ∷ xs),
        length-append s.backlog (s.taken ++ s.buf),
      ))

module _ {cap : ℕ} {id : String} {rs : List Request} {l : Life} (r : Reach cap id rs l) where
  pub Reach-Delivered :
      (k : ℕ) (s : Stream)
      → get_elem? l.job.streams k ≡ some s
      → Delivered l.job.events l.job.subscribers l.job.completed k s
  Reach-Delivered = (Reach-Lives r).registered.channels.delivered

  -- Whatever the worker and the clients have done so far, a client's backlog, followed by what it
  -- has received and by what its channel still holds, is the event log of the job while it is
  -- subscribed; it is the log once the job has completed; or its channel was dropped and closed, and
  -- then it is a proper prefix of the log. So no event is there twice or out of order. And whatever
  -- the worker's next section is, after it this is the whole new log, unless the channel was closed
  -- before or its buffer was full: a client is dropped only with a full buffer.
  pub exactly_once :
      (k : ℕ) (s s' : Stream) (ensure : Key → Ensured) (now : ℕ) {l' : Life}
      → get_elem? l.job.streams k ≡ some s
      → worker_step ensure now l ≡ some l'
      → get_elem? l'.job.streams k ≡ some s'
      → Delivered l.job.events l.job.subscribers l.job.completed k s
        × ((s.closed ≡ true) ⊎ ((s.cap ≤ length s.buf) ⊎ (seen s' ≡ l'.job.events)))
  exactly_once k s s' ensure now {l'} there run later =
      let (after, run', _, served) = worker_step-Lives ensure now l (Reach-Lives r) in
      let same : after ≡ l' = some-injective _ _ (sym run' ∙ run) in
      (
        Reach-Delivered k s there,
        subst
            (λ (x : Life). (s.closed ≡ true) ⊎ ((s.cap ≤ length s.buf) ⊎ (seen s' ≡ x.job.events)))
            same (served k s s' there (ap (λ (x : Life). get_elem? x.job.streams k) same ∙ later)),
      )

  -- A client whose channel has room for more events than the job has entries misses none, and its
  -- channel is closed exactly when the job has completed.
  pub ample_buffer :
      (k : ℕ) (s : Stream)
      → get_elem? l.job.streams k ≡ some s
      → length rs < s.cap
      → (seen s ≡ l.job.events) × (s.closed ≡ l.job.completed)
  ample_buffer k s found big =
      let h = Reach-Lives r in
      all_delivered h.registered (log_bound h.registered l.counter h.progress) k s big
        (Reach-Delivered k s found)

  -- The worker's next section never panics: it sends into no closed channel, closes none twice and
  -- writes inside the entries.
  pub worker_safe :
      (ensure : Key → Ensured) (now : ℕ) → (l' : Life) × (worker_step ensure now l ≡ some l')
  worker_safe ensure now =
      let (l', run, _, _) = worker_step-Lives ensure now l (Reach-Lives r) in (l', run)

pub count_settled :
    (es : List EntryResult)
    → all is_settled es ≡ true
    → count_succeeded es + count_failed es ≡ length es
unfolding count_succeeded count_failed
count_settled [] h = omega arith
count_settled (e ∷ es) h = ground (arith, count_settled es)

-- When the worker has returned, the log is one progress event for each entry, in the order of the
-- requests, and then one summary, whose snapshot is complete and counts every entry as succeeded or
-- failed; each entry is about the paper of its request.
pub final_log :
    {cap : ℕ} {id : String} {rs : List Request} {l : Life}
    → Reach cap id rs l
    → l.counter ≡ returned
    → let snap = snapshot_for_job l.job in
      (l.job.events ≡ map (progress id) l.job.entries ++ summary id snap ∷ [])
      × (entry_ids l.job.entries ≡ request_ids rs)
      × (snap.completed ≡ true)
      × (snap.succeeded + snap.failures ≡ length rs)
      × (snap.total ≡ length rs)
unfolding build_snapshot
final_log {id = id} {rs = rs} {l = l} r back =
    let h = Reach-Lives r in
    let p : Ended l.job = rw back at h.progress in
    (
      p.logged
          ∙ ap (λ q. map (progress q) l.job.entries ++ summary q (snapshot_for_job l.job) ∷ [])
              h.registered.same_id,
      h.registered.ids,
      p.finished,
      count_settled l.job.entries p.settled ∙ length-entries h.registered,
      h.registered.total,
    )

-- How many sections the worker has left.
abbrev left : List Request → Counter → ℕ
left rs starting = length rs + 2
left rs (at_entry i) = length rs + 1 - i
left rs returned = 0

entry_section-counter :
    (ensure : Key → Ensured) (now : ℕ) (l l' : Life) (i : ℕ) (req : Request)
    → entry_section ensure now l i req ≡ some l'
    → l'.counter ≡ at_entry (suc i)
unfolding entry_section
entry_section-counter ensure now l l' i req e = ground arith

finish_section-counter :
    (now : ℕ) (l l' : Life) → finish_section now l ≡ some l' → l'.counter ≡ returned
unfolding finish_section
finish_section-counter now l l' e = ground arith

section-left :
    (rs : List Request) (ensure : Key → Ensured) (now : ℕ) (c : Counter) (l l' : Life)
    → l.job.requests ≡ rs
    → section_of ensure now c l ≡ some l'
    → c ≡ l.counter
    → left rs l'.counter ≤ left rs c - 1
unfolding section_of
section-left rs ensure now starting l l' q e same = ground arith
section-left rs ensure now (at_entry i) l l' q e same =
    elim (Option-cases (get_elem? l.job.requests i)) [
      | inl beyond ↦ rw (finish_section-counter now l l' (rw beyond at e)) (omega arith)
      | inr (req, found) ↦
          rw (entry_section-counter ensure now l l' i req (rw found at e)) (omega arith)
    ]
section-left rs ensure now returned l l' q e same = ground arith

no_section_left :
    (j : Job) {rs : List Request} (c : Counter)
    → j.requests ≡ rs
    → Progress c j
    → left rs c ≤ 0
    → c ≡ returned
no_section_left j starting q p h = absurd (omega arith)
no_section_left j (at_entry i) q p h = absurd (omega (arith, p.in_range, ap length q))
no_section_left j returned q p h = refl

drive-returned :
    {cap : ℕ} {id : String} {rs : List Request} (ms : List Move) {l : Life}
    → Reach cap id rs l
    → left rs l.counter ≤ sections ms
    → (l' : Life) × (drive cap ms l ≡ some l') × (l'.counter ≡ returned) × Reach cap id rs l'
unfolding drive move
drive-returned [] {l} r h =
    let lives = Reach-Lives r in
    (l, refl, no_section_left l.job l.counter lives.registered.same_requests lives.progress h, r)
drive-returned {rs = rs} (section ensure now ∷ ms) {l} r h =
    let (l1, run, _, _) = worker_step-Lives ensure now l (Reach-Lives r) in
    let fewer : left rs l1.counter ≤ left rs l.counter - 1 =
      section-left rs ensure now l.counter l l1 (Reach-Lives r).registered.same_requests
        (unfold worker_step in run) refl in
    let (l', rest, back, r') = drive-returned ms (next r (work ensure now run)) (omega arith) in
    (l', rw run rest, back, r')
drive-returned (client ∷ ms) {l} r h = drive-returned ms (next r (subscribe l)) h
drive-returned (receipt k ∷ ms) {l} r h = drive-returned ms (next r (read l k)) h

-- The worker is never blocked by its clients: in every schedule of the goroutines that gives it two
-- sections more than the job has requests, it returns without a panic, whatever the store answers
-- and the clients do.
pub worker_returns :
    (cap : ℕ) (id : String) (rs : List Request) (ms : List Move)
    → length rs + 2 ≤ sections ms
    → (l : Life) × (drive cap ms (launch (new_job id rs)) ≡ some l)
      × (l.counter ≡ returned)
      × Reach cap id rs l
worker_returns cap id rs ms h = drive-returned ms here h
