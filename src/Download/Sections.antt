-- ===== src/Download/Sections.antt =====
-- Every section of the worker runs and keeps the invariant.
use mathlib.Core.List.{map-append}
use mathlib.Core.Option.{some-injective}
use research_monitor.Base.{
  ℕ, suc, ◌≤◌, ◌<◌, ◌≡◌, refl, sym, ap, ◌∙◌, ◌⊎◌, inl, inr, true, false, String, List, [], ◌∷◌,
  ◌++◌, none, some, length, get_elem?, get_elem?-lt, get_elem?-none, get_elem?-some, set, map,
  map-set, take-set, drop-set, take_all, all-append, Option-cases, arith,
}
use research_monitor.Pdf.Key.{Key}
use research_monitor.Download.Types.{Request, EntryResult, progress, summary}
use research_monitor.Download.Stream.{Stream, seen}
use research_monitor.Download.Job.{
  Job, Fan, build_snapshot, fan_out, append_and_fan_out, finish_job,
}
use research_monitor.Download.Worker.{
  Ensured, run_entry, Life, Counter, starting, at_entry, returned, emit_entry_completed,
  emit_subscriber_dropped, job_completed, entry_section, finish_section, section, worker_step,
}
use research_monitor.Download.Delivery.{
  Delivered, following, finished, overrun, Served, fan_out_loop-Sound, close_all-Sound,
}
use research_monitor.Download.Progress.{
  entry_ids, request_ids, HasChannels, Registered, Running, Progress, Lives, run_entry-settled,
  run_entry-id, drop-waiting, get_elem?-map, length-entries,
}

-- The result that is written is about the entry's own paper.
ids-set :
    (es : List EntryResult) (rs : List Request) (i : ℕ) (req : Request) (r : EntryResult)
    → entry_ids es ≡ request_ids rs
    → get_elem? rs i ≡ some req
    → i < length es
    → r.paper_id ≡ req.paper_id
    → entry_ids (set es i r) ≡ request_ids rs
ids-set es rs i req r ids found lt same =
    let (e, old) = get_elem?-some es i lt in
    map-set (λ (x : EntryResult). x.paper_id) es i r old
      (ground (
        arith,
        get_elem?-map (λ (x : EntryResult). x.paper_id) es i old,
        get_elem?-map (λ (x : Request). x.paper_id) rs i found,
        ap (λ l. get_elem? l i) ids,
      ))
    ∙ ids

abbrev entered : ℕ → EntryResult → Fan → Job → Job
entered i r fan j = record j {
  entries = set j.entries i r;
  events = j.events ++ progress j.id r ∷ [];
  subscribers = fan.kept;
  streams = fan.streams;
}

append_and_fan_out_run :
    (i : ℕ) (r : EntryResult) (j : Job)
    → i < length j.entries
    → HasChannels j
    → j.completed ≡ false
    → (fan : Fan) × (append_and_fan_out i r j ≡ some (entered i r fan j, fan.dropped))
      × HasChannels (entered i r fan j)
      × Served (entered i r fan j).events j.streams (entered i r fan j).streams
unfolding append_and_fan_out fan_out
append_and_fan_out_run i r j lt h open_job =
    let (fan, run, sound, served) = fan_out_loop-Sound (progress j.id r) (rw open_job at h) in
    (fan, ground arith, rw open_job sound, served)

module _ {id : String} {rs : List Request} (ensure : Key → Ensured) (now : ℕ) (l : Life) (i : ℕ)
    (req : Request) (found : get_elem? l.job.requests i ≡ some req) (h : Registered id rs l.job)
    (p : Running i l.job) where
  entry_section-Lives :
      (l' : Life) × (entry_section ensure now l i req ≡ some l')
      × Lives id rs l'
      × Served l'.job.events l.job.streams l'.job.streams
  unfolding entry_section
  entry_section-Lives =
      let r = run_entry ensure now req in
      let j = l.job in
      let lt : i < length j.entries =
        omega
          (arith, length-entries h, get_elem?-lt j.requests i found, ap length h.same_requests) in
      let (fan, run, sound, served) = append_and_fan_out_run i r j lt h.channels p.unfinished in
      (
        record l {
          job = entered i r fan j;
          counter = at_entry (suc i);
          log = l.log ++ (emit_entry_completed j.id r ∷ emit_subscriber_dropped j.id fan.dropped);
        },
        rw run refl,
        record {
          registered = record {
            same_id = h.same_id;
            same_requests = h.same_requests;
            total = h.total;
            ids =
                ids-set j.entries rs i req r h.ids
                  (ap (λ q. get_elem? q i) (sym h.same_requests) ∙ found) lt
                  (run_entry-id ensure now req);
            channels = sound;
          };
          progress = record {
            in_range = get_elem?-lt j.requests i found;
            logged =
                rw (take-set j.entries i r lt, map-append)
                  (ap (λ q. q ++ progress j.id r ∷ []) p.logged);
            unfinished = p.unfinished;
            waiting = drop-set j.entries i r ∙ drop-waiting i j.entries j.requests p.waiting;
            settled = rw (
              take-set j.entries i r lt,
              all-append,
              p.settled,
              run_entry-settled ensure now req,
            );
          };
        },
        served,
      )

-- The end of the job.
abbrev ended : ℕ → Fan → List Stream → Job → Job
ended now fan ss j = record j {
  events = j.events ++ summary j.id (build_snapshot j true now) ∷ [];
  subscribers = [];
  streams = ss;
  completed = true;
  completed_at = now;
}

finish_job_run :
    (now : ℕ) (j : Job)
    → HasChannels j
    → j.completed ≡ false
    → (fan : Fan) × (ss : List Stream) × (finish_job now j
        ≡ some (ended now fan ss j, fan.dropped, build_snapshot j true now))
      × HasChannels (ended now fan ss j)
      × Served (ended now fan ss j).events j.streams ss
unfolding finish_job fan_out
finish_job_run now j h open_job =
    let ev = summary j.id (build_snapshot j true now) in
    let (fan, run, sound, served) = fan_out_loop-Sound ev (rw open_job at h) in
    let (ss, closed, sound', kept) = close_all-Sound sound in
    (fan, ss, ground arith, sound', kept j.streams served)

module _ {id : String} {rs : List Request} (now : ℕ) (l : Life) (i : ℕ)
    (beyond : get_elem? l.job.requests i ≡ none) (h : Registered id rs l.job)
    (p : Running i l.job) where
  finish_section-Lives :
      (l' : Life) × (finish_section now l ≡ some l')
      × Lives id rs l'
      × Served l'.job.events l.job.streams l'.job.streams
  unfolding finish_section build_snapshot
  finish_section-Lives =
      let j = l.job in
      let long : length j.entries ≤ i =
        omega (
          arith,
          length-entries h,
          get_elem?-none j.requests i beyond,
          ap length h.same_requests,
        ) in
      let (fan, ss, run, sound, served) = finish_job_run now j h.channels p.unfinished in
      (
        record l {
          job = ended now fan ss j;
          counter = returned;
          log =
              l.log
              ++ (emit_subscriber_dropped j.id fan.dropped
                  ++ job_completed j.id (build_snapshot j true now) ∷ []);
        },
        rw run refl,
        record {
          registered = record {
            same_id = h.same_id;
            same_requests = h.same_requests;
            total = h.total;
            ids = h.ids;
            channels = sound;
          };
          progress = record {
            logged =
                ap (λ q. q ++ summary j.id (build_snapshot j true now) ∷ [])
                  (p.logged ∙ ap (map (progress j.id)) (take_all j.entries i long));
            finished = refl;
            settled = rw (← take_all j.entries i long) p.settled;
          };
        },
        served,
      )

-- Channels that stand as they did.
unmoved-Served : (j : Job) → HasChannels j → Served j.events j.streams j.streams
unmoved-Served j h k s s' there later =
    let same : s ≡ s' = some-injective _ _ (sym there ∙ later) in
    rw (← same) (of_delivered (h.delivered k s there))
  where
    of_delivered :
        Delivered j.events j.subscribers j.completed k s
        → (s.closed ≡ true) ⊎ ((s.cap ≤ length s.buf) ⊎ (seen s ≡ j.events))
    of_delivered (following _ _ _ eq) = inr (inr eq)
    of_delivered (finished _ c _ _) = inl c
    of_delivered (overrun _ c _ _ _ _) = inl c

module _ {id : String} {rs : List Request} (ensure : Key → Ensured) (now : ℕ) where
  section-Lives :
      (c : Counter) (l : Life)
      → Registered id rs l.job
      → Progress c l.job
      → (c ≡ l.counter)
      → (l' : Life) × (section ensure now c l ≡ some l')
        × Lives id rs l'
        × Served l'.job.events l.job.streams l'.job.streams
  unfolding section
  section-Lives starting l h p q = (
    record l { job = record l.job { started_at = now }; counter = at_entry 0 },
    refl,
    record {
      registered = record {
        same_id = h.same_id;
        same_requests = h.same_requests;
        total = h.total;
        ids = h.ids;
        channels = h.channels;
      };
      progress = record {
        in_range = p.in_range;
        logged = p.logged;
        unfinished = p.unfinished;
        waiting = p.waiting;
        settled = p.settled;
      };
    },
    unmoved-Served l.job h.channels,
  )
  section-Lives (at_entry i) l h p q = elim (Option-cases (get_elem? l.job.requests i)) [
    | inl beyond ↦ rw beyond (finish_section-Lives now l i beyond h p)
    | inr (req, found) ↦ rw found (entry_section-Lives ensure now l i req found h p)
  ]
  section-Lives returned l h p q =
      (l, refl, record { registered = h; progress = rw (← q) p }, unmoved-Served l.job h.channels)

  -- The worker's next section does not panic, keeps the invariant, and serves the clients.
  pub worker_step-Lives :
      (l : Life)
      → Lives id rs l
      → (l' : Life) × (worker_step ensure now l ≡ some l')
        × Lives id rs l'
        × Served l'.job.events l.job.streams l'.job.streams
  unfolding worker_step
  worker_step-Lives l h = section-Lives l.counter l h.registered h.progress refl
