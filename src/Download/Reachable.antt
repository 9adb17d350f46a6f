-- ===== src/Download/Reachable.antt =====
-- Whatever the goroutines do, in any order, the invariant of a job holds.
use research_monitor.Base.{
  ℕ, ◌≡◌, inl, inr, String, List, Option, some, get_elem?, set, Bool-cases, Option-cases,
}
use research_monitor.Download.Types.{Request}
use research_monitor.Download.Stream.{Stream, receive}
use research_monitor.Download.Job.{Job, build_snapshot, attach}
use research_monitor.Download.Worker.{Life, Counter, starting, at_entry, returned}
use research_monitor.Download.Life.{Step, work, subscribe, read, receive_at, Reach, here, next}
use research_monitor.Download.Clients.{receive-Sound, subscribe-Sound, late-Sound}
use research_monitor.Download.Progress.{
  HasChannels, Registered, Running, Progress, Lives, launch-Lives,
}
use research_monitor.Download.Sections.{worker_step-Lives}

-- A step of a client touches the channels alone.
abbrev rewire : List ℕ → List Stream → Job → Job
rewire subs ss j = record j { subscribers = subs; streams = ss }

module _ (j : Job) (subs : List ℕ) (ss : List Stream) where
  Running-rewire : (i : ℕ) → Running i j → Running i (rewire subs ss j)
  Running-rewire i p = record {
    in_range = p.in_range;
    logged = p.logged;
    unfinished = p.unfinished;
    waiting = p.waiting;
    settled = p.settled;
  }

  Progress-rewire : (c : Counter) → Progress c j → Progress c (rewire subs ss j)
  unfolding build_snapshot
  Progress-rewire starting p = Running-rewire 0 p
  Progress-rewire (at_entry i) p = Running-rewire i p
  Progress-rewire returned p = record {
    logged = p.logged;
    finished = p.finished;
    settled = p.settled;
  }

  Registered-rewire :
      {id : String} {rs : List Request}
      → Registered id rs j
      → HasChannels (rewire subs ss j)
      → Registered id rs (rewire subs ss j)
  Registered-rewire h sound = record {
    same_id = h.same_id;
    same_requests = h.same_requests;
    total = h.total;
    ids = h.ids;
    channels = sound;
  }

pub some_eq : {o : Option Life} {a b : Life} → o ≡ some a → o ≡ some b → a ≡ b
some_eq p q = cc

module _ {id : String} {rs : List Request} where
  Lives-rewire :
      (l : Life) (subs : List ℕ) (ss : List Stream)
      → Lives id rs l
      → HasChannels (rewire subs ss l.job)
      → Lives id rs (record l { job = rewire subs ss l.job })
  Lives-rewire l subs ss h sound = record {
    registered = Registered-rewire l.job subs ss h.registered sound;
    progress = Progress-rewire l.job subs ss l.counter h.progress;
  }

  attach-Lives :
      (cap : ℕ) (l : Life) → Lives id rs l → Lives id rs (record l { job = attach cap l.job })
  unfolding attach
  attach-Lives cap l h = Lives-rewire l _ _ h (sound l.job h.registered.channels)
    where
      sound : (j : Job) → HasChannels j → HasChannels (attach cap j)
      sound j s = elim (Bool-cases j.completed) [
        | inl done ↦ rw done (late-Sound cap (rw done at s))
        | inr open_job ↦ rw open_job (subscribe-Sound cap (rw open_job at s))
      ]

  read-Lives :
      (k : ℕ) (l : Life) → Lives id rs l → Lives id rs (record l { job = receive_at k l.job })
  unfolding receive_at
  read-Lives k l h = elim (Option-cases (get_elem? l.job.streams k)) [
    | inl missing ↦ rw missing h
    | inr (s, found) ↦ rw found (
        Lives-rewire l l.job.subscribers (set l.job.streams k (receive s)) h
          (receive-Sound k s found h.registered.channels))
  ]

  pub Step-Lives : {cap : ℕ} {l l' : Life} → Lives id rs l → Step cap l l' → Lives id rs l'
  Step-Lives {l = l} h (work ensure now run) =
      let (l'', run', h', _) = worker_step-Lives ensure now l h in rw (some_eq run' run) at h'
  Step-Lives {cap = cap} h (subscribe l) = attach-Lives cap l h
  Step-Lives h (read l k) = read-Lives k l h

  pub Reach-Lives : {cap : ℕ} {l : Life} → Reach cap id rs l → Lives id rs l
  Reach-Lives here = launch-Lives id rs
  Reach-Lives (next r st) = Step-Lives (Reach-Lives r) st
