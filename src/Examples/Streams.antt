-- ===== src/Examples/Streams.antt =====
-- The stream of a job of two requests, for a client who was there before the worker began.
use research_monitor.Base.{ℕ, ◌+◌, ◌≡◌, refl, map, length, [], arith}
use research_monitor.Download.Stream.{offer}
use research_monitor.Download.Job.{
  append_and_fan_out, pending_entries, fan_out, fan_out_loop, finish_job, close_all, new_job,
  attach,
}
use research_monitor.Download.Stream.{close_stream}
use research_monitor.Download.Worker.{Life, launch, returned, worker_step}
use research_monitor.Download.Life.{here}
use research_monitor.Download.Watching.{
  frame_of, summarised, ended, opened, Watch, open_at, worker, turns, Watcher,
}
use research_monitor.Download.Watching.Told.{Told}
use research_monitor.Download.Watching.Streaming.{stream_lem}
use research_monitor.Download.Watching.Complete.{stream_complete}
use research_monitor.Examples.Downloads.{requests, store, reached}

abbrev begun : ℕ → Life
begun cap = record (launch (new_job "j" requests)) {
  job = attach cap (launch (new_job "j" requests)).job;
}

abbrev life1 : ℕ → Life
life1 cap = reached (worker_step store 5 (begun cap))

abbrev life2 : ℕ → Life
life2 cap = reached (worker_step store 6 (life1 cap))

abbrev life3 : ℕ → Life
life3 cap = reached (worker_step store 7 (life2 cap))

abbrev life4 : ℕ → Life
life4 cap = reached (worker_step store 8 (life3 cap))

watched_ample : Watch 3 "j" requests 0 (life4 3) (opened [])
unfolding worker_step attach new_job append_and_fan_out pending_entries fan_out fan_out_loop offer
    finish_job close_all close_stream
watched_ample =
    worker store 8
      (worker store 7 (worker store 6 (worker store 5 (open_at here refl) refl) refl) refl) refl

watched_slow : Watch 1 "j" requests 0 (life4 1) (opened [])
unfolding worker_step attach new_job append_and_fan_out pending_entries fan_out fan_out_loop offer
    finish_job close_all close_stream
watched_slow =
    worker store 8
      (worker store 7 (worker store 6 (worker store 5 (open_at here refl) refl) refl) refl) refl

returned_ample : (life4 3).counter ≡ returned
unfolding worker_step attach new_job append_and_fan_out pending_entries fan_out fan_out_loop offer
    finish_job close_all close_stream
returned_ample = refl

stream_lem_example :
    Told (life4 1).job.events (life4 1).job.completed (opened []).place (opened []).frames
stream_lem_example = stream_lem watched_slow

abbrev served : ℕ → Life × Watcher
served cap = turns (length (life4 cap).job.events + 2) 0 (life4 cap) (opened [])

stream_complete_example :
    ((served 3).1.place ≡ ended summarised)
    × ((served 3).1.frames ≡ map frame_of (life4 3).job.events)
stream_complete_example = stream_complete (omega arith) watched_ample returned_ample (cc)
