-- ===== src/Download/Watching/Streaming.antt =====
-- What a client has been told, whatever the interleaving of the goroutines.
use research_monitor.Base.{ℕ, ◌≡◌, refl, String, List, [], ◌∷◌, ◌++◌, some, map, length, get_elem?}
use research_monitor.Download.Types.{Request}
use research_monitor.Download.Stream.{Stream}
use research_monitor.Download.Job.{attach}
use research_monitor.Download.Worker.{Life}
use research_monitor.Download.Reachable.{Reach-Lives}
use research_monitor.Download.Watching.{
  Watcher, opened, Watch, open_at, worker, newcomer, other_client, turned, leaving,
}
use research_monitor.Download.Watching.Turns.{turn-Turn, Watch-Reach}
use research_monitor.Download.Watching.Pasts.{past}
use research_monitor.Download.Watching.Unmoved.{
  worker_step-Unmoved, attach-Unmoved, receive_at-Unmoved,
}
use research_monitor.Download.Watching.Told.{Told}
use research_monitor.Download.Watching.Holding.{Inv, at_replay, Inv-Unmoved}
use research_monitor.Download.Watching.Keeping.{Turn-Inv, leaving-Inv, Inv-Told}

get_elem?-last :
    (ss : List Stream) (s : Stream)
    → get_elem? (map past (ss ++ s ∷ [])) (length ss) ≡ some (past s)
get_elem?-last [] s = refl
get_elem?-last (x ∷ ss) s = get_elem?-last ss s

opened-Inv :
    (cap k : ℕ) (l : Life)
    → k ≡ length l.job.streams
    → Inv cap k (record l { job = attach cap l.job }) (opened l.job.events)
unfolding attach
opened-Inv cap k l e = record {
  channel = record { cap = cap; backlog = l.job.events; taken = [] };
  found = rw e (get_elem?-last l.job.streams _);
  sized = refl;
  holds = at_replay [] (record { in_frames = refl; unsummarised = refl }) refl refl;
}

module _ {cap : ℕ} {id : String} {rs : List Request} {k : ℕ} where
  pub Watch-Inv : {l : Life} {w : Watcher} → Watch cap id rs k l w → Inv cap k l w
  Watch-Inv (open_at {l} r e) = opened-Inv cap k l e
  Watch-Inv (worker {l} {l'} ensure now h run) =
      Inv-Unmoved l l' (Watch-Inv h)
        (worker_step-Unmoved k ensure now l (Reach-Lives (Watch-Reach h)) run)
  Watch-Inv (newcomer {l} h) = Inv-Unmoved l _ (Watch-Inv h) (attach-Unmoved cap k l.job)
  Watch-Inv (other_client {l} j ne h) =
      Inv-Unmoved l _ (Watch-Inv h) (receive_at-Unmoved j k l.job ne)
  Watch-Inv (turned {l} {l'} {w} h e) = Turn-Inv k (Watch-Reach h) (Watch-Inv h) (turn-Turn k l w e)
  Watch-Inv (leaving h e) = leaving-Inv k (Watch-Reach h) (Watch-Inv h) e

  -- The stream of a client is told in order and once, whatever the goroutines around the job have
  -- done. At any time, the frames are those of the first events of the log, and no summary is among
  -- them until the handler returns behind it: then the frames are those of the whole log, and the
  -- job has completed. If it returned at a closed channel, the frames are those of a proper part of
  -- the log, without a summary, and then one that says `stream_closed`.
  pub stream_lem :
      {l : Life} {w : Watcher}
      → Watch cap id rs k l w
      → Told l.job.events l.job.completed w.place w.frames
  stream_lem {w = w} h = Inv-Told k (Watch-Reach h) (Watch-Inv h) w.place refl
