-- ===== src/Download/Watching/Keeping.antt =====
-- The invariant of the handler, and that each step keeps it.
use mathlib.Core.List.{append_assoc, append-nil}
use research_monitor.Base.{
  ℕ, ◌≡◌, refl, sym, ap, ◌∙◌, true, String, List, [], ◌∷◌, ◌++◌, some, get_elem?, get_elem?-lt,
  get_elem?-set_self, set, arith,
}
use research_monitor.Download.Types.{Request, Event}
use research_monitor.Download.Stream.{Stream, receive}
use research_monitor.Download.Worker.{Life}
use research_monitor.Download.Life.{Reach, receive_at}
use research_monitor.Download.Delivery.{Delivered, following, finished, overrun}
use research_monitor.Download.Laws.{Reach-Delivered}
use research_monitor.Download.Watching.{
  closed_frame, stream_closed, disconnected, Place, replaying, waiting, ended, Watcher, write,
}
use research_monitor.Download.Watching.Turns.{Turn, replayed_all, replayed, received, found_closed}
use research_monitor.Download.Watching.Pasts.{Past, past, get_elem?-map-past}
use research_monitor.Download.Watching.Told.{
  Reach-LogLaw, none_missed, Written, Told, underway, cut_short,
}
use research_monitor.Download.Watching.Holding.{
  at_replay, at_wait, at_end, Inv, find_stream, prefix, write-Holds, replaying-Holds, waiting-Holds,
  ended-Holds, receive_there, past-receive, rest_of_log,
}

module _ {cap : ℕ} {id : String} {rs : List Request} (k : ℕ) {l : Life} {w : Watcher}
    (r : Reach cap id rs l) (h : Inv cap k l w) where
  past_at : (s : Stream) → get_elem? l.job.streams k ≡ some s → past s ≡ h.channel
  past_at s there = ground (arith, get_elem?-map-past l.job.streams k there)

  -- The log, from the end of what the channel shows.
  log_at :
      (s : Stream)
      → get_elem? l.job.streams k ≡ some s
      → (tail : List Event) × ((s.backlog ++ (s.taken ++ s.buf)) ++ tail ≡ l.job.events)
  log_at s there = prefix (Reach-Delivered r k s there)

  pub waiting-Written :
      (s : Stream)
      → get_elem? l.job.streams k ≡ some s
      → w.place ≡ waiting
      → Written (s.backlog ++ s.taken) w.frames
  waiting-Written s there at =
      rw (ap (λ (p : Past). p.backlog ++ p.taken) (past_at s there))
        (waiting-Holds (rw at at h.holds))

  replayed_all-Inv :
      w.place ≡ replaying [] → Inv cap k l (record { place = waiting; frames = w.frames })
  replayed_all-Inv at =
      let (events, written, eq, t) = replaying-Holds (rw at at h.holds) in
      record {
        channel = h.channel;
        found = h.found;
        sized = h.sized;
        holds = at_wait (rw (t, append-nil, ← eq, append-nil) written);
      }

  replayed-Inv :
      (ev : Event) (rest : List Event)
      → w.place ≡ replaying (ev ∷ rest)
      → Inv cap k l (write ev (replaying rest) w.frames)
  replayed-Inv ev rest at =
      let (events, written, eq, t) = replaying-Holds (rw at at h.holds) in
      let (s, there, same) = find_stream l.job.streams k h.found in
      let (tail, whole) = log_at s there in
      record {
        channel = h.channel;
        found = h.found;
        sized = h.sized;
        holds =
            write-Holds h.channel l.job ev (rest ++ ((s.taken ++ s.buf) ++ tail)) (Reach-LogLaw r)
              written
              (rest_of_log events (ev ∷ rest) (s.taken ++ s.buf) tail
                (eq ∙ ap (λ (p : Past). p.backlog) (sym same)) whole)
              (λ written'.
                at_replay (events ++ ev ∷ []) written' (append_assoc events (ev ∷ []) rest ∙ eq) t);
      }

  received-Inv :
      (s : Stream) (ev : Event) (rest : List Event)
      → w.place ≡ waiting
      → get_elem? l.job.streams k ≡ some s
      → s.buf ≡ ev ∷ rest
      → Inv cap k (record l { job = receive_at k l.job }) (write ev waiting w.frames)
  received-Inv s ev rest at there b =
      let (tail, whole) = log_at s there in
      let written = waiting-Written s there at in
      let p : Past = record { cap = s.cap; backlog = s.backlog; taken = s.taken ++ ev ∷ [] } in
      rw (← receive_there k l.job there) (record {
        channel = p;
        found =
            get_elem?-map-past (set l.job.streams k (receive s)) k
              (get_elem?-set_self l.job.streams k (receive s) (get_elem?-lt l.job.streams k there))
            ∙ ap some (past-receive s b);
        sized = ap (λ (q : Past). q.cap) (past_at s there) ∙ h.sized;
        holds =
            write-Holds p l.job ev (rest ++ tail) (Reach-LogLaw r) written
              (sym (append_assoc (s.backlog ++ s.taken) (ev ∷ rest) tail)
                ∙ ap (λ q. ((s.backlog ++ s.taken) ++ q) ++ tail) (sym b)
                ∙ ap (λ q. q ++ tail) (append_assoc s.backlog s.taken s.buf)
                ∙ whole)
              (λ written'. at_wait (rw (← append_assoc s.backlog s.taken (ev ∷ [])) written'));
      })

  closed-Told :
      (s : Stream)
      → s.buf ≡ []
      → s.closed ≡ true
      → Written (s.backlog ++ s.taken) w.frames
      → Delivered l.job.events l.job.subscribers l.job.completed k s
      → Told l.job.events l.job.completed (ended stream_closed) (w.frames ++ closed_frame ∷ [])
  closed-Told s b c written (following _ o _ _) = absurd (cc)
  closed-Told s b c written (finished _ _ d eq) =
      absurd (none_missed l.job s (Reach-LogLaw r) d b eq written)
  closed-Told s b c written (overrun _ _ _ ev missing eq) =
      cut_short (s.backlog ++ s.taken) ev missing written refl (
        ap (λ q. (s.backlog ++ q) ++ ev ∷ missing)
          (sym (append-nil s.taken) ∙ ap (λ q. s.taken ++ q) (sym b))
        ∙ eq)

  closed-Inv :
      (s : Stream)
      → w.place ≡ waiting
      → get_elem? l.job.streams k ≡ some s
      → s.buf ≡ []
      → s.closed ≡ true
      → Inv cap k l (record { place = ended stream_closed; frames = w.frames ++ closed_frame ∷ [] })
  closed-Inv s at there b c = record {
    channel = h.channel;
    found = h.found;
    sized = h.sized;
    holds = at_end (closed-Told s b c (waiting-Written s there at) (Reach-Delivered r k s there));
  }

  pub Turn-Inv : {l' : Life} {w' : Watcher} → Turn k l l' w w' → Inv cap k l' w'
  Turn-Inv (replayed_all at same same') = rw (same, same') at (replayed_all-Inv at)
  Turn-Inv (replayed ev rest at same same') = rw (same, same') at (replayed-Inv ev rest at)
  Turn-Inv (received s ev rest at there b same same') =
      rw (same, same') at (received-Inv s ev rest at there b)
  Turn-Inv (found_closed s at there b c same same') =
      rw (same, same') at (closed-Inv s at there b c)

  pub leaving-Inv : w.place ≡ waiting → Inv cap k l (record w { place = ended disconnected })
  leaving-Inv at =
      let (s, there, same) = find_stream l.job.streams k h.found in
      let (tail, whole) = log_at s there in
      record {
        channel = h.channel;
        found = h.found;
        sized = h.sized;
        holds = at_end (
            underway (s.backlog ++ s.taken) (s.buf ++ tail) (waiting-Written s there at)
              (rest_of_log (s.backlog ++ s.taken) [] s.buf tail (append-nil (s.backlog ++ s.taken))
                (ap (λ q. q ++ tail) (append_assoc s.backlog s.taken s.buf) ∙ whole))
              (cc) (cc));
      }

  pub Inv-Told : (p : Place) → w.place ≡ p → Told l.job.events l.job.completed p w.frames
  Inv-Told (replaying rest) at =
      let (events, written, eq, t) = replaying-Holds (rw at at h.holds) in
      let (s, there, same) = find_stream l.job.streams k h.found in
      let (tail, whole) = log_at s there in
      underway events (rest ++ ((s.taken ++ s.buf) ++ tail)) written
        (rest_of_log events rest (s.taken ++ s.buf) tail
          (eq ∙ ap (λ (p : Past). p.backlog) (sym same)) whole)
        (cc) (cc)
  Inv-Told waiting at =
      let (s, there, same) = find_stream l.job.streams k h.found in
      let (tail, whole) = log_at s there in
      underway (s.backlog ++ s.taken) (s.buf ++ tail) (waiting-Written s there at)
        (rest_of_log (s.backlog ++ s.taken) [] s.buf tail (append-nil (s.backlog ++ s.taken))
          (ap (λ q. q ++ tail) (append_assoc s.backlog s.taken s.buf) ∙ whole))
        (cc) (cc)
  Inv-Told (ended e) at = ended-Holds (rw at at h.holds)
