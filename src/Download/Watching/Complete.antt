-- ===== src/Download/Watching/Complete.antt =====
-- A client with an ample buffer is told everything.
use research_monitor.Base.{
  ℕ, zero, suc, ◌+◌, ◌<◌, ◌≡◌, ◌≢◌, refl, sym, ap, ◌∙◌, inl, inr, Bool, String, List, map, length,
  Bool-cases, Option-cases, arith,
}
use research_monitor.Download.Types.{Request, Event}
use research_monitor.Download.Stream.{Stream}
use research_monitor.Download.Worker.{Life, returned}
use research_monitor.Download.Laws.{ample_buffer}
use research_monitor.Download.Watching.{
  Frame, frame_of, is_summary, End, summarised, stream_closed, disconnected, Place, replaying,
  waiting, ended, Watcher, write, turn, Watch, open_at, worker, newcomer, other_client, turned,
  leaving, turns,
}
use research_monitor.Download.Watching.Turns.{
  Turn, replayed_all, replayed, received, found_closed, turn-Turn, Watch-Reach,
}
use research_monitor.Download.Watching.Pasts.{Past}
use research_monitor.Download.Watching.Told.{none_missed, Reach-LogLaw, Told, underway, complete}
use research_monitor.Download.Watching.Holding.{find_stream}
use research_monitor.Download.Watching.Keeping.{waiting-Written}
use research_monitor.Download.Watching.Streaming.{Watch-Inv, stream_lem}
use research_monitor.Download.Watching.Ending.{stream_ends}

-- An end that is not behind a summary is not reached by a written event.
write-place :
    (ev : Event) (onward : Place) (frames : List Frame) (e : End)
    → e ≢ summarised
    → onward ≢ ended e
    → (write ev onward frames).place ≢ ended e
unfolding write
write-place ev onward frames e other ne = elim (Bool-cases (is_summary ev)) [
  | inl t ↦ rw t (λ q. other (cc))
  | inr t ↦ rw t ne
]

Turn-connected :
    {k : ℕ} {l l' : Life} {w w' : Watcher} → Turn k l l' w w' → w'.place ≢ ended disconnected
Turn-connected (replayed_all _ _ same) = rw (← same) (cc)
Turn-connected {w = w} (replayed ev rest _ _ same) =
    rw (← same) (write-place ev (replaying rest) w.frames disconnected (cc) (cc))
Turn-connected {w = w} (received s ev rest _ _ _ _ same) =
    rw (← same) (write-place ev waiting w.frames disconnected (cc) (cc))
Turn-connected (found_closed s _ _ _ _ _ same) = rw (← same) (cc)

turns-connected :
    (n k : ℕ) (l : Life) (w : Watcher)
    → w.place ≢ ended disconnected
    → (turns n k l w).1.place ≢ ended disconnected
unfolding turns
turns-connected zero k l w h = h
turns-connected (suc n) k l w h = elim (Option-cases (turn k l w)) [
  | inl blocked ↦ rw (blocked, turns) h
  | inr ((l', w'), run) ↦
      rw (run, turns) (turns-connected n k l' w' (Turn-connected (turn-Turn k l w run)))
]

-- With room for more events than the job has entries, the handler finds no closed channel.
complete_frames :
    {log : List Event} {done : Bool} {frames : List Frame}
    → Told log done (ended summarised) frames
    → frames ≡ map frame_of log
complete_frames (underway _ _ _ _ other _) = absurd (other refl)
complete_frames (complete eq _) = eq

module _ {cap : ℕ} {id : String} {rs : List Request} {k : ℕ} (room : length rs < cap) where
  Turn-open :
      {l l' : Life} {w w' : Watcher}
      → Watch cap id rs k l w
      → Turn k l l' w w'
      → w'.place ≢ ended stream_closed
  Turn-open h (replayed_all _ _ same) = rw (← same) (cc)
  Turn-open {w = w} h (replayed ev rest _ _ same) =
      rw (← same) (write-place ev (replaying rest) w.frames stream_closed (cc) (cc))
  Turn-open {w = w} h (received s ev rest _ _ _ _ same) =
      rw (← same) (write-place ev waiting w.frames stream_closed (cc) (cc))
  Turn-open {l} {w = w} h (found_closed s at there b c _ same) =
      let r = Watch-Reach h in
      let inv = Watch-Inv h in
      let (s', there', past_of) = find_stream l.job.streams k inv.found in
      let same_stream : s' ≡ s = ground arith in
      let big : length rs < s.cap = omega (
        arith,
        inv.sized,
        ap (λ (p : Past). p.cap) past_of,
        ap (λ (t : Stream). t.cap) same_stream,
      ) in
      let (all, shut) = ample_buffer r k s there big in
      absurd (
        none_missed l.job s (Reach-LogLaw r) (sym shut ∙ c) b all
          (waiting-Written k r inv s there at))

  never_closed : {l : Life} {w : Watcher} → Watch cap id rs k l w → w.place ≢ ended stream_closed
  never_closed (open_at r e) = cc
  never_closed (worker ensure now h run) = never_closed h
  never_closed (newcomer h) = never_closed h
  never_closed (other_client j ne h) = never_closed h
  never_closed (turned {l} {l'} {w} h e) = Turn-open h (turn-Turn k l w e)
  never_closed (leaving h e) = cc

  all_told :
      {l : Life} {w : Watcher} (e : End)
      → Watch cap id rs k l w
      → w.place ≡ ended e
      → w.place ≢ ended disconnected
      → (w.place ≡ ended summarised) × (w.frames ≡ map frame_of l.job.events)
  all_told summarised h at connected = (at, complete_frames (rw at at (stream_lem h)))
  all_told stream_closed h at connected = absurd (never_closed h at)
  all_told disconnected h at connected = absurd (connected at)

  -- A client of a channel with room for more events than the job has entries is told the whole log:
  -- once the worker has returned, and if the client has not gone, the next turns of the handler, two
  -- more than the log has events, bring it to its end behind the summary, with the frames of all
  -- events of the log and no others.
  pub stream_complete :
      {l : Life} {w : Watcher}
      → Watch cap id rs k l w
      → l.counter ≡ returned
      → w.place ≢ ended disconnected
      → ((turns (length l.job.events + 2) k l w).1.place ≡ ended summarised)
        × ((turns (length l.job.events + 2) k l w).1.frames ≡ map frame_of l.job.events)
  stream_complete {l} {w} h back connected =
      let e = stream_ends h back in
      let (behind_summary, frames) =
        all_told e.end e.still e.at_its_end
          (turns-connected (length l.job.events + 2) k l w connected) in
      (behind_summary, frames ∙ ap (map frame_of) e.same_log)
