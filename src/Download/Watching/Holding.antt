-- ===== src/Download/Watching/Holding.antt =====
-- What holds between two turns of the handler, and that the other goroutines leave it so.
use mathlib.Core.List.{append_assoc, append-nil, map-append}
use research_monitor.Base.{
  ℕ, zero, suc, ◌≡◌, refl, sym, ap, ◌∙◌, inl, inr, Bool, true, false, List, [], ◌∷◌, ◌++◌, some,
  map, get_elem?, set, Bool-cases, arith,
}
use research_monitor.Download.Types.{Event}
use research_monitor.Download.Stream.{Stream, seen, receive}
use research_monitor.Download.Job.{Job}
use research_monitor.Download.Worker.{Life}
use research_monitor.Download.Life.{receive_at}
use research_monitor.Download.Delivery.{Delivered, following, finished, overrun}
use research_monitor.Download.Watching.{
  Frame, frame_of, is_summary, End, Place, replaying, waiting, ended, Watcher, write,
}
use research_monitor.Download.Watching.Pasts.{Past, past}
use research_monitor.Download.Watching.Unmoved.{Unmoved}
use research_monitor.Download.Watching.Told.{
  LogLaw, last_event, any-append, Written, Told, underway, complete, cut_short,
}

-- What a turn keeps true, by what the other goroutines leave alone.
pub data Holds (p : Past) (log : List Event) (done : Bool) : Place → List Frame → Type 0 where
  at_replay :
      {rest : List Event} {frames : List Frame} (events : List Event)
      → Written events frames
      → events ++ rest ≡ p.backlog
      → p.taken ≡ []
      → Holds p log done (replaying rest) frames
  at_wait :
      {frames : List Frame}
      → Written (p.backlog ++ p.taken) frames
      → Holds p log done waiting frames
  at_end :
      {e : End} {frames : List Frame}
      → Told log done (ended e) frames
      → Holds p log done (ended e) frames

pub record Inv (cap k : ℕ) (l : Life) (w : Watcher) : Type 0 where
  pub channel : Past
  pub found : get_elem? (map past l.job.streams) k ≡ some channel
  pub sized : channel.cap ≡ cap
  pub holds : Holds channel l.job.events l.job.completed w.place w.frames

Told-grows :
    {log : List Event} {done done' : Bool} (more : List Event) {e : End} {frames : List Frame}
    → (done ≡ true → (done' ≡ true) × (more ≡ []))
    → Told log done (ended e) frames
    → Told (log ++ more) done' (ended e) frames
Told-grows {log} more f (underway events rest h eq n m) =
    underway events (rest ++ more) h (sym (append_assoc events rest more) ∙ ap (λ q. q ++ more) eq)
      n m
Told-grows {log} more f (complete eq d) =
    let (d', none_more) = f d in complete (rw (none_more, append-nil log) eq) d'
Told-grows {log} more f (cut_short events ev missing h q eq) =
    cut_short events ev (missing ++ more) h q
      (sym (append_assoc events (ev ∷ missing) more) ∙ ap (λ q'. q' ++ more) eq)

Holds-grows :
    {p : Past} {log : List Event} {done done' : Bool} (more : List Event) {at : Place}
    {frames : List Frame}
    → (done ≡ true → (done' ≡ true) × (more ≡ []))
    → Holds p log done at frames
    → Holds p (log ++ more) done' at frames
Holds-grows more f (at_replay events h eq t) = at_replay events h eq t
Holds-grows more f (at_wait h) = at_wait h
Holds-grows more f (at_end h) = at_end (Told-grows more f h)

pub Inv-Unmoved :
    {cap k : ℕ} (l l' : Life) {w : Watcher}
    → Inv cap k l w
    → Unmoved k l.job l'.job
    → Inv cap k l' w
Inv-Unmoved l l' h u = record {
  channel = h.channel;
  found = u.stays h.channel h.found;
  sized = h.sized;
  holds = rw u.grows (Holds-grows u.more u.frozen h.holds);
}

pub find_stream :
    (ss : List Stream) (k : ℕ) {p : Past}
    → get_elem? (map past ss) k ≡ some p
    → (s : Stream) × (get_elem? ss k ≡ some s) × (past s ≡ p)
find_stream [] k h = absurd (ground arith)
find_stream (s ∷ ss) zero h = (s, refl, ground arith)
find_stream (s ∷ ss) (suc k) h = find_stream ss k h

-- What a client has is a part of the log, from its start.
pub prefix :
    {evs : List Event} {subs : List ℕ} {done : Bool} {k : ℕ} {s : Stream}
    → Delivered evs subs done k s
    → (tail : List Event) × (seen s ++ tail ≡ evs)
prefix {s = s} (following m o d eq) = ([], append-nil (seen s) ∙ eq)
prefix {s = s} (finished m c d eq) = ([], append-nil (seen s) ∙ eq)
prefix (overrun m c full ev missing eq) = (ev ∷ missing, eq)

Written-next :
    (ev : Event) {events : List Event} {frames : List Frame}
    → Written events frames
    → is_summary ev ≡ false
    → Written (events ++ ev ∷ []) (frames ++ frame_of ev ∷ [])
Written-next ev {events} {frames} h t = record {
  in_frames =
      ap (λ q. q ++ frame_of ev ∷ []) h.in_frames ∙ sym (map-append frame_of events (ev ∷ []));
  unsummarised = ground (arith, any-append is_summary events (ev ∷ []), h.unsummarised);
}

Written-last :
    (ev : Event) {events log : List Event} {frames : List Frame}
    → Written events frames
    → events ++ ev ∷ [] ≡ log
    → frames ++ frame_of ev ∷ [] ≡ map frame_of log
Written-last ev {events} h eq =
    ap (λ q. q ++ frame_of ev ∷ []) h.in_frames
    ∙ sym (map-append frame_of events (ev ∷ []))
    ∙ ap (map frame_of) eq

-- One event is written: the last of a job that has completed, or one that is no summary.
pub write-Holds :
    (p : Past) (j : Job) (ev : Event) {onward : Place} {events : List Event} (tail : List Event)
    {frames : List Frame}
    → LogLaw j
    → Written events frames
    → events ++ ev ∷ tail ≡ j.events
    → (Written (events ++ ev ∷ []) (frames ++ frame_of ev ∷ [])
        → Holds p j.events j.completed onward (frames ++ frame_of ev ∷ []))
    → let w = write ev onward frames in Holds p j.events j.completed w.place w.frames
unfolding write
write-Holds p j ev {events = events} tail law h eq go = elim (Bool-cases (is_summary ev)) [
  | inl t ↦
      let (none_behind, done) = last_event j events tail ev law eq t in
      rw t (at_end (complete (Written-last ev h (rw none_behind at eq)) done))
  | inr t ↦ rw t (go (Written-next ev h t))
]

pub replaying-Holds :
    {p : Past} {log : List Event} {done : Bool} {rest : List Event} {frames : List Frame}
    → Holds p log done (replaying rest) frames
    → (events : List Event) × Written events frames × (events ++ rest ≡ p.backlog) × (p.taken ≡ [])
replaying-Holds (at_replay events h eq t) = (events, h, eq, t)

pub waiting-Holds :
    {p : Past} {log : List Event} {done : Bool} {frames : List Frame}
    → Holds p log done waiting frames
    → Written (p.backlog ++ p.taken) frames
waiting-Holds (at_wait h) = h

pub ended-Holds :
    {p : Past} {log : List Event} {done : Bool} {e : End} {frames : List Frame}
    → Holds p log done (ended e) frames
    → Told log done (ended e) frames
ended-Holds (at_end t) = t

pub receive_there :
    (k : ℕ) (j : Job) {s : Stream}
    → get_elem? j.streams k ≡ some s
    → record j { streams = set j.streams k (receive s) } ≡ receive_at k j
unfolding receive_at
receive_there k j there = rw there refl

pub past-receive :
    (s : Stream) {ev : Event} {rest : List Event}
    → s.buf ≡ ev ∷ rest
    → past (receive s) ≡ record { cap = s.cap; backlog = s.backlog; taken = s.taken ++ ev ∷ [] }
unfolding receive
past-receive s b = rw b refl

-- From the end of a part of the log to the end of the log.
pub rest_of_log :
    (front back mid tail : List Event) {begin log : List Event}
    → front ++ back ≡ begin
    → (begin ++ mid) ++ tail ≡ log
    → front ++ (back ++ (mid ++ tail)) ≡ log
rest_of_log front back mid tail {begin} e whole =
    sym (append_assoc front back (mid ++ tail))
    ∙ ap (λ q. q ++ (mid ++ tail)) e
    ∙ sym (append_assoc begin mid tail)
    ∙ whole
