-- ===== src/Download/Watching/Ending.antt =====
-- The handler ends behind the worker.
use research_monitor.Base.{
  ℕ, zero, suc, ◌+◌, ◌≤◌, ◌<◌, ◌≡◌, ◌≢◌, refl, ap, ◌∙◌, inl, inr, Bool, true, false, String, List,
  [], ◌∷◌, ◌++◌, some, length, length-append, get_elem?, get_elem?-lt, get_elem?-set_self,
  Bool-cases, arith,
}
use research_monitor.Download.Types.{Request, Event}
use research_monitor.Download.Stream.{Stream, seen, receive}
use research_monitor.Download.Worker.{Life, returned}
use research_monitor.Download.Life.{Reach, receive_at}
use research_monitor.Download.Delivery.{Delivered, following, finished, overrun}
use research_monitor.Download.Progress.{Ended}
use research_monitor.Download.Reachable.{Reach-Lives}
use research_monitor.Download.Laws.{Reach-Delivered}
use research_monitor.Download.Watching.{
  Frame, is_summary, closed_frame, End, stream_closed, Place, replaying, waiting, ended, Watcher,
  write, turn_at, turn, Watch, turned, turns,
}
use research_monitor.Download.Watching.Turns.{Watch-Reach}
use research_monitor.Download.Watching.Pasts.{Past}
use research_monitor.Download.Watching.Holding.{
  Holds, at_replay, at_wait, at_end, find_stream, prefix, receive_there,
}
use research_monitor.Download.Watching.Streaming.{Watch-Inv}

-- How many turns the handler has left.
abbrev left : Place → ℕ → ℕ
left (replaying rest) buffered = length rest + buffered + 2
left waiting buffered = buffered + 1
left (ended e) buffered = 0

left-write :
    (ev : Event) (onward : Place) (frames : List Frame) (buffered : ℕ)
    → left (write ev onward frames).place buffered ≤ left onward buffered
unfolding write
left-write ev onward frames buffered = elim (Bool-cases (is_summary ev)) [
  | inl t ↦ rw t (omega arith)
  | inr t ↦ rw t (omega arith)
]

-- A turn that brings the handler nearer to its end.
record Advance (k : ℕ) (l : Life) (w : Watcher) (m : ℕ) : Type 0 where
  life : Life
  watcher : Watcher
  run : turn k l w ≡ some (life, watcher)
  stream : Stream
  there : get_elem? life.job.streams k ≡ some stream
  nearer : left watcher.place (length stream.buf) < m
  same_events : life.job.events ≡ l.job.events
  same_counter : life.counter ≡ l.counter

receive-buf :
    (s : Stream) {ev : Event} {rest : List Event} → s.buf ≡ ev ∷ rest → (receive s).buf ≡ rest
unfolding receive
receive-buf s b = rw b refl

module _ (k : ℕ) (l : Life) (w : Watcher) (s : Stream)
    (there : get_elem? l.job.streams k ≡ some s) where
  advance-waiting :
      (closed : Bool) (buf : List Event)
      → w.place ≡ waiting
      → s.closed ≡ closed
      → s.buf ≡ buf
      → closed ≡ true
      → Advance k l w (length buf + 1)
  unfolding turn turn_at
  advance-waiting closed (ev ∷ rest) at c b shut = record {
    life = record l { job = receive_at k l.job };
    watcher = write ev waiting w.frames;
    run = rw (at, there, b) refl;
    stream = receive s;
    there =
        rw (← receive_there k l.job there)
          (get_elem?-set_self l.job.streams k (receive s) (get_elem?-lt l.job.streams k there));
    nearer = omega (
      arith,
      left-write ev waiting w.frames (length (receive s).buf),
      ap length (receive-buf s b),
    );
    same_events = rw (← receive_there k l.job there) refl;
    same_counter = refl;
  }
  advance-waiting true [] at c b shut = record {
    life = l;
    watcher = record { place = ended stream_closed; frames = w.frames ++ closed_frame ∷ [] };
    run = rw (at, there, b, c) refl;
    stream = s;
    there = there;
    nearer = omega arith;
    same_events = refl;
    same_counter = refl;
  }
  advance-waiting false [] at c b shut = absurd (cc)

  advance :
      (p : Place)
      → w.place ≡ p
      → ((e : End) → p ≢ ended e)
      → s.closed ≡ true
      → Advance k l w (left p (length s.buf))
  unfolding turn turn_at
  advance (replaying []) at going shut = record {
    life = l;
    watcher = record { place = waiting; frames = w.frames };
    run = rw at refl;
    stream = s;
    there = there;
    nearer = omega arith;
    same_events = refl;
    same_counter = refl;
  }
  advance (replaying (ev ∷ rest)) at going shut = record {
    life = l;
    watcher = write ev (replaying rest) w.frames;
    run = rw at refl;
    stream = s;
    there = there;
    nearer = omega (arith, left-write ev (replaying rest) w.frames (length s.buf));
    same_events = refl;
    same_counter = refl;
  }
  advance waiting at going shut = advance-waiting s.closed s.buf at refl refl shut
  advance (ended e) at going shut = absurd (going e refl)

-- Behind the worker, the channel is closed.
closed_behind :
    {cap : ℕ} {id : String} {rs : List Request} {l : Life} (k : ℕ)
    → Reach cap id rs l
    → l.counter ≡ returned
    → (s : Stream) → get_elem? l.job.streams k ≡ some s
    → s.closed ≡ true
closed_behind {l = l} k r back s there = closed_of (Reach-Delivered r k s there)
  where
    done : l.job.completed ≡ true
    done = let p : Ended l.job = rw back at (Reach-Lives r).progress in p.finished

    closed_of : Delivered l.job.events l.job.subscribers l.job.completed k s → s.closed ≡ true
    closed_of (following _ _ d _) = absurd (ground (arith, done))
    closed_of (finished _ c _ _) = c
    closed_of (overrun _ c _ _ _ _) = c

-- The handler has returned, and the log is as it was.
pub record Ends (cap : ℕ) (id : String) (rs : List Request) (k : ℕ) (l l' : Life) (w' : Watcher)
    : Type 0 where
  pub end : End
  pub at_its_end : w'.place ≡ ended end
  pub same_log : l'.job.events ≡ l.job.events
  pub still : Watch cap id rs k l' w'

turns-ended :
    (n k : ℕ) {l : Life} {w : Watcher} (e : End) → w.place ≡ ended e → turns n k l w ≡ (l, w)
unfolding turns turn turn_at
turns-ended zero k e at = refl
turns-ended (suc n) k e at = rw at refl

turns-suc :
    (n k : ℕ) (l : Life) (w : Watcher) {l' : Life} {w' : Watcher}
    → turn k l w ≡ some (l', w')
    → turns (suc n) k l w ≡ turns n k l' w'
unfolding turns
turns-suc n k l w run = rw (run, turns) refl

abbrev EndsAt : (cap : ℕ) (id : String) (rs : List Request) (k : ℕ) → Life → Life × Watcher → Type 0
EndsAt cap id rs k l (l', w') = Ends cap id rs k l l' w'

module _ {cap : ℕ} {id : String} {rs : List Request} (k : ℕ) where
  Advance-Ends :
      (n : ℕ) {l : Life} {w : Watcher} {m : ℕ} (a : Advance k l w m)
      → EndsAt cap id rs k a.life (turns n k a.life a.watcher)
      → EndsAt cap id rs k l (turns (suc n) k l w)
  Advance-Ends n {l} {w} a h = rw (turns-suc n k l w a.run) (record {
    end = h.end;
    at_its_end = h.at_its_end;
    same_log = h.same_log ∙ a.same_events;
    still = h.still;
  })

  turns-Ends :
      (n : ℕ) {l : Life} {w : Watcher} (p : Place) (s : Stream)
      → Watch cap id rs k l w
      → l.counter ≡ returned
      → w.place ≡ p
      → get_elem? l.job.streams k ≡ some s
      → left p (length s.buf) ≤ n
      → EndsAt cap id rs k l (turns n k l w)
  turns-Ends n {l} {w} (ended e) s h back at there b =
      rw (turns-ended n k {l = l} {w = w} e at)
        (record { end = e; at_its_end = at; same_log = refl; still = h })
  turns-Ends zero (replaying rest) s h back at there b = absurd (omega arith)
  turns-Ends zero waiting s h back at there b = absurd (omega arith)
  turns-Ends (suc n) {l} {w} (replaying rest) s h back at there b =
      let a =
        advance k l w s there (replaying rest) at (λ e. cc)
          (closed_behind k (Watch-Reach h) back s there) in
      Advance-Ends n a (
        turns-Ends n a.watcher.place a.stream (turned h a.run) (a.same_counter ∙ back) refl a.there
          (omega (arith, a.nearer)))
  turns-Ends (suc n) {l} {w} waiting s h back at there b =
      let a =
        advance k l w s there waiting at (λ e. cc) (closed_behind k (Watch-Reach h) back s there) in
      Advance-Ends n a (
        turns-Ends n a.watcher.place a.stream (turned h a.run) (a.same_counter ∙ back) refl a.there
          (omega (arith, a.nearer)))

left-le :
    {p : Past} {log : List Event} {done : Bool} {at : Place} {frames : List Frame} (buffered : ℕ)
    → Holds p log done at frames
    → left at buffered ≤ length p.backlog + buffered + 2
left-le buffered (at_replay {rest} events h eq t) =
    omega (arith, ap length eq, length-append events rest)
left-le buffered (at_wait h) = omega arith
left-le buffered (at_end t) = omega arith

module _ {cap : ℕ} {id : String} {rs : List Request} {k : ℕ} {l : Life} {w : Watcher}
    (h : Watch cap id rs k l w) (back : l.counter ≡ returned) where
  -- Once the worker has returned, the handler returns within two turns more than the log has
  -- events, in whatever state it is and whatever the channel holds, if no other goroutine runs.
  pub stream_ends : EndsAt cap id rs k l (turns (length l.job.events + 2) k l w)
  stream_ends =
      let inv = Watch-Inv h in
      let (s, there, same) = find_stream l.job.streams k inv.found in
      let (tail, whole) = prefix (Reach-Delivered (Watch-Reach h) k s there) in
      turns-Ends k (length l.job.events + 2) w.place s h back refl there (
        omega (
          arith,
          left-le (length s.buf) inv.holds,
          ap (λ (p : Past). length p.backlog) same,
          ap length whole,
          length-append (seen s) tail,
          length-append s.backlog (s.taken ++ s.buf),
          length-append s.taken s.buf,
        ))
