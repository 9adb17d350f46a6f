-- ===== src/Download/Watching/Turns.antt =====
-- What a turn of the handler can be; each is a step of the goroutines around the job, or none.
use research_monitor.Base.{
  ℕ, ◌≡◌, refl, inl, inr, Bool, true, false, String, List, [], ◌∷◌, ◌++◌, some, get_elem?,
  Option-cases, arith,
}
use research_monitor.Download.Types.{Request, Event}
use research_monitor.Download.Stream.{Stream}
use research_monitor.Download.Worker.{Life}
use research_monitor.Download.Life.{work, subscribe, read, Reach, next, receive_at}
use research_monitor.Download.Watching.{
  closed_frame, from_channel, stream_closed, Place, replaying, waiting, ended, Watcher, write,
  turn_at, turn, Watch, open_at, worker, newcomer, other_client, turned, leaving,
}

-- What a turn can be.
pub data Turn (k : ℕ) (l l' : Life) (w w' : Watcher) : Type 0 where
  replayed_all :
      w.place ≡ replaying []
      → l ≡ l'
      → record { place = waiting; frames = w.frames } ≡ w'
      → Turn k l l' w w'
  replayed :
      (ev : Event) (rest : List Event)
      → w.place ≡ replaying (ev ∷ rest)
      → l ≡ l'
      → write ev (replaying rest) w.frames ≡ w'
      → Turn k l l' w w'
  received :
      (s : Stream) (ev : Event) (rest : List Event)
      → w.place ≡ waiting
      → get_elem? l.job.streams k ≡ some s
      → s.buf ≡ ev ∷ rest
      → record l { job = receive_at k l.job } ≡ l'
      → write ev waiting w.frames ≡ w'
      → Turn k l l' w w'
  found_closed :
      (s : Stream)
      → w.place ≡ waiting
      → get_elem? l.job.streams k ≡ some s
      → s.buf ≡ []
      → s.closed ≡ true
      → l ≡ l'
      → record { place = ended stream_closed; frames = w.frames ++ closed_frame ∷ [] } ≡ w'
      → Turn k l l' w w'

module _ (k : ℕ) (l : Life) (w : Watcher) {l' : Life} {w' : Watcher} where
  from_channel-Turn :
      (s : Stream) (closed : Bool) (buf : List Event)
      → w.place ≡ waiting
      → get_elem? l.job.streams k ≡ some s
      → s.closed ≡ closed
      → s.buf ≡ buf
      → from_channel k l w.frames closed buf ≡ some (l', w')
      → Turn k l l' w w'
  from_channel-Turn s closed (ev ∷ rest) at found c b h =
      received s ev rest at found b (ground arith) (ground arith)
  from_channel-Turn s true [] at found c b h =
      found_closed s at found b c (ground arith) (ground arith)
  from_channel-Turn s false [] at found c b h = absurd (ground arith)

  turn_at-Turn :
      (p : Place) → w.place ≡ p → turn_at k l p w.frames ≡ some (l', w') → Turn k l l' w w'
  unfolding turn_at
  turn_at-Turn (replaying []) at h = replayed_all at (ground arith) (ground arith)
  turn_at-Turn (replaying (ev ∷ rest)) at h = replayed ev rest at (ground arith) (ground arith)
  turn_at-Turn waiting at h = elim (Option-cases (get_elem? l.job.streams k)) [
    | inl missing ↦ absurd (ground arith)
    | inr (s, found) ↦ from_channel-Turn s s.closed s.buf at found refl refl (rw found at h)
  ]
  turn_at-Turn (ended e) at h = absurd (ground arith)

  pub turn-Turn : turn k l w ≡ some (l', w') → Turn k l l' w w'
  unfolding turn
  turn-Turn h = turn_at-Turn w.place refl h

module _ {cap : ℕ} {id : String} {rs : List Request} where
  Turn-Reach :
      {k : ℕ} {l l' : Life} {w w' : Watcher}
      → Reach cap id rs l
      → Turn k l l' w w'
      → Reach cap id rs l'
  Turn-Reach r (replayed_all _ same _) = rw same at r
  Turn-Reach r (replayed _ _ _ same _) = rw same at r
  Turn-Reach {k} {l} r (received _ _ _ _ _ _ same _) = rw same at (next r (read l k))
  Turn-Reach r (found_closed _ _ _ _ _ same _) = rw same at r

  pub Watch-Reach : {k : ℕ} {l : Life} {w : Watcher} → Watch cap id rs k l w → Reach cap id rs l
  Watch-Reach (open_at {l} r e) = next r (subscribe l)
  Watch-Reach (worker ensure now h run) = next (Watch-Reach h) (work ensure now run)
  Watch-Reach (newcomer {l} h) = next (Watch-Reach h) (subscribe l)
  Watch-Reach (other_client {l} j ne h) = next (Watch-Reach h) (read l j)
  Watch-Reach {k} (turned {l} {l'} {w} h e) = Turn-Reach (Watch-Reach h) (turn-Turn k l w e)
  Watch-Reach (leaving h e) = Watch-Reach h
