-- ===== src/Download/Stream.antt =====
-- What one call of `Subscribe` returns, with the Go channel behind it: the backlog, the live
-- channel's buffer and its closed flag, and what the client has received from the channel so far.
-- A buffered channel is a queue of at most `cap` events. A send into a closed channel and a second
-- close panic. `cap` is positive in the program (the environment refuses a smaller value), so a
-- send that finds a waiting receiver is a send into the buffer that is received at once.
use research_monitor.Base.{
  ℕ, Bool, true, false, List, [], ◌∷◌, ◌++◌, Option, none, some, ltb, length, if◌then◌else◌,
}
use research_monitor.Download.Types.{Event}

pub record Stream : Type 0 where
  pub cap : ℕ
  pub backlog : List Event
  pub taken : List Event
  pub buf : List Event
  pub closed : Bool

-- Every event that the client has, or will have once it reads what is buffered.
abbrev pub seen : Stream → List Event
seen s = s.backlog ++ (s.taken ++ s.buf)

abbrev pub has_room : Stream → Bool
has_room s = ltb (length s.buf) s.cap

abbrev pub push : Event → Stream → Stream
push ev s = record s { buf = s.buf ++ ev ∷ [] }

abbrev pub shut : Stream → Stream
shut s = record s { closed = true }

-- `close(ch)`; `none` is a panic.
unfoldable pub close_stream : Stream → Option Stream
close_stream s = if s.closed then none else some (shut s)

-- `select { case ch <- ev: … default: close(ch) }`, with whether the event was sent.
unfoldable pub offer : Event → Stream → Option (Stream × Bool)
offer ev s =
    if s.closed then none else if has_room s then some (push ev s, true) else some (shut s, false)

abbrev pub take_head : Stream → List Event → Stream
take_head s [] = s
take_head s (ev ∷ rest) = record s { taken = s.taken ++ ev ∷ []; buf = rest }

-- The client receives the event at the head of the buffer, if there is one.
unfoldable pub receive : Stream → Stream
receive s = take_head s s.buf
