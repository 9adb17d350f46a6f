-- ===== src/Examples/Downloads.antt =====
-- The download workflow, applied to two requests and two clients, one of which never reads.
use research_monitor.Base.{
  ℕ, zero, suc, ◌≤◌, ◌⊎◌, ◌<◌, ◌≡◌, ◌+◌, refl, List, [], ◌∷◌, ◌++◌, Option, none, some, map,
  get_elem?, length, true, false, arith, str_eq, if◌then◌else◌, Option-cases, inl, inr,
}
use mathlib.Core.Path.{subst}
use mathlib.Core.Option.{some-injective}
use research_monitor.Text.{codes}
use research_monitor.Pdf.Key.{Key, fetch_failed}
use research_monitor.Download.Types.{Request, progress, summary}
use research_monitor.Download.Stream.{Stream, seen, offer, receive, close_stream}
use research_monitor.Download.Job.{
  append_and_fan_out, pending_entries, fan_out, fan_out_loop, finish_job, close_all, new_job,
  snapshot_for_job, attach,
}
use research_monitor.Download.Sanitize.{redact, sanitize}
use research_monitor.Download.Description.{Cut, sanitize-Cut}
use research_monitor.Download.Worker.{
  Ensured, located, refused, Life, launch, returned, worker_step,
}
use research_monitor.Download.Life.{
  work, subscribe, read, Reach, here, next, move, receive_at, Move, section, client, receipt, drive,
}
use research_monitor.Download.Delivery.{Delivered}
use research_monitor.Download.Progress.{entry_ids, request_ids}
use research_monitor.Download.Laws.{
  exactly_once, ample_buffer, worker_safe, final_log, worker_returns,
}

abbrev pub requests : List Request
requests =
    record {
      paper_id = record { source = "arxiv"; source_id = "1"; version = "v1" };
      pdf_url = "http://x/1";
    }
    ∷ record {
      paper_id = record { source = "arxiv"; source_id = "2"; version = "v1" };
      pdf_url = "http://x/2";
    }
    ∷ []

-- The first paper is found, the second is not.
abbrev pub store : Key → Ensured
store k =
    if str_eq k.url "http://x/1"
    then located (some 9)
    else refused (record { wraps = fetch_failed ∷ []; text = codes "404" })

abbrev moves : List Move
moves =
    client
    ∷ section store 5
    ∷ client
    ∷ section store 6
    ∷ receipt 0
    ∷ section store 7
    ∷ section store 8
    ∷ []

worker_returns_example :
    (l : Life) × (drive 1 moves (launch (new_job "j" requests)) ≡ some l)
    × (l.counter ≡ returned)
    × Reach 1 "j" requests l
worker_returns_example = worker_returns 1 "j" requests moves (omega arith)

drive-Reach :
    (cap : ℕ) (ms : List Move) {l l' : Life}
    → Reach cap "j" requests l
    → drive cap ms l ≡ some l'
    → Reach cap "j" requests l'
unfolding drive move
drive-Reach cap [] r h = subst (Reach cap "j" requests) (some-injective _ _ h) r
drive-Reach cap (section ensure now ∷ ms) {l} r h = elim (Option-cases (worker_step ensure now l)) [
  | inl panics ↦ absurd (ground arith)
  | inr (l1, run) ↦ drive-Reach cap ms (next r (work ensure now run)) (ground arith)
]
drive-Reach cap (client ∷ ms) {l} r h = drive-Reach cap ms (next r (subscribe l)) h
drive-Reach cap (receipt k ∷ ms) {l} r h = drive-Reach cap ms (next r (read l k)) h

-- The end of this schedule, by the buffer's size, and the channel of the first client there.
abbrev pub reached : Option Life → Life
reached none = launch (new_job "j" requests)
reached (some l) = l

abbrev ended : ℕ → Life
ended cap = reached (drive cap moves (launch (new_job "j" requests)))

abbrev stream_of : Option Stream → Stream
stream_of none = record { cap = 0; backlog = []; taken = []; buf = []; closed = false }
stream_of (some s) = s

abbrev first_stream : ℕ → Stream
first_stream cap = stream_of (get_elem? (ended cap).job.streams 0)

ran : drive 1 moves (launch (new_job "j" requests)) ≡ some (ended 1)
unfolding drive move worker_step attach new_job append_and_fan_out pending_entries fan_out
    fan_out_loop offer receive_at receive finish_job close_all close_stream
ran = refl

ran_ample : drive 3 moves (launch (new_job "j" requests)) ≡ some (ended 3)
unfolding drive move worker_step attach new_job append_and_fan_out pending_entries fan_out
    fan_out_loop offer receive_at receive finish_job close_all close_stream
ran_ample = refl

ended_returned : (ended 1).counter ≡ returned
unfolding drive move worker_step attach new_job append_and_fan_out pending_entries fan_out
    fan_out_loop offer receive_at receive finish_job close_all close_stream
ended_returned = refl

slow_there : get_elem? (ended 1).job.streams 0 ≡ some (first_stream 1)
unfolding drive move worker_step attach new_job append_and_fan_out pending_entries fan_out
    fan_out_loop offer receive_at receive finish_job close_all close_stream
slow_there = refl

ample_there : get_elem? (ended 3).job.streams 0 ≡ some (first_stream 3)
unfolding drive move worker_step attach new_job append_and_fan_out pending_entries fan_out
    fan_out_loop offer receive_at receive finish_job close_all close_stream
ample_there = refl

ample_room : length requests < (first_stream 3).cap
unfolding drive move worker_step attach new_job append_and_fan_out pending_entries fan_out
    fan_out_loop offer receive_at receive finish_job close_all close_stream
ample_room = omega arith

-- The first client has subscribed and the worker has started; then it settles the first entry.
abbrev started : List Move
started = client ∷ section store 5 ∷ []

abbrev started_life : Life
started_life = reached (drive 1 started (launch (new_job "j" requests)))

abbrev settled_life : Life
settled_life = reached (worker_step store 6 started_life)

abbrev started_stream : Stream
started_stream = stream_of (get_elem? started_life.job.streams 0)

abbrev settled_stream : Stream
settled_stream = stream_of (get_elem? settled_life.job.streams 0)

has_started : drive 1 started (launch (new_job "j" requests)) ≡ some started_life
unfolding drive move worker_step attach new_job append_and_fan_out pending_entries fan_out
    fan_out_loop offer receive_at receive finish_job close_all close_stream
has_started = refl

started_there : get_elem? started_life.job.streams 0 ≡ some started_stream
unfolding drive move worker_step attach new_job append_and_fan_out pending_entries fan_out
    fan_out_loop offer receive_at receive finish_job close_all close_stream
started_there = refl

has_settled : worker_step store 6 started_life ≡ some settled_life
unfolding drive move worker_step attach new_job append_and_fan_out pending_entries fan_out
    fan_out_loop offer receive_at receive finish_job close_all close_stream
has_settled = refl

settled_there : get_elem? settled_life.job.streams 0 ≡ some settled_stream
unfolding drive move worker_step attach new_job append_and_fan_out pending_entries fan_out
    fan_out_loop offer receive_at receive finish_job close_all close_stream
settled_there = refl

exactly_once_example :
    Delivered started_life.job.events started_life.job.subscribers started_life.job.completed 0
      started_stream
    × ((started_stream.closed ≡ true)
        ⊎ ((started_stream.cap ≤ length started_stream.buf)
            ⊎ (seen settled_stream ≡ settled_life.job.events)))
exactly_once_example =
    exactly_once (drive-Reach 1 started here has_started) 0 started_stream settled_stream store 6
      started_there has_settled settled_there

ample_buffer_example :
    (seen (first_stream 3) ≡ (ended 3).job.events)
    × ((first_stream 3).closed ≡ (ended 3).job.completed)
ample_buffer_example =
    ample_buffer (drive-Reach 3 moves here ran_ample) 0 (first_stream 3) ample_there ample_room

worker_safe_example : (l' : Life) × (worker_step store 4 (launch (new_job "j" requests)) ≡ some l')
worker_safe_example = worker_safe {cap = 1} {id = "j"} {rs = requests} here store 4

final_log_example :
    let l = ended 1 in
    let snap = snapshot_for_job l.job in
    (l.job.events ≡ map (progress "j") l.job.entries ++ summary "j" snap ∷ [])
    × (entry_ids l.job.entries ≡ request_ids requests)
    × (snap.completed ≡ true)
    × (snap.succeeded + snap.failures ≡ length requests)
    × (snap.total ≡ length requests)
final_log_example = final_log (drive-Reach 1 moves here ran) ended_returned

-- 300 bytes of two-byte runes behind one letter: the cut falls inside a rune.
abbrev long_text : ℕ → List ℕ
long_text zero = []
long_text (suc n) = 0xc3 ∷ (0xa9 ∷ long_text n)

sanitize-Cut_example : Cut (redact (b'x' ∷ long_text 150)) (sanitize (b'x' ∷ long_text 150))
sanitize-Cut_example = sanitize-Cut (b'x' ∷ long_text 150)
