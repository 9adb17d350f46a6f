-- ===== src/Download/Watching/Pasts.antt =====
-- The past of a channel: its size, its backlog, and what its client has received. A section of the
-- worker leaves the pasts of all channels as they are.
use research_monitor.Base.{
  ℕ, zero, suc, ◌≡◌, ◌≢◌, refl, ap, ◌∙◌, inl, inr, Bool, true, List, [], ◌∷◌, ◌++◌, some, map,
  map-set, get_elem?, set, Option-cases, arith,
}
use research_monitor.Download.Types.{EntryResult, JobSnapshot, Event, progress, summary}
use research_monitor.Download.Stream.{Stream, offer, close_stream}
use research_monitor.Download.Job.{
  Job, Fan, fan_out_loop, fan_out, append_and_fan_out, close_all, finish_job, build_snapshot,
}
use research_monitor.Download.Progress.{get_elem?-map}

pub record Past : Type 0 where
  pub cap : ℕ
  pub backlog : List Event
  pub taken : List Event

abbrev pub past : Stream → Past
past s = record { cap = s.cap; backlog = s.backlog; taken = s.taken }

offer-past :
    (ev : Event) (s : Stream) {s' : Stream} {sent : Bool}
    → offer ev s ≡ some (s', sent)
    → past s' ≡ past s
unfolding offer
offer-past ev s h = ground arith

close_stream-past : (s : Stream) {s' : Stream} → close_stream s ≡ some s' → past s' ≡ past s
unfolding close_stream
close_stream-past s h = ground arith

fan_out_loop-past :
    (ev : Event) (ks : List ℕ) (ss : List Stream) {fan : Fan}
    → fan_out_loop ev ks ss ≡ some fan
    → map past fan.streams ≡ map past ss
unfolding fan_out_loop
fan_out_loop-past ev [] ss h = ground arith
fan_out_loop-past ev (k ∷ ks) ss {fan} h = elim (Option-cases (get_elem? ss k)) [
  | inl missing ↦ absurd (ground arith)
  | inr (s, found) ↦ elim (Option-cases (offer ev s)) [
    | inl panics ↦ absurd (ground arith)
    | inr ((s', sent), made) ↦ elim (Option-cases (fan_out_loop ev ks (set ss k s'))) [
      | inl panics ↦ absurd (ground arith)
      | inr (rest, run) ↦
          let same : fan.streams ≡ rest.streams = ground arith in
          ap (map past) same
          ∙ fan_out_loop-past ev ks (set ss k s') run
          ∙ map-set past ss k s' found (offer-past ev s made)
    ]
  ]
]

close_all-past :
    (ks : List ℕ) (ss : List Stream) {ss' : List Stream}
    → close_all ks ss ≡ some ss'
    → map past ss' ≡ map past ss
unfolding close_all
close_all-past [] ss h = ground arith
close_all-past (k ∷ ks) ss h = elim (Option-cases (get_elem? ss k)) [
  | inl missing ↦ absurd (ground arith)
  | inr (s, found) ↦ elim (Option-cases (close_stream s)) [
    | inl panics ↦ absurd (ground arith)
    | inr (s', made) ↦
        close_all-past ks (set ss k s') (ground arith)
        ∙ map-set past ss k s' found (close_stream-past s made)
  ]
]

-- A section of the worker keeps all pasts, and appends at most one event.
pub record Kept (ev : Event) (j j' : Job) : Type 0 where
  pub pasts : map past j'.streams ≡ map past j.streams
  pub logged : j'.events ≡ j.events ++ ev ∷ []

pub append_and_fan_out-Kept :
    (i : ℕ) (r : EntryResult) (j : Job) {j' : Job} {d : ℕ}
    → append_and_fan_out i r j ≡ some (j', d)
    → Kept (progress j.id r) j j'
unfolding append_and_fan_out fan_out
append_and_fan_out-Kept i r j h =
    elim (Option-cases (fan_out_loop (progress j.id r) j.subscribers j.streams)) [
      | inl panics ↦ absurd (ground arith)
      | inr (fan, run) ↦
          let same = fan_out_loop-past (progress j.id r) j.subscribers j.streams run in
          record { pasts = ground arith; logged = ground arith }
    ]

pub finish_job-Kept :
    (now : ℕ) (j : Job) {j' : Job} {d : ℕ} {snap : JobSnapshot}
    → finish_job now j ≡ some (j', d, snap)
    → Kept (summary j.id (build_snapshot j true now)) j j'
unfolding finish_job fan_out
finish_job-Kept now j h =
    let ev = summary j.id (build_snapshot j true now) in
    elim (Option-cases (fan_out_loop ev j.subscribers j.streams)) [
      | inl panics ↦ absurd (ground arith)
      | inr (fan, run) ↦ elim (Option-cases (close_all fan.kept fan.streams)) [
        | inl panics ↦ absurd (ground arith)
        | inr (ss, closed) ↦
            let same = fan_out_loop-past ev j.subscribers j.streams run in
            let same' = close_all-past fan.kept fan.streams closed in
            record { pasts = ground arith; logged = ground arith }
      ]
    ]

pub get_elem?-map-past :
    (ss : List Stream) (k : ℕ) {s : Stream}
    → get_elem? ss k ≡ some s
    → get_elem? (map past ss) k ≡ some (past s)
get_elem?-map-past ss k h = get_elem?-map past ss k h

pub map-set_elsewhere :
    (ss : List Stream) (j k : ℕ) (s : Stream)
    → j ≢ k
    → get_elem? (map past (set ss j s)) k ≡ get_elem? (map past ss) k
map-set_elsewhere [] j k s h = refl
map-set_elsewhere (x ∷ ss) zero zero s h = absurd (h refl)
map-set_elsewhere (x ∷ ss) zero (suc k) s h = refl
map-set_elsewhere (x ∷ ss) (suc j) zero s h = refl
map-set_elsewhere (x ∷ ss) (suc j) (suc k) s h = map-set_elsewhere ss j k s (λ e. h (ap suc e))
