-- ===== src/Download/Delivery.antt =====
-- The invariant of the channels of a job, and that each critical section keeps it.
use mathlib.Core.List.{append_assoc}
use mathlib.Core.Option.{some-injective}
use research_monitor.Base.{
  ℕ, ◌≤◌, ◌<◌, ◌≡◌, refl, sym, ap, ◌∙◌, ◌⊎◌, inl, inr, Bool, true, false, List, [], ◌∷◌, ◌++◌, some,
  length, length-append, get_elem?, get_elem?-lt, get_elem?-some, elem, Distinct, All, Bool-cases,
  Option-cases, arith, if◌then◌else◌,
}
use research_monitor.Download.Types.{Event}
use research_monitor.Download.Stream.{Stream, seen, has_room, push, shut}
use research_monitor.Download.Job.{Fan, fan_out_loop, close_all}
use research_monitor.Download.FanOut.{
  IsOpen, offered, FanSpec, fan_out_loop_lem, CloseSpec, close_all_lem,
}

-- How the channel `k` of a job stands: its client follows the log; or the job has completed and the
-- client has it all; or the channel was dropped, when at least as many events as its buffer holds
-- had been sent into it, and some of the log is missing at the end.
pub data Delivered (evs : List Event) (subs : List ℕ) (done : Bool) (k : ℕ) (s : Stream)
    : Type 0 where
  following :
      elem k subs ≡ true
      → s.closed ≡ false
      → done ≡ false
      → seen s ≡ evs
      → Delivered evs subs done k s
  finished :
      elem k subs ≡ false
      → s.closed ≡ true
      → done ≡ true
      → seen s ≡ evs
      → Delivered evs subs done k s
  overrun :
      elem k subs ≡ false
      → s.closed ≡ true
      → s.cap ≤ length (s.taken ++ s.buf)
      → (ev : Event) (missing : List Event) → seen s ++ (ev ∷ missing) ≡ evs
      → Delivered evs subs done k s

pub record Sound (evs : List Event) (subs : List ℕ) (ss : List Stream) (done : Bool) : Type 0 where
  pub distinct : Distinct subs
  pub known : (k : ℕ) → elem k subs ≡ true → k < length ss
  pub delivered : (k : ℕ) (s : Stream) → get_elem? ss k ≡ some s → Delivered evs subs done k s
  pub bounded : (k : ℕ) (s : Stream) → get_elem? ss k ≡ some s → length s.buf ≤ s.cap

-- From one state of the channels to the next, a client whose channel was open and had room in its
-- buffer has, or will have, all of the new log.
abbrev pub Served : List Event → List Stream → List Stream → Type 0
Served log before after =
    (k : ℕ) (s s' : Stream)
    → get_elem? before k ≡ some s
    → get_elem? after k ≡ some s'
    → (s.closed ≡ true) ⊎ ((s.cap ≤ length s.buf) ⊎ (seen s' ≡ log))

seen-push : (ev : Event) (s : Stream) → seen (push ev s) ≡ seen s ++ ev ∷ []
seen-push ev s = simp append_assoc

module _ {evs : List Event} {subs : List ℕ} {ss : List Stream} {done : Bool}
    (h : Sound evs subs ss done) where
  -- Every subscriber is an open channel.
  pub Sound-IsOpen : (k : ℕ) → elem k subs ≡ true → IsOpen ss k
  Sound-IsOpen k m =
      let (s, e) = get_elem?-some ss k (h.known k m) in (s, e, open_of (h.delivered k s e))
    where
      open_of : {s : Stream} → Delivered evs subs done k s → s.closed ≡ false
      open_of (following _ o _ _) = o
      open_of (finished a _ _ _) = cc
      open_of (overrun a _ _ _ _ _) = cc

All-elem : {P : ℕ → Type 0} (ks : List ℕ) → ((k : ℕ) → elem k ks ≡ true → P k) → All P ks
All-elem [] f = tt
All-elem (k ∷ ks) f = (f k (ground arith), All-elem ks (λ j m. f j (ground arith)))

-- One event is appended to the log and offered to every subscriber.
module _ {evs : List Event} {subs : List ℕ} {ss : List Stream} (ev : Event)
    (h : Sound evs subs ss false) {fan : Fan} (spec : FanSpec ev subs ss fan) where
  offer-Delivered :
      (k : ℕ) (s : Stream)
      → get_elem? ss k ≡ some s
      → Delivered evs subs false k s
      → Delivered (evs ++ ev ∷ []) fan.kept false k (if elem k subs then offered ev s else s)
  offer-Delivered k s e (following m o d eq) = elim (Bool-cases (has_room s)) [
    | inl room ↦
        rw (m, room)
          (following (ground (arith, spec.stays k)) o refl
            (seen-push ev s ∙ ap (λ l. l ++ ev ∷ []) eq))
    | inr full ↦
        rw (m, full)
          (overrun (ground (arith, spec.stays k)) refl (ground (arith, length-append s.taken s.buf))
            ev [] (ap (λ l. l ++ ev ∷ []) eq))
  ]
  offer-Delivered k s e (finished m c d eq) = absurd (cc)
  offer-Delivered k s e (overrun m c full x xs eq) = rw m (
      overrun (ground (arith, spec.stays k)) c full x (xs ++ ev ∷ [])
        (sym (append_assoc (seen s) (x ∷ xs) (ev ∷ [])) ∙ ap (λ l. l ++ ev ∷ []) eq))

  offer-bounded :
      (k : ℕ) (s : Stream)
      → length s.buf ≤ s.cap
      → length (if elem k subs then offered ev s else s).buf
        ≤ (if elem k subs then offered ev s else s).cap
  offer-bounded k s b = ground (arith, length-append s.buf (ev ∷ []))

  -- A channel after the round is one from before, with the event offered if it was subscribed.
  origin :
      (k : ℕ) (s' : Stream)
      → get_elem? fan.streams k ≡ some s'
      → (s : Stream) × (get_elem? ss k ≡ some s) × ((if elem k subs then offered ev s else s) ≡ s')
  origin k s' e = elim (Option-cases (get_elem? ss k)) [
    | inl missing ↦ absurd (ground (arith, spec.at k))
    | inr (s, found) ↦ (s, found, ground (arith, spec.at k))
  ]

  kept-lt : (k : ℕ) → elem k fan.kept ≡ true → k < length fan.streams
  kept-lt k m = elim (Option-cases (get_elem? ss k)) [
    | inl missing ↦ absurd (ground (arith, spec.stays k))
    | inr (s, found) ↦
        get_elem?-lt fan.streams k {x = if elem k subs then offered ev s else s}
          (ground (arith, spec.at k))
  ]

  offer-Sound : Sound (evs ++ ev ∷ []) fan.kept fan.streams false
  offer-Sound = record {
    distinct = spec.distinct;
    known = kept-lt;
    delivered = λ k s' e.
        let (s, found, made) = origin k s' e in
        rw made at (offer-Delivered k s found (h.delivered k s found));
    bounded = λ k s' e.
        let (s, found, made) = origin k s' e in
        rw made at (offer-bounded k s (h.bounded k s found));
  }

  offer-served :
      (k : ℕ) (s : Stream)
      → Delivered evs subs false k s
      → (s.closed ≡ true)
        ⊎ ((s.cap ≤ length s.buf)
            ⊎ (seen (if elem k subs then offered ev s else s) ≡ evs ++ ev ∷ []))
  offer-served k s (following m o d eq) = elim (Bool-cases (has_room s)) [
    | inl room ↦ inr (inr (rw (m, room) (seen-push ev s ∙ ap (λ l. l ++ ev ∷ []) eq)))
    | inr full ↦ inr (inl (ground (arith, full)))
  ]
  offer-served k s (finished m c d eq) = inl c
  offer-served k s (overrun m c full x xs eq) = inl c

  offer-Served : Served (evs ++ ev ∷ []) ss fan.streams
  offer-Served k s s' there later =
      let (t, found, made) = origin k s' later in
      let same : t ≡ s = some-injective _ _ (sym found ∙ there) in
      rw (← made, same) (offer-served k s (h.delivered k s there))

-- The same, with the run of the loop: it does not panic.
pub fan_out_loop-Sound :
    {evs : List Event} {subs : List ℕ} {ss : List Stream} (ev : Event)
    → Sound evs subs ss false
    → (fan : Fan) × (fan_out_loop ev subs ss ≡ some fan)
      × Sound (evs ++ ev ∷ []) fan.kept fan.streams false
      × Served (evs ++ ev ∷ []) ss fan.streams
fan_out_loop-Sound {subs = subs} {ss = ss} ev h =
    let (fan, run, spec) =
      fan_out_loop_lem ev subs ss h.distinct (All-elem subs (Sound-IsOpen h)) in
    (fan, run, offer-Sound ev h spec, offer-Served ev h spec)

-- The remaining subscribers are closed and forgotten, and the job has completed.
module _ {evs : List Event} {subs : List ℕ} {ss rs : List Stream} (h : Sound evs subs ss false)
    (spec : CloseSpec subs ss rs) where
  close-Delivered :
      (k : ℕ) (s : Stream)
      → Delivered evs subs false k s
      → Delivered evs [] true k (if elem k subs then shut s else s)
  close-Delivered k s (following m o d eq) = rw m (finished refl refl refl eq)
  close-Delivered k s (finished m c d eq) = absurd (cc)
  close-Delivered k s (overrun m c full x xs eq) = rw m (overrun refl c full x xs eq)

  closed_origin :
      (k : ℕ) (s' : Stream)
      → get_elem? rs k ≡ some s'
      → (s : Stream) × (get_elem? ss k ≡ some s) × ((if elem k subs then shut s else s) ≡ s')
  closed_origin k s' e = elim (Option-cases (get_elem? ss k)) [
    | inl missing ↦ absurd (ground (arith, spec.at k))
    | inr (s, found) ↦ (s, found, ground (arith, spec.at k))
  ]

  close-Sound : Sound evs [] rs true
  close-Sound = record {
    distinct = tt;
    known = λ k m. absurd (cc);
    delivered = λ k s' e.
        let (s, found, made) = closed_origin k s' e in
        rw made at (close-Delivered k s (h.delivered k s found));
    bounded = λ k s' e.
        let (s, found, made) = closed_origin k s' e in ground (arith, h.bounded k s found);
  }

  -- No event is lost by closing.
  closed_seen :
      (k : ℕ) (s' : Stream)
      → get_elem? rs k ≡ some s'
      → (s : Stream) × (get_elem? ss k ≡ some s) × (seen s' ≡ seen s)
  closed_seen k s' e =
      let (s, found, made) = closed_origin k s' e in
      (
        s,
        found,
        ap seen (sym made) ∙ elim (elem k subs) as (λ b. seen (if b then shut s else s) ≡ seen s) [
          | true ↦ refl
          | false ↦ refl
        ],
      )

  close-Served : (before : List Stream) → Served evs before ss → Served evs before rs
  close-Served before served k s s' there later =
      let (t, found, same) = closed_seen k s' later in
      elim (served k s t there found) [
        | inl shut_before ↦ inl shut_before
        | inr (inl full) ↦ inr (inl full)
        | inr (inr all_seen) ↦ inr (inr (same ∙ all_seen))
      ]

pub close_all-Sound :
    {evs : List Event} {subs : List ℕ} {ss : List Stream}
    → Sound evs subs ss false
    → (rs : List Stream) × (close_all subs ss ≡ some rs)
      × Sound evs [] rs true
      × ((before : List Stream) → Served evs before ss → Served evs before rs)
close_all-Sound {subs = subs} {ss = ss} h =
    let (rs, run, spec) = close_all_lem subs ss h.distinct (All-elem subs (Sound-IsOpen h)) in
    (rs, run, close-Sound h spec, λ before served. close-Served h spec before served)
