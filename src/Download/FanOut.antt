-- ===== src/Download/FanOut.antt =====
-- What the loops of `fanOutLocked` and `finishJob` do to each channel, as long as the subscribers
-- are distinct and open.
use mathlib.Core.Option
use research_monitor.Base.{
  ℕ, ◌+◌, ◌≡◌, refl, ◌≢◌, inl, inr, Bool, true, false, ◌&&◌, List, [], ◌∷◌, none, some, length,
  get_elem?, get_elem?-lt, set, get_elem?-set_self, get_elem?-set_ne, elem, Distinct, All,
  Bool-cases, ==_iff, arith, if◌then◌else◌, ℕ_discrete,
}
use research_monitor.Download.Types.{Event}
use research_monitor.Download.Stream.{Stream, has_room, push, shut, offer, close_stream}
use research_monitor.Download.Job.{Fan, fan_out_loop, close_all}

-- A channel of the heap that is open.
abbrev pub IsOpen : List Stream → ℕ → Type 0
IsOpen ss k = (s : Stream) × (get_elem? ss k ≡ some s) × (s.closed ≡ false)

abbrev pub offered : Event → Stream → Stream
offered ev s = if has_room s then push ev s else shut s

abbrev pub room_at : List Stream → ℕ → Bool
room_at ss k = elim (get_elem? ss k) [ none ↦ false | some s ↦ has_room s ]

pub record FanSpec (ev : Event) (ks : List ℕ) (ss : List Stream) (fan : Fan) : Type 0 where
  pub at :
      (j : ℕ)
      → get_elem? fan.streams j
        ≡ (if elem j ks then Option.map (offered ev) (get_elem? ss j) else get_elem? ss j)
  pub stays : (j : ℕ) → elem j fan.kept ≡ elem j ks && room_at ss j
  pub distinct : Distinct fan.kept
  pub counted : fan.dropped + length fan.kept ≡ length ks

IsOpen-set :
    (ss : List Stream) (k : ℕ) (s' : Stream) (ks : List ℕ)
    → elem k ks ≡ false
    → All (IsOpen ss) ks
    → All (IsOpen (set ss k s')) ks
IsOpen-set ss k s' [] out h = tt
IsOpen-set ss k s' (j ∷ ks) out ((s, e, o), h) =
    let ne : k ≢ j = λ p. ground (arith, ==_iff k j) in
    ((s, rw (get_elem?-set_ne ss k j s' ne) e, o), IsOpen-set ss k s' ks (ground arith) h)

module _ (ev : Event) (k : ℕ) (ks : List ℕ) (ss : List Stream) (s : Stream) {fan : Fan}
    (e : get_elem? ss k ≡ some s) (out : elem k ks ≡ false)
    (h : FanSpec ev ks (set ss k (offered ev s)) fan) where
  at-cons :
      (j : ℕ)
      → get_elem? fan.streams j
        ≡ (if elem j (k ∷ ks) then Option.map (offered ev) (get_elem? ss j) else get_elem? ss j)
  at-cons j = elim (ℕ_discrete k j) [
    | yes p ↦
        rw (← p)
          (ground (arith, h.at k, get_elem?-set_self ss k (offered ev s) (get_elem?-lt ss k e)))
    | no n ↦ ground (arith, h.at j, get_elem?-set_ne ss k j (offered ev s) n)
  ]

  room_at-cons : (j : ℕ) → elem j fan.kept ≡ elem j ks && room_at ss j
  room_at-cons j = elim (ℕ_discrete k j) [
    | yes p ↦ rw (← p) (ground (arith, h.stays k))
    | no n ↦ ground (arith, h.stays j, get_elem?-set_ne ss k j (offered ev s) n)
  ]

  FanSpec-keep : has_room s ≡ true → FanSpec ev (k ∷ ks) ss (record fan { kept = k ∷ fan.kept })
  FanSpec-keep room = record {
    at = at-cons;
    stays = λ j. ground (arith, room_at-cons j);
    distinct = (ground (arith, room_at-cons k), h.distinct);
    counted = omega arith;
  }

  FanSpec-drop :
      has_room s ≡ false → FanSpec ev (k ∷ ks) ss (record fan { dropped = fan.dropped + 1 })
  FanSpec-drop full = record {
    at = at-cons;
    stays = λ j. ground (arith, room_at-cons j);
    distinct = h.distinct;
    counted = omega arith;
  }

pub fan_out_loop_lem :
    (ev : Event) (ks : List ℕ) (ss : List Stream)
    → Distinct ks
    → All (IsOpen ss) ks
    → (fan : Fan) × (fan_out_loop ev ks ss ≡ some fan) × FanSpec ev ks ss fan
unfolding fan_out_loop offer
fan_out_loop_lem ev [] ss d o = (
  record { kept = []; dropped = 0; streams = ss },
  refl,
  record { at = λ j. refl; stays = λ j. refl; distinct = tt; counted = omega arith },
)
fan_out_loop_lem ev (k ∷ ks) ss (out, d) ((s, e, op), o) =
    let (fan, run, spec) =
      fan_out_loop_lem ev ks (set ss k (offered ev s)) d
        (IsOpen-set ss k (offered ev s) ks out o) in
    elim (Bool-cases (has_room s)) [
      | inl room ↦ (
        record fan { kept = k ∷ fan.kept },
        ground arith,
        FanSpec-keep ev k ks ss s e out spec room,
      )
      | inr full ↦ (
        record fan { dropped = fan.dropped + 1 },
        ground arith,
        FanSpec-drop ev k ks ss s e out spec full,
      )
    ]

pub record CloseSpec (ks : List ℕ) (ss rs : List Stream) : Type 0 where
  pub at :
      (j : ℕ)
      → get_elem? rs j ≡ (if elem j ks then Option.map shut (get_elem? ss j) else get_elem? ss j)

CloseSpec-cons :
    (k : ℕ) (ks : List ℕ) (ss : List Stream) (s : Stream) {rs : List Stream}
    → get_elem? ss k ≡ some s
    → elem k ks ≡ false
    → CloseSpec ks (set ss k (shut s)) rs
    → CloseSpec (k ∷ ks) ss rs
CloseSpec-cons k ks ss s e out h = record {
  at = λ j. elim (ℕ_discrete k j) [
    | yes p ↦
        rw (← p) (ground (arith, h.at k, get_elem?-set_self ss k (shut s) (get_elem?-lt ss k e)))
    | no n ↦ ground (arith, h.at j, get_elem?-set_ne ss k j (shut s) n)
  ];
}

pub close_all_lem :
    (ks : List ℕ) (ss : List Stream)
    → Distinct ks
    → All (IsOpen ss) ks
    → (rs : List Stream) × (close_all ks ss ≡ some rs) × CloseSpec ks ss rs
unfolding close_all close_stream
close_all_lem [] ss d o = (ss, refl, record { at = λ j. refl })
close_all_lem (k ∷ ks) ss (out, d) ((s, e, op), o) =
    let (rs, run, spec) =
      close_all_lem ks (set ss k (shut s)) d (IsOpen-set ss k (shut s) ks out o) in
    (rs, ground arith, CloseSpec-cons k ks ss s e out spec)
