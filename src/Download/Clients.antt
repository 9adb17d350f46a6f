-- ===== src/Download/Clients.antt =====
-- A new subscriber and a client that receives keep the invariant of the channels.
use mathlib.Core.List.{append_assoc, append-nil}
use research_monitor.Base.{
  ℕ, zero, suc, ◌+◌, ◌≤◌, ◌<◌, ◌≡◌, refl, ap, ◌∙◌, ◌⊎◌, inl, inr, Bool, true, false, ◌||◌, List, [],
  ◌∷◌, ◌++◌, some, length, length-append, get_elem?, get_elem?-lt, set, get_elem?-set_self,
  get_elem?-set_ne, length-set, elem, Distinct, Bool-cases, ◌==◌, arith, ℕ_discrete,
}
use research_monitor.Download.Types.{Event}
use research_monitor.Download.Stream.{Stream, seen, take_head, receive}
use research_monitor.Download.Delivery.{Delivered, following, finished, overrun, Sound}

-- A receipt moves an event from the buffer to the client, and changes nothing else.
record Received (s s' : Stream) : Type 0 where
  same_seen : seen s' ≡ seen s
  same_closed : s'.closed ≡ s.closed
  same_cap : s'.cap ≡ s.cap
  same_live : s'.taken ++ s'.buf ≡ s.taken ++ s.buf
  shorter : length s'.buf ≤ length s.buf

take_head-Received : (s : Stream) (b : List Event) → s.buf ≡ b → Received s (take_head s b)
take_head-Received s [] e = record {
  same_seen = refl;
  same_closed = refl;
  same_cap = refl;
  same_live = refl;
  shorter = omega arith;
}
take_head-Received s (ev ∷ rest) e =
    let same : (s.taken ++ ev ∷ []) ++ rest ≡ s.taken ++ s.buf =
      rw e (append_assoc s.taken (ev ∷ []) rest) in
    record {
      same_seen = ap (λ l. s.backlog ++ l) same;
      same_closed = refl;
      same_cap = refl;
      same_live = same;
      shorter = omega (arith, ap length e);
    }

receive-Received : (s : Stream) → Received s (receive s)
unfolding receive
receive-Received s = take_head-Received s s.buf refl

Delivered-Received :
    {evs : List Event} {subs : List ℕ} {done : Bool} {k : ℕ} {s s' : Stream}
    → Received s s'
    → Delivered evs subs done k s
    → Delivered evs subs done k s'
Delivered-Received r (following m o d eq) = following m (r.same_closed ∙ o) d (r.same_seen ∙ eq)
Delivered-Received r (finished m c d eq) = finished m (r.same_closed ∙ c) d (r.same_seen ∙ eq)
Delivered-Received r (overrun m c full x xs eq) =
    overrun m (r.same_closed ∙ c) (rw (r.same_live, r.same_cap) full) x xs
      (ap (λ l. l ++ x ∷ xs) r.same_seen ∙ eq)

-- `receive_at` on a heap that has the channel `k`.
module _ {evs : List Event} {subs : List ℕ} {ss : List Stream} {done : Bool} (k : ℕ) (s s' : Stream)
    (e : get_elem? ss k ≡ some s) (r : Received s s') (h : Sound evs subs ss done) where
  delivered_at :
      (j : ℕ) (t : Stream) → get_elem? (set ss k s') j ≡ some t → Delivered evs subs done j t
  delivered_at j t e' = elim (ℕ_discrete k j) [
    | yes p ↦
        let same : s' ≡ t = ground (
          arith,
          ap (get_elem? (set ss k s')) p,
          get_elem?-set_self ss k s' (get_elem?-lt ss k e),
        ) in
        rw (← same, ← p) (Delivered-Received r (h.delivered k s e))
    | no n ↦ h.delivered j t (ground (arith, get_elem?-set_ne ss k j s' n))
  ]

  bounded_at : (j : ℕ) (t : Stream) → get_elem? (set ss k s') j ≡ some t → length t.buf ≤ t.cap
  bounded_at j t e' = elim (ℕ_discrete k j) [
    | yes p ↦
        let same : s' ≡ t = ground (
          arith,
          ap (get_elem? (set ss k s')) p,
          get_elem?-set_self ss k s' (get_elem?-lt ss k e),
        ) in
        rw (← same) (omega (arith, r.shorter, r.same_cap, h.bounded k s e))
    | no n ↦ h.bounded j t (ground (arith, get_elem?-set_ne ss k j s' n))
  ]

  set-Sound : Sound evs subs (set ss k s') done
  set-Sound = record {
    distinct = h.distinct;
    known = λ j m. omega (arith, length-set ss k s', h.known j m);
    delivered = delivered_at;
    bounded = bounded_at;
  }

pub receive-Sound :
    {evs : List Event} {subs : List ℕ} {ss : List Stream} {done : Bool} (k : ℕ) (s : Stream)
    → get_elem? ss k ≡ some s
    → Sound evs subs ss done
    → Sound evs subs (set ss k (receive s)) done
receive-Sound k s e h = set-Sound k s (receive s) e (receive-Received s) h

-- The channel that `Subscribe` makes.
abbrev pub live : ℕ → List Event → Bool → Stream
live cap evs done = record { cap = cap; backlog = evs; taken = []; buf = []; closed = done }

elem-append : (k j : ℕ) (ks : List ℕ) → elem k (ks ++ j ∷ []) ≡ elem k ks || k == j
elem-append k j [] = ground arith
elem-append k j (i ∷ ks) = ground (arith, elem-append k j ks)

Distinct-append : (j : ℕ) (ks : List ℕ) → elem j ks ≡ false → Distinct ks → Distinct (ks ++ j ∷ [])
Distinct-append j [] h d = (refl, tt)
Distinct-append j (k ∷ ks) h (out, d) =
    (ground (arith, elem-append k j ks), Distinct-append j ks (ground arith) d)

get_elem?-append :
    (ss : List Stream) (x : Stream) (k : ℕ) {s : Stream}
    → get_elem? (ss ++ x ∷ []) k ≡ some s
    → ((get_elem? ss k ≡ some s) × (k < length ss)) ⊎ ((k ≡ length ss) × (x ≡ s))
get_elem?-append [] x zero h = inr (refl, ground arith)
get_elem?-append [] x (suc k) h = absurd (ground arith)
get_elem?-append (y ∷ ss) x zero h = inl (h, omega arith)
get_elem?-append (y ∷ ss) x (suc k) h = ground (arith, get_elem?-append ss x k h)

Delivered-subs :
    {evs : List Event} {subs subs' : List ℕ} {done : Bool} {k : ℕ} {s : Stream}
    → elem k subs' ≡ elem k subs
    → Delivered evs subs done k s
    → Delivered evs subs' done k s
Delivered-subs q (following m o d eq) = following (q ∙ m) o d eq
Delivered-subs q (finished m c d eq) = finished (q ∙ m) c d eq
Delivered-subs q (overrun m c full x xs eq) = overrun (q ∙ m) c full x xs eq

module _ (cap : ℕ) {evs : List Event} {subs : List ℕ} {ss : List Stream} where
  fresh : {done : Bool} → Sound evs subs ss done → elem (length ss) subs ≡ false
  fresh h = elim (Bool-cases (elem (length ss) subs)) [
    | inl m ↦ absurd (omega (arith, h.known (length ss) m))
    | inr out ↦ out
  ]

  -- A job that runs registers the channel.
  pub subscribe-Sound :
      Sound evs subs ss false
      → Sound evs (subs ++ length ss ∷ []) (ss ++ live cap evs false ∷ []) false
  subscribe-Sound h = record {
    distinct = Distinct-append (length ss) subs (fresh h) h.distinct;
    known = λ k m. omega (arith, known_of k m, length-append ss (live cap evs false ∷ []));
    delivered = λ k s e. elim (get_elem?-append ss (live cap evs false) k e) [
      | inl (old, lt) ↦
          Delivered-subs (ground (arith, elem-append k (length ss) subs)) (h.delivered k s old)
      | inr (p, same) ↦ rw (← same, p) (following last_is_elem refl refl (append-nil evs))
    ];
    bounded = λ k s e. elim (get_elem?-append ss (live cap evs false) k e) [
      | inl (old, lt) ↦ h.bounded k s old
      | inr (p, same) ↦ rw (← same) (omega arith)
    ];
  }
    where
      known_of : (k : ℕ) → elem k (subs ++ length ss ∷ []) ≡ true → k < length ss + 1
      known_of k m = elim (Bool-cases (elem k subs)) [
        | inl old ↦ omega (arith, h.known k old)
        | inr new ↦ ground (arith, elem-append k (length ss) subs)
      ]

      last_is_elem : elem (length ss) (subs ++ length ss ∷ []) ≡ true
      last_is_elem = ground (arith, elem-append (length ss) (length ss) subs, fresh h)

  -- A job that has completed returns it closed.
  pub late-Sound : Sound evs subs ss true → Sound evs subs (ss ++ live cap evs true ∷ []) true
  late-Sound h = record {
    distinct = h.distinct;
    known = λ k m. omega (arith, h.known k m, length-append ss (live cap evs true ∷ []));
    delivered = λ k s e. elim (get_elem?-append ss (live cap evs true) k e) [
      | inl (old, lt) ↦ h.delivered k s old
      | inr (p, same) ↦ rw (← same, p) (finished (fresh h) refl refl (append-nil evs))
    ];
    bounded = λ k s e. elim (get_elem?-append ss (live cap evs true) k e) [
      | inl (old, lt) ↦ h.bounded k s old
      | inr (p, same) ↦ rw (← same) (omega arith)
    ];
  }
