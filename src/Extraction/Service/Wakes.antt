-- ===== src/Extraction/Service/Wakes.antt =====
-- No wake signal is lost, in any interleaving of the submitters with the worker.
use research_monitor.Base.{
  ℕ, zero, suc, ◌<◌, ◌≡◌, ◌≢◌, refl, ap, ◌⊎◌, inl, inr, Bool, true, false, String, List, [], ◌∷◌,
  ◌++◌, Option, none, some, All, Bool-cases, arith, if◌then◌else◌,
}
use research_monitor.Sql.{Found, found, absent, read_failed, FirstLaw, update_where, Table}
use research_monitor.Extraction.Types.{
  pending, expired, RequestPayload, PriorState, Extraction, Result, ok, err,
}
use research_monitor.Extraction.Row.{Row, Codec, clash}
use research_monitor.Extraction.Repository.{
  has_status, reset, to_running, transition, upsert, peek_next_pending, found_pending,
  claim_pending,
}
use research_monitor.Extraction.Repository.Upserts.{new_row, has_source, UpsertLaw, upsert_lem}
use research_monitor.Extraction.UseCase.{ProcessError, notify, process}
use research_monitor.Extraction.Worker.{Round, Settings, is_late}
use research_monitor.Extraction.Worker.Settling.{waiting, Decodes, Progress, transition-Progress}
use research_monitor.Extraction.Worker.Steps.{
  All-at, to_domain-id, process-Progress, mark_failed-Progress, none-waiting,
}
use research_monitor.Extraction.Service.{
  Phase, idle, draining, stopped, holding, claimed, Service, self_signal, upserted, after_peek,
  after_claiming, after_processing, advance, Step, submitting, notifying, waking, leaving, working,
}

-- The worker waits at the select.
abbrev pub is_idle : Phase → Bool
is_idle idle = true
is_idle _ = false

-- The queue is empty, or a signal is there, or one is about to be sent.
abbrev pub Heard : {Db : Type 0} → (Db → List Row) → Service Db → Type 0
Heard rows v = (waiting (rows v.db) ≡ 0) ⊎ ((0 < v.signals) ⊎ (0 < v.unsent))

pub record Awake {Db : Type 0} (codec : Codec) (rows : Db → List Row) (v : Service Db)
    : Type 0 where
  pub heard : is_idle v.phase ≡ true → Heard rows v
  pub decodes : All (Decodes codec) (rows v.db)

module _ (codec : Codec) (column : String) (payload : RequestPayload)
    (back : codec.unmarshal column ≡ some payload) where
  reset-Decodes :
      (now : ℕ) (rs : List Row)
      → All (Decodes codec) rs
      → All (Decodes codec) (update_where (has_source payload) (reset column now) rs)
  unfolding reset
  reset-Decodes now [] h = tt
  reset-Decodes now (r ∷ rs) (h, hs) = (
    (elim (has_source payload r) as (λ b. Decodes codec (if b then reset column now r else r)) [
      | true ↦ (payload, back)
      | false ↦ h
    ]),
    reset-Decodes now rs hs,
  )

  append-Decodes :
      (uuid : String) (now : ℕ) (rs : List Row)
      → All (Decodes codec) rs
      → All (Decodes codec) (rs ++ new_row uuid column now payload ∷ [])
  append-Decodes uuid now [] h = ((payload, back), tt)
  append-Decodes uuid now (r ∷ rs) (h, hs) = (h, append-Decodes uuid now rs hs)

notify-positive : (cap signals : ℕ) → 0 < cap → 0 < notify cap signals
unfolding notify
notify-positive cap signals h = ground arith

self_signal-positive : (cap n : ℕ) → 0 < cap → 0 < n → 0 < self_signal cap n
unfolding self_signal
self_signal-positive cap zero h k = absurd (omega arith)
self_signal-positive cap (suc n) h k = notify-positive cap (self_signal cap n) h

module _ (t : Table Row clash) (codec : Codec) (s : Settings) (cap : ℕ) (buffered : 0 < cap)
    (reads : (p : Row → Bool) (key : Row → ℕ) (db : t.Db) → t.first p key db ≢ read_failed) where
  open t use {Db, rows, first, first_lem}

  upserted-Awake :
      (uuid : String) (now : ℕ) (payload : RequestPayload) (column : String) (v : Service Db)
      (out : Result (String × Option PriorState) × Db)
      → codec.unmarshal column ≡ some payload
      → UpsertLaw uuid now payload column (rows v.db) out.0 (rows out.1)
      → Awake codec rows v
      → Awake codec rows (upserted t codec s cap v out)
  unfolding reset
  upserted-Awake uuid now payload column v (err f, after) back (_, same) a = record {
    heard = λ h. rw same (a.heard h);
    decodes = rw same (a.decodes);
  }
  upserted-Awake uuid now payload column v (ok (id, none), after) back (_, same, _) a = record {
    heard = λ h. inr (inr (omega arith));
    decodes = rw same (append-Decodes codec column payload back uuid now (rows v.db) a.decodes);
  }
  upserted-Awake uuid now payload column v (ok (id, some prior), after) back (_, same) a = record {
    heard = λ h. inr (inr (omega arith));
    decodes = rw same (reset-Decodes codec column payload back now (rows v.db) a.decodes);
  }

  peeked-Awake :
      (v : Service Db) (f : Found Row)
      → f ≢ read_failed
      → FirstLaw (has_status pending) (λ q. q.created_at) (rows v.db) f
      → Awake codec rows v
      → Awake codec rows (after_peek t codec s cap v (found_pending t codec f))
  unfolding found_pending
  peeked-Awake v read_failed readable h a = absurd (readable refl)
  peeked-Awake v absent readable h a = record {
    heard = λ _. inl (none-waiting (rows v.db) h);
    decodes = a.decodes;
  }
  peeked-Awake v (found row) readable (w, (i, at), _) a =
      let (payload, decoded) = All-at (Decodes codec) (rows v.db) i a.decodes at in
      let (e, read, same) = to_domain-id codec row payload decoded in
      rw (read, after_peek, found_pending)
        (record { heard = λ h. absurd (ground arith); decodes = a.decodes })

  held :
      (codec' : Codec) (v : Service Db) (db' : Db) (p : Phase)
      → is_idle p ≡ false
      → Progress codec (rows v.db) (rows db')
      → Awake codec rows v
      → Awake codec rows (record v { db = db'; phase = p })
  held codec' v db' p busy progress a = record {
    heard = λ h. absurd (ground arith);
    decodes = progress.decodes a.decodes;
  }

  claiming-Awake :
      (r : Round) (e : Extraction) (v : Service Db) (out : Result (Unit {0}) × Db)
      → Progress codec (rows v.db) (rows out.1)
      → Awake codec rows v
      → Awake codec rows (after_claiming t codec s cap r e v out)
  claiming-Awake r e v (err f, after) p a = held codec v after _ (busy r.cancelled_at_claim) p a
    where
      busy : (b : Bool) → is_idle (if b then stopped else draining) ≡ false
      busy true = refl
      busy false = refl
  claiming-Awake r e v (ok _, after) p a = held codec v after _ refl p a

  processing_busy :
      (r : Round) (o : Option ProcessError) → is_idle (after_processing t codec s cap r o) ≡ false
  processing_busy r none = refl
  processing_busy r (some e) =
      elim (r.cancelled_after) as (λ b. is_idle (if b then stopped else draining) ≡ false) [
        | true ↦ refl
        | false ↦ refl
      ]

  advance-Awake :
      (r : Round) (p : Phase) (v : Service Db)
      → Awake codec rows v
      → Awake codec rows (advance t codec s cap r p v)
  unfolding advance peek_next_pending claim_pending to_running
  advance-Awake r idle v a = a
  advance-Awake r stopped v a = a
  advance-Awake r draining v a = elim (Bool-cases r.cancelled) [
    | inl done ↦ simp done (record { heard = λ h. absurd (ground arith); decodes = a.decodes })
    | inr on ↦ simp on (
        peeked-Awake v (first (has_status pending) (λ q. q.created_at) v.db)
          (reads (has_status pending) (λ q. q.created_at) v.db)
          (first_lem (has_status pending) (λ q. q.created_at) v.db) a)
  ]
  advance-Awake r (holding e) v a = elim (Bool-cases (is_late s r.now e)) [
    | inl late ↦ rw late (
        held codec v _ draining refl
          (mark_failed-Progress t codec r.stamp e.id expired (s.expiry_message e.created_at) v.db)
          a)
    | inr early ↦ rw early (
        claiming-Awake r e v (transition t e.id pending (to_running r.stamp) v.db)
          (transition-Progress t codec e.id pending (to_running r.stamp) (λ q. (refl, refl)) v.db)
          a)
  ]
  advance-Awake r (claimed e) v a =
      let out = process t r.extract r.finish_stamp s.max_words r.cancelled_in_process e v.db in
      held codec v out.1 (after_processing t codec s cap r out.0) (processing_busy r out.0)
        (process-Progress t codec r.extract r.finish_stamp s.max_words r.cancelled_in_process e
          v.db)
        a

  Step-Awake :
      {v v' : Service Db} → Step t codec s cap v v' → Awake codec rows v → Awake codec rows v'
  Step-Awake (submitting uuid now payload v valid) a =
      let (column, marshalled) = codec.marshal-some payload in
      upserted-Awake uuid now payload column v (upsert t codec uuid now payload v.db)
        (codec.unmarshal-marshal payload column marshalled)
        (upsert_lem t codec uuid now payload column v.db marshalled) a
  Step-Awake (notifying v n sent) a = record {
    heard = λ h. inr (inl (notify-positive cap v.signals buffered));
    decodes = a.decodes;
  }
  Step-Awake (waking v n at there) a = record {
    heard = λ h. absurd (ground arith);
    decodes = a.decodes;
  }
  Step-Awake (leaving v at) a = record { heard = λ h. absurd (ground arith); decodes = a.decodes }
  Step-Awake (working r v) a = advance-Awake r v.phase v a

  -- The service at its start, over rows that decode: one signal for each pending row is sent before
  -- the worker runs, as far as the channel has room.
  abbrev started : Db → Service Db
  started db = record {
    db = db;
    signals = self_signal cap (waiting (rows db));
    unsent = 0;
    phase = idle;
  }

  -- What can come of the service.
  pub data Serves (db : Db) : Service Db → Type 0 where
    start : Serves db (started db)
    after : {v v' : Service Db} → Serves db v → Step t codec s cap v v' → Serves db v'

  started-Awake : (db : Db) → All (Decodes codec) (rows db) → Awake codec rows (started db)
  started-Awake db d = record { heard = λ _. go (waiting (rows db)) refl; decodes = d }
    where
      go : (n : ℕ) → waiting (rows db) ≡ n → Heard rows (started db)
      go zero e = inl e
      go (suc n) e =
          inr (inl (self_signal-positive cap (waiting (rows db)) buffered (omega (arith, e))))

  Serves-Awake :
      (db : Db) {v : Service Db} → All (Decodes codec) (rows db) → Serves db v → Awake codec rows v
  Serves-Awake db d start = started-Awake db d
  Serves-Awake db d (after run st) = Step-Awake st (Serves-Awake db d run)

  -- No wake is lost. In any interleaving of the submitters with the worker, with a channel that has
  -- room for a signal, reads that succeed and payloads that decode: while the worker waits at its
  -- select, no row is pending, or a signal is there to wake it, or a submitter is about to send one.
  pub no_lost_wake :
      (db : Db) {v : Service Db}
      → All (Decodes codec) (rows db)
      → Serves db v
      → v.phase ≡ idle
      → Heard rows v
  no_lost_wake db d run at = (Serves-Awake db d run).heard (ap is_idle at)
