-- ===== src/Extraction/Service.antt =====
-- The extraction service as one system: submitters, the channel of wake signals and the worker's
-- goroutine (`run` of internal/application/extraction/worker.go, the startup of
-- internal/bootstrap/app.go), one statement that touches shared state at a time. When the context is
-- done, the select of `run` does not block and a further drain returns at once, so the worker counts
-- as stopped from the read that sees it.
pub mod Wakes
pub mod Alone
use research_monitor.Base.{ℕ, zero, suc, ◌≡◌, String, Option, none, some, Bool, if◌then◌else◌}
use research_monitor.Sql.{Table}
use research_monitor.Extraction.Types.{
  JobStatus, running, expired, RequestPayload, PriorState, Extraction, Result, ok, err, validate,
}
use research_monitor.Extraction.Row.{Row, Codec, clash}
use research_monitor.Extraction.Repository.{upsert, peek_next_pending, claim_pending, mark_failed}
use research_monitor.Extraction.UseCase.{ProcessError, notify, process}
use research_monitor.Extraction.Worker.{Round, Settings, is_late}

-- Where the goroutine stands: at the select, before a peek, with a row peeked, or with one claimed.
pub data Phase : Type 0 where
  idle draining stopped : Phase
  holding claimed : Extraction → Phase

-- `unsent` counts the submitters between their `Upsert` and their `Notify`.
pub record Service (Db : Type 0) : Type 0 where
  pub db : Db
  pub signals : ℕ
  pub unsent : ℕ
  pub phase : Phase

-- The loop of the startup over the pending ids.
unfoldable pub self_signal : ℕ → ℕ → ℕ
unfolding notify
self_signal cap zero = 0
self_signal cap (suc n) = notify cap (self_signal cap n)

module _ (t : Table Row clash) (codec : Codec) (s : Settings) (cap : ℕ) where
  open t use {Db}

  abbrev pub upserted : Service Db → Result (String × Option PriorState) × Db → Service Db
  upserted v (err _, db) = record v { db = db }
  upserted v (ok _, db) = record v { db = db; unsent = suc v.unsent }

  abbrev pub after_peek : Service Db → Result (Option Extraction) → Service Db
  after_peek v (err _) = record v { phase = idle }
  after_peek v (ok none) = record v { phase = idle }
  after_peek v (ok (some e)) = record v { phase = holding e }

  abbrev pub after_claiming : Round → Extraction → Service Db → Result (Unit {0}) × Db → Service Db
  after_claiming r e v (err _, db) = record v {
    db = db;
    phase = if r.cancelled_at_claim then stopped else draining;
  }
  after_claiming r e v (ok _, db) = record v {
    db = db;
    phase = claimed (record e { status = running });
  }

  abbrev pub after_processing : Round → Option ProcessError → Phase
  after_processing r none = draining
  after_processing r (some e) = if r.cancelled_after then stopped else draining

  -- The worker's next statement, in the body of `drain`.
  unfoldable pub advance : Round → Phase → Service Db → Service Db
  unfolding peek_next_pending claim_pending mark_failed process
  advance r idle v = v
  advance r stopped v = v
  advance r draining v =
      if r.cancelled
      then record v { phase = stopped }
      else after_peek v (peek_next_pending t codec v.db)
  advance r (holding e) v =
      if is_late s r.now e
      then record v {
        db = (mark_failed t r.stamp e.id expired (s.expiry_message e.created_at) v.db).1;
        phase = draining;
      }
      else after_claiming r e v (claim_pending t r.stamp e.id v.db)
  advance r (claimed e) v =
      let (out, db, _) =
        process t r.extract r.finish_stamp s.max_words r.cancelled_in_process e v.db in
      record v { db = db; phase = after_processing r out }

  -- One statement of any goroutine.
  pub data Step : Service Db → Service Db → Type 0 where
    submitting :
        (uuid : String) (now : ℕ) (payload : RequestPayload) (v : Service Db)
        → validate payload ≡ none
        → Step v (upserted v (upsert t codec uuid now payload v.db))
    notifying :
        (v : Service Db) (n : ℕ)
        → v.unsent ≡ suc n
        → Step v (record v { signals = notify cap v.signals; unsent = n })
    waking :
        (v : Service Db) (n : ℕ)
        → v.phase ≡ idle
        → v.signals ≡ suc n
        → Step v (record v { signals = n; phase = draining })
    leaving : (v : Service Db) → v.phase ≡ idle → Step v (record v { phase = stopped })
    working : (r : Round) (v : Service Db) → Step v (advance r v.phase v)
