-- ===== src/Extraction/Worker.antt =====
-- The background worker (internal/application/extraction/worker.go). What the environment answers
-- in one round of `drain` is a record: `ctx.Err()` at each place where it is read, the worker's clock, the
-- repository's `time.Now()` at its two writes, and the extractor. The text of the expiry message, a formatted date and duration, is an argument.
pub mod Settling
pub mod Spinning
pub mod Steps
pub mod Draining
use research_monitor.Base.{
  ℕ, ◌+◌, Bool, true, false, String, List, [], ◌∷◌, Option, none, some, ltb, if◌then◌else◌,
}
use research_monitor.Sql.{Table}
use research_monitor.Extraction.Types.{
  JobStatus, running, expired, ExtractInput, Extraction, Result, ok, err,
}
use research_monitor.Extraction.Row.{Row, Codec, clash}
use research_monitor.Extraction.Repository.{peek_next_pending, claim_pending, mark_failed}
use research_monitor.Extraction.UseCase.{Extracted, ProcessError, process}

pub record Round : Type 0 where
  pub cancelled : Bool
  pub now : ℕ
  pub stamp : ℕ
  pub cancelled_at_claim : Bool
  pub extract : ExtractInput → Extracted
  pub cancelled_in_process : Bool
  pub finish_stamp : ℕ
  pub cancelled_after : Bool

pub record Settings : Type 0 where
  pub job_expiry : ℕ
  pub max_words : ℕ
  pub expiry_message : ℕ → List ℕ

-- Why `drain` returned; `unfinished` if it was still in its loop after the last given round.
pub data Stop : Type 0 where
  queue_empty context_done peek_failed unfinished : Stop

-- What one round does: leave the loop, or go on.
pub data Turn (Db : Type 0) : Type 0 where
  leave : Stop → Db → Turn Db
  again : Db → Turn Db

-- `w.clock.Now().After(peeked.CreatedAt.Add(w.jobExpiry))`
abbrev pub is_late : Settings → ℕ → Extraction → Bool
is_late s now e = ltb (e.created_at + s.job_expiry) now

module _ (t : Table Row clash) (codec : Codec) (s : Settings) where
  open t use {Db}

  abbrev pub after_process : Round → Option ProcessError × Db → Turn Db
  after_process r (none, db) = again db
  after_process r (some e, db) = if r.cancelled_after then leave context_done db else again db

  abbrev pub after_claim : Round → Extraction → Result (Unit {0}) × Db → Turn Db
  unfolding process
  after_claim r e (err _, db) = if r.cancelled_at_claim then leave context_done db else again db
  after_claim r e (ok _, db) =
      let (out, db', _) =
        process t r.extract r.finish_stamp s.max_words r.cancelled_in_process
          (record e { status = running }) db in
      after_process r (out, db')

  -- The rest of a round, for the row that was peeked. A failed `MarkFailed` is only logged.
  unfoldable pub handle : Round → Extraction → Db → Turn Db
  unfolding process
  handle r e db =
      if is_late s r.now e
      then again (mark_failed t r.stamp e.id expired (s.expiry_message e.created_at) db).1
      else after_claim r e (claim_pending t r.stamp e.id db)

  unfoldable pub peeked : Round → Db → Result (Option Extraction) → Turn Db
  unfolding handle
  peeked r db (err _) = leave peek_failed db
  peeked r db (ok none) = leave queue_empty db
  peeked r db (ok (some e)) = handle r e db

  -- One round of the loop of `drain`.
  unfoldable pub drain_round : Round → Db → Turn Db
  unfolding handle peeked
  drain_round r db =
      if r.cancelled then leave context_done db else peeked r db (peek_next_pending t codec db)

  unfoldable pub drain : List Round → Db → Stop × Db
  unfolding drain_round
  drain [] db = (unfinished, db)
  drain (r ∷ rs) db = elim (drain_round r db) [
    | leave stop db' ↦ (stop, db')
    | again db' ↦ drain rs db'
  ]
