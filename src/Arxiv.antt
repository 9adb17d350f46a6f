-- ===== src/Arxiv.antt =====
-- The fetch of arXiv papers (internal/application/arxiv/usecase.go). The fetcher's answer, the fresh
-- uuids and the clock readings, one for each entry, and the scheduler are parameters; an error is
-- told by its sentinel.
pub mod Feed
pub mod Fetcher
pub mod Fetching
pub mod Scheduling
use research_monitor.Base.{
  ℕ, suc, Bool, true, false, String, List, [], ◌∷◌, Option, none, some, length, count_if,
  if◌then◌else◌,
}
use research_monitor.Sql.{Table}
use research_monitor.Paper.{Entry}
use research_monitor.Paper.Catalogue.{
  Row, ListCodec, Answer, value, not_found, catalogue_unavailable, clash, save,
}
use research_monitor.Download.Types.{Request, JobSnapshot, requests_from_entries}
use research_monitor.Download.Registry.{zero_snapshot}

-- The struct `Result`.
pub record SavedEntry : Type 0 where
  pub entry : Entry
  pub is_new : Bool

pub record FetchResult : Type 0 where
  pub entries : List SavedEntry
  pub job : JobSnapshot

-- The upstream sentinels of domain/paper/errors.go, and any other error.
pub data Upstream : Type 0 where
  bad_status malformed unavailable unknown : Upstream

-- `classify`
unfoldable pub category : Upstream → String
category bad_status = "bad_status"
category malformed = "malformed"
category unavailable = "unavailable"
category unknown = "unknown"

pub data Fetched : Type 0 where
  entries_of : List Entry → Fetched
  upstream_error : Upstream → Fetched

pub data FetchError : Type 0 where
  upstream : Upstream → FetchError
  persist : FetchError

pub data Outcome : Type 0 where
  success : FetchResult → Outcome
  failure : FetchError → Outcome

pub data LogLine : Type 0 where
  fetch_failed : String → LogLine
  persist_failed : String → LogLine
  fetch_ok : ℕ → ℕ → ℕ → LogLine
  schedule_failed : LogLine

-- What the loop leaves: all results, or the entry whose `Save` failed.
pub data Loop : Type 0 where
  saved_all : List SavedEntry → Loop
  aborted : Entry → Loop

abbrev pub flag : SavedEntry → Bool
flag r = r.is_new

-- `newEntries`
unfoldable pub new_entries : List SavedEntry → List Entry
new_entries [] = []
new_entries (r ∷ rs) = let rest = new_entries rs in if r.is_new then r.entry ∷ rest else rest

abbrev pub with_result : Entry → Bool → Loop → Loop
with_result e is_new (saved_all rs) = saved_all ((record { entry = e; is_new = is_new }) ∷ rs)
with_result e is_new (aborted bad) = aborted bad

module _ (t : Table Row clash) (codec : ListCodec) (uuids : ℕ → String) (stamps : ℕ → ℕ) where
  open t use {Db}

  -- One turn of the loop, given what the rest of it does.
  abbrev pub continue : Entry → Answer Bool × Db → (Db → Loop × Db) → Loop × Db
  continue e (value is_new, db) rest = (with_result e is_new (rest db).0, (rest db).1)
  continue e (not_found, db) rest = (aborted e, db)
  continue e (catalogue_unavailable, db) rest = (aborted e, db)

  -- The loop over the entries; the number counts those before.
  unfoldable pub save_all : ℕ → List Entry → Db → Loop × Db
  unfolding save
  save_all k [] db = (saved_all [], db)
  save_all k (e ∷ es) db =
      continue e (save t codec (uuids k) (stamps k) e db) (λ db'. save_all (suc k) es db')

  module _ {S : Type 0} (scheduler : List Request → S → Option JobSnapshot × S) where
    abbrev pub scheduled :
        List SavedEntry
        → Db
        → List LogLine
        → Option JobSnapshot × S
        → Outcome × Db × S × List LogLine
    scheduled rs db lines (some snapshot, s) =
        (success (record { entries = rs; job = snapshot }), db, s, lines)
    scheduled rs db lines (none, s) =
        (success (record { entries = rs; job = zero_snapshot }), db, s, schedule_failed ∷ lines)

    abbrev pub after_loop : ℕ → S → Loop × Db → Outcome × Db × S × List LogLine
    unfolding new_entries requests_from_entries
    after_loop count s (aborted e, db) = (failure persist, db, s, persist_failed e.source_id ∷ [])
    after_loop count s (saved_all rs, db) =
        let news = count_if flag rs in
        let skipped = count_if (λ r. if flag r then false else true) rs in
        scheduled rs db (fetch_ok count news skipped ∷ [])
          (scheduler (requests_from_entries (new_entries rs)) s)

    -- `Fetch`; the log lines stand latest first.
    unfoldable pub fetch : Fetched → Db → S → Outcome × Db × S × List LogLine
    unfolding save_all category
    fetch (upstream_error u) db s = (failure (upstream u), db, s, fetch_failed (category u) ∷ [])
    fetch (entries_of es) db s = after_loop (length es) s (save_all 0 es db)
