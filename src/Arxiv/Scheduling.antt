-- ===== src/Arxiv/Scheduling.antt =====
-- A fetch with the registry of download jobs as its scheduler.
use research_monitor.Base.{
  ℕ, suc, ◌≡◌, refl, ap, ◌∙◌, String, List, [], ◌∷◌, Option, some, map, length, count_if, arith,
}
use research_monitor.Sql.{Table}
use research_monitor.Paper.{PaperId, Entry, id_from_entry}
use research_monitor.Paper.Catalogue.{Row, ListCodec, clash}
use research_monitor.Download.Types.{Request, EntryResult, JobSnapshot, requests_from_entries}
use research_monitor.Download.Job.{new_job, pending_entries, build_snapshot}
use research_monitor.Download.Registry.{Registry, schedule}
use research_monitor.Arxiv.{
  SavedEntry, Loop, saved_all, aborted, Outcome, success, failure, persist, entries_of, LogLine,
  flag, new_entries, after_loop, save_all, fetch,
}
use research_monitor.Arxiv.Fetching.{AreFresh, Extends, Saved, LoopLaw, save_all_lem}

-- `Registry.Schedule` as the use case's `DownloadScheduler`.
unfoldable pub registry_scheduler : String → List Request → Registry → Option JobSnapshot × Registry
unfolding schedule
registry_scheduler id reqs r = (some (schedule id reqs r).1, (schedule id reqs r).0)

abbrev pub entry_of : SavedEntry → Entry
entry_of r = r.entry

length-new_entries : (rs : List SavedEntry) → length (new_entries rs) ≡ count_if flag rs
unfolding new_entries
length-new_entries [] = refl
length-new_entries (r ∷ rs) = ground (arith, length-new_entries rs)

length-requests : (es : List Entry) → length (requests_from_entries es) ≡ length es
unfolding requests_from_entries
length-requests [] = refl
length-requests (e ∷ es) = ap suc (length-requests es)

abbrev pub paper_of : EntryResult → PaperId
paper_of r = r.paper_id

pending-papers :
    (es : List Entry)
    → map paper_of (pending_entries (requests_from_entries es)) ≡ map id_from_entry es
unfolding requests_from_entries pending_entries
pending-papers [] = refl
pending-papers (e ∷ es) = ap (λ l. id_from_entry e ∷ l) (pending-papers es)

-- The job that the registry makes for the entries: one pending download for each, in order.
schedule-job :
    (id : String) (es : List Entry) (r : Registry)
    → let snap = (schedule id (requests_from_entries es) r).1 in
      (map paper_of snap.entries ≡ map id_from_entry es) × (snap.total ≡ length es)
unfolding schedule requests_from_entries build_snapshot new_job
schedule-job id [] r = (refl, refl)
schedule-job id (e ∷ es) r = (pending-papers (e ∷ es), ap suc (length-requests es))

module _ (t : Table Row clash) (codec : ListCodec) (uuids : ℕ → String) (stamps : ℕ → ℕ)
    (id : String) where
  open t use {Db, rows}

  -- What a fetch has done, by its outcome.
  abbrev pub FetchLaw : List Entry → Db → Registry → Outcome × Db × Registry × List LogLine → Type 0
  FetchLaw es db r (success res, db', r', _) =
      Saved (rows db) (rows db') es res.entries
      × (map paper_of res.job.entries ≡ map id_from_entry (new_entries res.entries))
      × (res.job.total ≡ count_if flag res.entries)
  FetchLaw es db r (failure e, db', r', _) = (e ≡ persist) × Extends (rows db) (rows db') × (r' ≡ r)

  after_loop-Law :
      (es : List Entry) (db : Db) (r : Registry) (n : ℕ) (out : Loop × Db)
      → LoopLaw (rows db) es out.0 (rows out.1)
      → FetchLaw es db r (after_loop t codec uuids stamps (registry_scheduler id) n r out)
  unfolding after_loop registry_scheduler
  after_loop-Law es db r n (saved_all rs, db') s =
      let (papers, total) = schedule-job id (new_entries rs) r in
      (s, papers, total ∙ length-new_entries rs)
  after_loop-Law es db r n (aborted e, db') grown = (refl, grown, refl)

  -- A fetch whose upstream answered, with fresh uuids. If it succeeds, its results are the fetched
  -- entries in order; the catalogue grew by one row for each that is new; every fetched key stands
  -- in it, and a new one stood in no row before; and the job has one download for each new entry, in
  -- order. If it fails, that is the error of a save; rows are only added, and nothing is scheduled.
  pub fetch_lem :
      (es : List Entry) (db : Db) (r : Registry)
      → AreFresh uuids 0 (rows db)
      → FetchLaw es db r (fetch t codec uuids stamps (registry_scheduler id) (entries_of es) db r)
  unfolding fetch
  fetch_lem es db r fresh =
      after_loop-Law es db r (length es) (save_all t codec uuids stamps 0 es db)
        (save_all_lem t codec uuids stamps 0 es db fresh)
