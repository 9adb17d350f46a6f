-- ===== src/Examples/Jobs.antt =====
-- The registry and the fetch, applied.
use Prim.Native.String.{[] as empty_text, ◌∷◌ as text_cons}
use research_monitor.Base.{
  ℕ, zero, suc, ap, eq_iff, Bool-cases, inl, inr, ◌≡◌, ◌<◌, refl, List, [], ◌∷◌, String, Option,
  none, some, false, arith, str_eq, any,
}
use research_monitor.Paper.{Entry}
use research_monitor.Paper.Catalogue.{Row, value, clash, save, list}
use research_monitor.Paper.Listing.{ListLaw, read_all, list_lem}
use research_monitor.Download.Types.{Request, JobSnapshot}
use research_monitor.Download.Job.{new_job, snapshot_for_job}
use research_monitor.Download.Registry.{
  Options, Registry, empty_registry, is_expired, lookup, schedule, sweep, snapshot,
}
use research_monitor.Download.Registry.Sweep.{Unique, SweptLaw, lookup-sweep}
use research_monitor.Download.Registry.Reachable.{
  scheduling, Requested, Runs, empty, after, Consistent, snapshot-Consistent,
}
use research_monitor.Arxiv.{entries_of, fetch}
use research_monitor.Arxiv.Fetching.{AreFresh}
use research_monitor.Arxiv.Scheduling.{registry_scheduler, FetchLaw, fetch_lem}
use research_monitor.Examples.Memory.{memory}
use research_monitor.Examples.Codecs.{list_codec}

abbrev options : Options
options = record { retention = 10; subscriber_buffer = 2 }

abbrev request : Request
request = record {
  paper_id = record { source = "arxiv"; source_id = "1"; version = "v1" };
  pdf_url = "http://x/1";
}

abbrev one_job : Registry
one_job = (schedule "j" (request ∷ []) empty_registry).0

one_job-Runs : Runs options one_job
one_job-Runs = after empty (scheduling "j" (request ∷ []) empty_registry)

one_job-Unique : Unique one_job.jobs
unfolding schedule
one_job-Unique = (refl, tt)

abbrev read_job : Option JobSnapshot → JobSnapshot
read_job none = snapshot_for_job (new_job "j" (request ∷ []))
read_job (some snap) = snap

lookup-sweep_example :
    SweptLaw options.retention 50 one_job.heap
      (lookup "j" one_job.jobs)
      (lookup "j" (sweep options 50 one_job).0.jobs)
    × ((sweep options 50 one_job).0.heap ≡ one_job.heap)
lookup-sweep_example = lookup-sweep options 50 "j" one_job one_job-Unique

one_job_read :
    (snapshot options 50 "j" one_job).1 ≡ some (snapshot_for_job (new_job "j" (request ∷ [])))
unfolding snapshot schedule is_expired
one_job_read = refl

snapshot-Consistent_example :
    Consistent (Requested one_job-Runs) "j" (snapshot_for_job (new_job "j" (request ∷ [])))
snapshot-Consistent_example = snapshot-Consistent options 50 "j" one_job-Runs one_job_read

abbrev paper : String → Entry
paper id = record {
  source = "arxiv";
  source_id = id;
  version = "v1";
  title = "T";
  authors = "A" ∷ ("B" ∷ []);
  abstract = "";
  primary_category = "cs.LG";
  categories = "cs.LG" ∷ [];
  submitted_at = 3;
  updated_at = 4;
  pdf_url = "http://x";
  abs_url = "";
}

abbrev one_row : List Row
one_row = (save (memory clash) list_codec "u0" 7 (paper "1") []).1

u1_unused : any (λ (r : Row). str_eq r.id "u1") one_row ≡ false
unfolding save
u1_unused = refl

list_lem_example :
    ListLaw list_codec one_row
      (read_all (memory clash) list_codec one_row)
      (list (memory clash) list_codec one_row)
list_lem_example = list_lem (memory clash) list_codec one_row

listed_one : list (memory clash) list_codec one_row ≡ value (paper "1" ∷ [])
unfolding list save
listed_one = refl

-- As many letters as the number says.
abbrev uuids : ℕ → String
uuids zero = empty_text
uuids (suc n) = text_cons "u" (uuids n)

abbrev text_size : String → ℕ
text_size empty_text = 0
text_size (text_cons c s) = suc (text_size s)

text_size-uuids : (n : ℕ) → text_size (uuids n) ≡ n
text_size-uuids zero = refl
text_size-uuids (suc n) = ap suc (text_size-uuids n)

uuids_apart : (i j : ℕ) → i < j → str_eq (uuids i) (uuids j) ≡ false
uuids_apart i j h = elim (Bool-cases (str_eq (uuids i) (uuids j))) [
  | inl same ↦
      let sizes = ap text_size ((eq_iff (uuids i) (uuids j)).0 same) in
      absurd (omega (arith, sizes, text_size-uuids i, text_size-uuids j))
  | inr differ ↦ differ
]

uuids_fresh : AreFresh uuids 0 []
uuids_fresh = record { unused = λ i h. refl; apart = uuids_apart }

fetch_lem_example :
    FetchLaw
      (memory clash)
      list_codec
      uuids
      (λ i. i)
      "j"
      (paper "1" ∷ (paper "2" ∷ (paper "1" ∷ [])))
      []
      empty_registry
      (fetch
        (memory clash)
        list_codec
        uuids
        (λ i. i)
        (registry_scheduler "j")
        (entries_of (paper "1" ∷ (paper "2" ∷ (paper "1" ∷ []))))
        []
        empty_registry)
fetch_lem_example =
    fetch_lem (memory clash) list_codec uuids (λ i. i) "j"
      (paper "1" ∷ (paper "2" ∷ (paper "1" ∷ []))) [] empty_registry uuids_fresh
