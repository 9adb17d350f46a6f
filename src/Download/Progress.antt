-- ===== src/Download/Progress.antt =====
-- The invariant of a job while its worker runs.
use research_monitor.Base.{
  ℕ, zero, suc, ◌≤◌, ◌≡◌, refl, sym, ap, Bool, true, false, ◌||◌, String, List, [], ◌∷◌, ◌++◌, some,
  length, get_elem?, map, length-map, take, drop, drop-suc, all, arith,
}
use research_monitor.Paper.{PaperId}
use research_monitor.Pdf.Key.{Key}
use research_monitor.Download.Types.{Request, EntryResult, progress, summary}
use research_monitor.Download.Job.{
  Job, pending_entries, new_job, is_success, is_failed, snapshot_for_job,
}
use research_monitor.Download.Worker.{
  Ensured, run_entry, Life, launch, Counter, starting, at_entry, returned,
}
use research_monitor.Download.Delivery.{Sound}

abbrev pub is_settled : EntryResult → Bool
is_settled e = is_success e.status || is_failed e.status

abbrev pub entry_ids : List EntryResult → List PaperId
entry_ids es = map (λ e. e.paper_id) es

abbrev pub request_ids : List Request → List PaperId
request_ids rs = map (λ r. r.paper_id) rs

abbrev pub HasChannels : Job → Type 0
HasChannels j = Sound j.events j.subscribers j.streams j.completed

-- What the job keeps from its registration on.
pub record Registered (id : String) (requests : List Request) (j : Job) : Type 0 where
  pub same_id : j.id ≡ id
  pub same_requests : j.requests ≡ requests
  pub total : j.total ≡ length requests
  pub ids : entry_ids j.entries ≡ request_ids requests
  pub channels : Sound j.events j.subscribers j.streams j.completed

-- The first `i` entries are done.
pub record Running (i : ℕ) (j : Job) : Type 0 where
  pub in_range : i ≤ length j.requests
  pub logged : j.events ≡ map (progress j.id) (take i j.entries)
  pub unfinished : j.completed ≡ false
  pub waiting : drop i j.entries ≡ pending_entries (drop i j.requests)
  pub settled : all is_settled (take i j.entries) ≡ true

-- The worker has returned.
pub record Ended (j : Job) : Type 0 where
  pub logged : j.events ≡ map (progress j.id) j.entries ++ summary j.id (snapshot_for_job j) ∷ []
  pub finished : j.completed ≡ true
  pub settled : all is_settled j.entries ≡ true

abbrev pub Progress : Counter → Job → Type 0
Progress starting j = Running 0 j
Progress (at_entry i) j = Running i j
Progress returned j = Ended j

pub record Lives (id : String) (requests : List Request) (l : Life) : Type 0 where
  pub registered : Registered id requests l.job
  pub progress : Progress l.counter l.job

entry_ids-pending : (rs : List Request) → entry_ids (pending_entries rs) ≡ request_ids rs
unfolding pending_entries
entry_ids-pending [] = refl
entry_ids-pending (r ∷ rs) = ap (λ l. r.paper_id ∷ l) (entry_ids-pending rs)

pub launch-Lives : (id : String) (rs : List Request) → Lives id rs (launch (new_job id rs))
unfolding new_job
launch-Lives id rs = record {
  registered = record {
    same_id = refl;
    same_requests = refl;
    total = refl;
    ids = entry_ids-pending rs;
    channels = record {
      distinct = tt;
      known = λ k m. absurd (cc);
      delivered = λ k s e. absurd (cc);
      bounded = λ k s e. absurd (cc);
    };
  };
  progress = record {
    in_range = omega arith;
    logged = refl;
    unfinished = refl;
    waiting = refl;
    settled = refl;
  };
}

pub run_entry-settled :
    (ensure : Key → Ensured) (now : ℕ) (req : Request)
    → is_settled (run_entry ensure now req) ≡ true
unfolding run_entry
run_entry-settled ensure now req = ground arith

pub run_entry-id :
    (ensure : Key → Ensured) (now : ℕ) (req : Request)
    → (run_entry ensure now req).paper_id ≡ req.paper_id
unfolding run_entry
run_entry-id ensure now req = ground arith

pending-drop : (rs : List Request) → pending_entries (drop 1 rs) ≡ drop 1 (pending_entries rs)
unfolding pending_entries
pending-drop [] = refl
pending-drop (r ∷ rs) = refl

pub drop-waiting :
    (i : ℕ) (es : List EntryResult) (rs : List Request)
    → drop i es ≡ pending_entries (drop i rs)
    → drop (suc i) es ≡ pending_entries (drop (suc i) rs)
drop-waiting i es rs h = rw (drop-suc i es, drop-suc i rs, h) (sym (pending-drop (drop i rs)))

pub length-entries :
    {id : String} {rs : List Request} {j : Job} → Registered id rs j → length j.entries ≡ length rs
length-entries {rs = rs} {j = j} h = omega (
  arith,
  length-map (λ (e : EntryResult). e.paper_id) j.entries,
  length-map (λ (r : Request). r.paper_id) rs,
  ap length h.ids,
)

pub get_elem?-map {ℓ κ} :
    {A : Type ℓ} {B : Type κ} (f : A → B) (xs : List A) (i : ℕ) {x : A}
    → get_elem? xs i ≡ some x
    → get_elem? (map f xs) i ≡ some (f x)
get_elem?-map f [] i h = absurd (ground arith)
get_elem?-map f (x ∷ xs) zero h = ground arith
get_elem?-map f (x ∷ xs) (suc i) h = get_elem?-map f xs i h
