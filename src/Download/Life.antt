-- ===== src/Download/Life.antt =====
-- The goroutines around one job, as a step relation: the worker's next section, a `Subscribe`, and
-- a client that receives from its channel, in any order. Reading a snapshot changes nothing.
use research_monitor.Base.{
  ℕ, suc, ◌≡◌, List, [], ◌∷◌, Option, none, some, String, get_elem?, set, ◌>>=◌,
}
use research_monitor.Pdf.Key.{Key}
use research_monitor.Download.Types.{Request}
use research_monitor.Download.Stream.{Stream, receive}
use research_monitor.Download.Job.{Job, new_job, attach}
use research_monitor.Download.Worker.{Ensured, Life, launch, worker_step}

abbrev pub receive_found : ℕ → Job → Option Stream → Job
receive_found k j none = j
receive_found k j (some s) = record j { streams = set j.streams k (receive s) }

-- The client of channel `k` receives.
unfoldable pub receive_at : ℕ → Job → Job
receive_at k j = receive_found k j (get_elem? j.streams k)

pub data Step (cap : ℕ) : Life → Life → Type 0 where
  work :
      {l l' : Life} (ensure : Key → Ensured) (now : ℕ)
      → worker_step ensure now l ≡ some l'
      → Step cap l l'
  subscribe : (l : Life) → Step cap l (record l { job = attach cap l.job })
  read : (l : Life) (k : ℕ) → Step cap l (record l { job = receive_at k l.job })

-- What can come of a job that was registered with these requests.
pub data Reach (cap : ℕ) (id : String) (requests : List Request) : Life → Type 0 where
  here : Reach cap id requests (launch (new_job id requests))
  next : {l l' : Life} → Reach cap id requests l → Step cap l l' → Reach cap id requests l'

-- An explicit schedule of the goroutines.
pub data Move : Type 0 where
  section : (Key → Ensured) → ℕ → Move
  client : Move
  receipt : ℕ → Move

unfoldable pub move : ℕ → Move → Life → Option Life
move cap (section ensure now) l = worker_step ensure now l
move cap client l = some (record l { job = attach cap l.job })
move cap (receipt k) l = some (record l { job = receive_at k l.job })

-- `none` if the worker panics on the way.
unfoldable pub drive : ℕ → List Move → Life → Option Life
drive cap [] l = some l
drive cap (m ∷ ms) l = do l' ← move cap m l; drive cap ms l'

-- How often the worker is scheduled.
abbrev pub sections : List Move → ℕ
sections [] = 0
sections (section _ _ ∷ ms) = suc (sections ms)
sections (_ ∷ ms) = sections ms
