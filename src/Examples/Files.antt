-- ===== src/Examples/Files.antt =====
-- The store of PDF files and the sanitised descriptions, applied.
use research_monitor.Base.{ℕ, ◌≡◌, ◌⊎◌, refl, List, [], ◌∷◌, ◌++◌, none, some, true, false}
use research_monitor.Text.{codes}
use research_monitor.Pdf.Key.{Key, validate}
use research_monitor.Pdf.Path.{dot}
use research_monitor.Pdf.Store.{Disk, body_of, World, located, ensure, canonical_path}
use research_monitor.Pdf.Confined.{canonical-below}
use research_monitor.Pdf.Publishing.{PublishLaw, scratch_path, ensure_publishes, ensure_again}

abbrev root : List (List ℕ)
root = codes "srv" ∷ codes "pdf" ∷ []

abbrev key : Key
key = record { source_type = "arxiv"; source_id = "2404.1v1"; url = "http://x" }

abbrev empty_disk : Disk
empty_disk _ = none

-- Everything works, and two bytes come.
abbrev world : World
world = record {
  stat_works = true;
  mkdir_works = true;
  fetch = λ _. body_of (7 ∷ 8 ∷ []);
  cancelled = false;
  temp = some (codes "91");
  write_fails_after = none;
  close_works = true;
  rename_works = true;
  remove_works = true;
}

-- The disk fills up after one byte.
abbrev full_world : World
full_world = record world { write_fails_after = some 1 }

key_valid : validate key ≡ none
unfolding validate
key_valid = refl

first_call : (ensure world root key empty_disk).0 ≡ located (canonical_path root key)
unfolding ensure canonical_path
first_call = refl

ensure_publishes_example :
    let out = ensure world root key empty_disk in
    PublishLaw
      (body_of (7 ∷ 8 ∷ []))
      (scratch_path world root key)
      (canonical_path root key)
      empty_disk
      out.0
      out.1
ensure_publishes_example = ensure_publishes world root key empty_disk

ensure_again_example :
    let after = (ensure world root key empty_disk).1 in
    ((ensure full_world root key after).0 ≡ located (canonical_path root key))
    × ((ensure full_world root key after).1 ≡ after)
ensure_again_example =
    ensure_again world full_world root key empty_disk (canonical_path root key) first_call refl

canonical-below_example :
    (canonical_path root key ≡ root ++ (codes "arxiv" ∷ (codes "2404.1v1" ++ codes ".pdf") ∷ []))
    ⊎ ((codes "arxiv" ≡ dot)
        × (canonical_path root key ≡ root ++ (codes "2404.1v1" ++ codes ".pdf") ∷ []))
canonical-below_example = canonical-below root key key_valid
