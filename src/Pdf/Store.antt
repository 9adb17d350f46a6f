-- ===== src/Pdf/Store.antt =====
-- The store on the local file system (internal/infrastructure/pdf/local/store.go). The disk is the
-- content of each file. What the operating system, the fetcher and the context answer in one call
-- is a record; the duration in a log line is left out, and an error is the sentinels it wraps.
use research_monitor.Base.{
  ℕ, Bool, true, false, String, List, [], ◌∷◌, ◌++◌, Option, none, some, length, take,
  if◌then◌else◌,
}
use research_monitor.Fault.{Fault}
use research_monitor.Text.{codes, is_empty}
use research_monitor.Pdf.Key.{
  PdfSentinel, fetch_failed, store_failed, category_invalid_key, category_fetch, category_store,
  Key, validate,
}
use research_monitor.Pdf.Path.{same_path, join}

abbrev pub Disk : Type 0
Disk = List (List ℕ) → Option (List ℕ)

abbrev pub write_file : List (List ℕ) → List ℕ → Disk → Disk
write_file path body disk q = if same_path path q then some body else disk q

abbrev pub remove_file : List (List ℕ) → Disk → Disk
remove_file path disk q = if same_path path q then none else disk q

pub data Download : Type 0 where
  body_of : List ℕ → Download
  fetch_error : List PdfSentinel → Download

pub record World : Type 0 where
  pub stat_works : Bool
  pub mkdir_works : Bool
  pub fetch : String → Download
  pub cancelled : Bool
  -- The random part of the temporary name, if `CreateTemp` works.
  pub temp : Option (List ℕ)
  -- How many bytes were written before the write failed, if it failed.
  pub write_fails_after : Option ℕ
  pub close_works : Bool
  pub rename_works : Bool
  pub remove_works : Bool

pub data LogLine : Type 0 where
  cache_hit : ℕ → LogLine
  fetched : ℕ → LogLine
  failed : String → LogLine

-- The locator's path, or what the error wraps.
pub data Ensured : Type 0 where
  located : List (List ℕ) → Ensured
  failure : List PdfSentinel → Ensured

unfoldable pub parent_path : List (List ℕ) → Key → List (List ℕ)
unfolding join
parent_path root key = join root (codes key.source_type)

-- `canonicalPath`
unfoldable pub canonical_path : List (List ℕ) → Key → List (List ℕ)
unfolding parent_path join
canonical_path root key = join (parent_path root key) (codes key.source_id ++ codes ".pdf")

-- The name that `CreateTemp` makes in the parent.
unfoldable pub temp_path : List (List ℕ) → Key → List ℕ → List (List ℕ)
unfolding parent_path
temp_path root key random =
    parent_path root key
    ++ (codes key.source_id ++ (codes "." ++ (random ++ codes ".pdf.tmp"))) ∷ []

-- `os.Stat` finds a file that is not empty.
abbrev pub cached : Bool → Option (List ℕ) → Option ℕ
cached false _ = none
cached true none = none
cached true (some body) = if is_empty body then none else some (length body)

abbrev pub fail_store : Disk → List PdfSentinel → Ensured × Disk × List LogLine
fail_store disk causes = (failure (store_failed ∷ causes), disk, failed category_store ∷ [])

abbrev pub fail_fetch : Disk → List PdfSentinel → Ensured × Disk × List LogLine
fail_fetch disk causes = (failure (fetch_failed ∷ causes), disk, failed category_fetch ∷ [])

abbrev pub discard : World → List (List ℕ) → Disk → Disk
discard w tmp disk = if w.remove_works then remove_file tmp disk else disk

-- The renaming of the written temporary file, and what follows it.
unfoldable pub publish :
    World → List (List ℕ) → List (List ℕ) → List ℕ → Disk → Ensured × Disk × List LogLine
publish w tmp canonical body disk =
    if w.rename_works
    then (
      located canonical,
      write_file canonical body (remove_file tmp disk),
      fetched (length body) ∷ [],
    )
    else fail_store (discard w tmp disk) []

-- From the write to the temporary file on.
unfoldable pub fill :
    World → List (List ℕ) → List (List ℕ) → List ℕ → Disk → Option ℕ → Ensured × Disk × List LogLine
unfolding publish
fill w tmp canonical body disk (some n) =
    fail_store (discard w tmp (write_file tmp (take n body) disk)) []
fill w tmp canonical body disk none =
    let full = write_file tmp body disk in
    if w.close_works then publish w tmp canonical body full else fail_store (discard w tmp full) []

-- From `CreateTemp` on.
unfoldable pub store_body :
    World → List (List ℕ) → Key → List ℕ → Disk → Option (List ℕ) → Ensured × Disk × List LogLine
unfolding temp_path canonical_path fill
store_body w root key body disk none = fail_store disk []
store_body w root key body disk (some random) =
    let tmp = temp_path root key random in
    fill w tmp (canonical_path root key) body (write_file tmp [] disk) w.write_fails_after

-- From the fetcher's answer on.
unfoldable pub receive_body :
    World → List (List ℕ) → Key → Disk → Download → Ensured × Disk × List LogLine
unfolding store_body
receive_body w root key disk (fetch_error causes) = fail_fetch disk causes
receive_body w root key disk (body_of body) =
    if is_empty body
    then fail_fetch disk []
    else if w.cancelled
    then fail_store disk []
    else store_body w root key body disk w.temp

-- The part of `Ensure` after the validation.
unfoldable pub ensure_valid :
    World → List (List ℕ) → Key → Disk → Option ℕ → Ensured × Disk × List LogLine
unfolding receive_body canonical_path
ensure_valid w root key disk (some size) =
    (located (canonical_path root key), disk, cache_hit size ∷ [])
ensure_valid w root key disk none =
    if w.mkdir_works then receive_body w root key disk (w.fetch key.url) else fail_store disk []

unfoldable pub checked_key :
    World → List (List ℕ) → Key → Disk → Option (Fault PdfSentinel) → Ensured × Disk × List LogLine
unfolding ensure_valid canonical_path
checked_key w root key disk (some f) = (failure f.wraps, disk, failed category_invalid_key ∷ [])
checked_key w root key disk none =
    ensure_valid w root key disk (cached w.stat_works (disk (canonical_path root key)))

-- `Ensure`
unfoldable pub ensure : World → List (List ℕ) → Key → Disk → Ensured × Disk × List LogLine
unfolding validate checked_key
ensure w root key disk = checked_key w root key disk (validate key)
