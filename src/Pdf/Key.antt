-- ===== src/Pdf/Key.antt =====
-- The artifact key and its validation (internal/domain/pdf/model.go, errors.go, events.go).
use research_monitor.Base.{
  ℕ, Bool, true, false, ◌&&◌, ◌||◌, String, List, [], ◌∷◌, Option, none, some, any, ◌==◌,
  if◌then◌else◌,
}
use research_monitor.Fault.{Fault}
use research_monitor.Text.{codes, is_blank}

pub data PdfSentinel : Type 0 where
  invalid_key fetch_failed store_failed : PdfSentinel

abbrev pub is_invalid_key : PdfSentinel → Bool
is_invalid_key invalid_key = true
is_invalid_key _ = false

abbrev pub is_fetch_failed : PdfSentinel → Bool
is_fetch_failed fetch_failed = true
is_fetch_failed _ = false

abbrev pub is_store_failed : PdfSentinel → Bool
is_store_failed store_failed = true
is_store_failed _ = false

abbrev pub category_invalid_key : String
category_invalid_key = "invalid_key"

abbrev pub category_fetch : String
category_fetch = "fetch"

abbrev pub category_store : String
category_store = "store"

pub record Key : Type 0 where
  pub source_type : String
  pub source_id : String
  pub url : String

abbrev starts_dot : List ℕ → Bool
starts_dot [] = false
starts_dot (d ∷ _) = d == b'.'

-- `strings.Contains(s, "..")`
unfoldable pub has_dots : List ℕ → Bool
has_dots [] = false
has_dots (c ∷ cs) = c == b'.' && starts_dot cs || has_dots cs

-- `strings.ContainsAny(s, pathChars)`
abbrev pub is_path_char : ℕ → Bool
is_path_char c = c == b'/' || c == 0x5c

-- What `Validate` forbids in a path segment.
unfoldable pub is_traversal : String → Bool
unfolding has_dots
is_traversal s = has_dots (codes s) || any is_path_char (codes s)

abbrev pub key_fault : String → Option (Fault PdfSentinel)
key_fault message = some (record { wraps = invalid_key ∷ []; text = codes message })

-- `Key.Validate`; `none` is the nil error.
unfoldable pub validate : Key → Option (Fault PdfSentinel)
unfolding is_traversal is_blank
validate k =
    if is_blank k.source_type
    then key_fault "source type must not be empty: pdf: invalid key"
    else if is_blank k.source_id
    then key_fault "source id must not be empty: pdf: invalid key"
    else if is_blank k.url
    then key_fault "url must not be empty: pdf: invalid key"
    else if is_traversal k.source_type
    then key_fault
        "source type must not contain path separator or traversal characters: pdf: invalid key"
    else if is_traversal k.source_id
    then key_fault
        "source id must not contain path separator or traversal characters: pdf: invalid key"
    else none
