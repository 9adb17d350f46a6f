-- ===== src/Sources/Types.antt =====
-- The domain of sources: model.go, requests.go, responses.go, errors.go.
use research_monitor.Base.{
  ℕ, Bool, ◌||◌, String, List, [], Option, none, some, str_eq, map, if◌then◌else◌,
}
use research_monitor.Text.{codes, has_prefix, is_blank}
use research_monitor.Http.{GoError, new_http_error}

-- `Kind` is a text, which `Valid` bounds.
abbrev pub kind_is_valid : String → Bool
kind_is_valid k = str_eq k "rss" || str_eq k "api"

pub record Source : Type 0 where
  pub id : String
  pub name : String
  pub kind : String
  pub url : String
  pub is_active : Bool
  pub last_fetched_at : Option ℕ
  pub created_at : ℕ
  pub updated_at : ℕ

pub record CreateRequest : Type 0 where
  pub name : String
  pub kind : String
  pub url : String

pub record UpdateRequest : Type 0 where
  pub name : Option String
  pub is_active : Option Bool

-- The struct `Response`, with the fields of a source.
pub record SourceView : Type 0 where
  pub id : String
  pub name : String
  pub kind : String
  pub url : String
  pub is_active : Bool
  pub last_fetched_at : Option ℕ
  pub created_at : ℕ
  pub updated_at : ℕ

abbrev pub to_response : Source → SourceView
to_response s = record {
  id = s.id;
  name = s.name;
  kind = s.kind;
  url = s.url;
  is_active = s.is_active;
  last_fetched_at = s.last_fetched_at;
  created_at = s.created_at;
  updated_at = s.updated_at;
}

abbrev pub to_response_list : List Source → List SourceView
to_response_list ss = map to_response ss

-- The errors: a refused request with its message, the two sentinels, or an error of the driver.
pub data Failure : Type 0 where
  invalid : String → Failure
  not_found conflict storage : Failure

abbrev pub go_error : Failure → GoError
go_error (invalid message) = new_http_error 400 message []
go_error not_found = new_http_error 404 "source not found" []
go_error conflict = new_http_error 409 "source url already exists" []
go_error storage = []

pub data Result {ℓ} (A : Type ℓ) : Type ℓ where
  ok : A → Result A
  err : Failure → Result A

unfoldable pub url_is_valid : String → Bool
unfolding has_prefix
url_is_valid url =
    has_prefix (codes "http://") (codes url) || has_prefix (codes "https://") (codes url)

-- `CreateRequest.Validate`; `none` is the nil error.
unfoldable pub validate_create : CreateRequest → Option Failure
unfolding is_blank url_is_valid
validate_create r =
    if is_blank r.name
    then some (invalid "name is required")
    else if kind_is_valid r.kind
    then if url_is_valid r.url
      then none
      else some (invalid "url must start with http:// or https://")
    else some (invalid "kind must be 'rss' or 'api'")

abbrev pub checked_name : Option String → Option Failure
unfolding is_blank
checked_name none = none
checked_name (some name) = if is_blank name then some (invalid "name cannot be empty") else none

-- `UpdateRequest.Validate`
unfoldable pub validate_update : UpdateRequest → Option Failure
unfolding is_blank
validate_update r = checked_name r.name
