-- ===== src/Arxiv/Fetcher.antt =====
-- The fetcher of arXiv (internal/infrastructure/arxiv/fetcher.go) over the client of bytes
-- (internal/infrastructure/httpclient: byte_fetcher.go, errors.go). `net/http` and the check of
-- `url.Parse` are parameters; the headers of the request are part of what the first is given.
pub mod Answers
use Prim.Native.String
use research_monitor.Base.{
  ℕ, zero, suc, ◌/◌, ◌%◌, Bool, true, false, ◌&&◌, String, List, [], ◌∷◌, Option, none, some, leb,
  map, if◌then◌else◌,
}
use research_monitor.Paper.{Entry}
use research_monitor.Arxiv.{
  Upstream, bad_status, malformed, unavailable, Fetched, entries_of, upstream_error,
}
use research_monitor.Arxiv.Feed.{XmlEntry, join, parse_feed}

-- What the standard library's errors can be asked for.
pub data NetError : Type 0 where
  deadline_exceeded canceled net_timeout url_error other_error : NetError

-- `IsTransportError`
unfoldable pub is_transport_error : NetError → Bool
is_transport_error other_error = false
is_transport_error _ = true

-- What a GET request comes to: an error of `NewRequestWithContext` or of `Do`, or a status with the
-- body, or the error of reading it.
pub data Reply : Type 0 where
  no_reply : NetError → Reply
  status_and_body : ℕ → List ℕ → Reply
  status_and_error : ℕ → NetError → Reply

-- `ErrBadStatus` with the status, or an error of the standard library.
pub data ClientError : Type 0 where
  status_error : ℕ → ClientError
  net_error : NetError → ClientError

pub data FetchedBytes : Type 0 where
  body : List ℕ → FetchedBytes
  unfetched : ClientError → FetchedBytes

pub record Get : Type 0 where
  pub url : String
  pub user_agent : String
  pub accept : String

abbrev pub is_2xx : ℕ → Bool
is_2xx code = leb 200 code && leb code 299

abbrev pub from_reply : Reply → FetchedBytes
from_reply (no_reply e) = unfetched (net_error e)
from_reply (status_and_body code bytes) =
    if is_2xx code then body bytes else unfetched (status_error code)
from_reply (status_and_error code e) =
    if is_2xx code then unfetched (net_error e) else unfetched (status_error code)

-- `byteFetcher.Fetch`
unfoldable pub fetch_bytes : (Get → Reply) → String → String → FetchedBytes
fetch_bytes http user_agent url =
    from_reply (http (record { url = url; user_agent = user_agent; accept = "*/*" }))

-- `translateTransportError`
unfoldable pub translate_transport_error : ClientError → Upstream
unfolding is_transport_error
translate_transport_error (status_error code) = bad_status
translate_transport_error (net_error e) = if is_transport_error e then unavailable else unavailable

abbrev pub digit_text : ℕ → String
digit_text zero = "0"
digit_text (suc zero) = "1"
digit_text (suc (suc zero)) = "2"
digit_text (suc (suc (suc zero))) = "3"
digit_text (suc (suc (suc (suc zero)))) = "4"
digit_text (suc (suc (suc (suc (suc zero))))) = "5"
digit_text (suc (suc (suc (suc (suc (suc zero)))))) = "6"
digit_text (suc (suc (suc (suc (suc (suc (suc zero))))))) = "7"
digit_text (suc (suc (suc (suc (suc (suc (suc (suc zero)))))))) = "8"
digit_text _ = "9"

-- `strconv.Itoa` of a number that is not negative; a number is enough fuel for itself.
unfoldable pub itoa_from : ℕ → ℕ → String
itoa_from zero n = digit_text (n % 10)
itoa_from (suc fuel) n =
    let front = itoa_from fuel (n / 10) in
    if leb 10 n then String.◌++◌ front (digit_text (n % 10)) else digit_text n

abbrev pub category_term : String → String
category_term c = String.◌++◌ "cat:" c

-- `buildSearchQuery`
unfoldable pub build_search_query : List String → String
unfolding join
build_search_query [] = ""
build_search_query (c ∷ []) = category_term c
build_search_query (c ∷ (d ∷ cs)) =
    String.◌++◌ "%28" (String.◌++◌ (join "+OR+" (map category_term (c ∷ (d ∷ cs)))) "%29")

-- `values.Encode()`: the keys in their order; no value has a character to escape.
abbrev pub encoded : ℕ → String
unfolding itoa_from
encoded max_results =
    String.◌++◌ "max_results="
      (String.◌++◌ (itoa_from max_results max_results) "&sortBy=submittedDate&sortOrder=descending")

-- The struct `Query` of domain/paper.
pub record Query : Type 0 where
  pub categories : List String
  pub max_results : ℕ

-- `buildArxivURL`
unfoldable pub build_arxiv_url : (String → Bool) → String → Query → Option String
unfolding build_search_query encoded
build_arxiv_url parses base q =
    if parses base
    then some (
        String.◌++◌ base (
          String.◌++◌ "?search_query=" (
            String.◌++◌ (build_search_query q.categories)
              (String.◌++◌ "&" (encoded q.max_results)))))
    else none

module _ (parse_time : String → Option ℕ) (decode : List ℕ → Option (List XmlEntry)) where
  abbrev pub of_feed : Option (List Entry) → Fetched
  of_feed none = upstream_error malformed
  of_feed (some es) = entries_of es

  abbrev pub of_bytes : FetchedBytes → Fetched
  unfolding parse_feed translate_transport_error
  of_bytes (body bytes) = of_feed (parse_feed parse_time decode bytes)
  of_bytes (unfetched e) = upstream_error (translate_transport_error e)

  abbrev pub of_url : (String → FetchedBytes) → Option String → Fetched
  unfolding of_bytes
  of_url client none = upstream_error unavailable
  of_url client (some url) = of_bytes (client url)

  -- `arxivFetcher.Fetch`
  unfoldable pub fetch_upstream :
      (String → Bool) → String → (String → FetchedBytes) → Query → Fetched
  unfolding build_arxiv_url of_url
  fetch_upstream parses base client q = of_url client (build_arxiv_url parses base q)
