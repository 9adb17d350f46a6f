-- ===== src/Examples/Atom.antt =====
-- A feed of one entry, fetched.
use research_monitor.Base.{
  ℕ, ◌≡◌, refl, ◌⊎◌, Bool, true, false, String, List, [], ◌∷◌, Option, none, some, str_eq,
  if◌then◌else◌,
}
use Prim.Native.String
use research_monitor.Arxiv.{upstream_error, unavailable}
use research_monitor.Arxiv.Feed.{
  XmlEntry, split_abs_id, abs_prefix, trim_space, parse_entry, normalize_space, pick_pdf_link,
}
use research_monitor.Arxiv.Feed.Splitting.{split_abs_id_round_trip}
use research_monitor.Arxiv.Fetcher.{
  Get, Reply, status_and_body, Query, build_arxiv_url, fetch_bytes, fetch_upstream,
}
use research_monitor.Arxiv.Fetcher.Answers.{AnswerLaw, fetch_upstream_lem}

split_abs_id_round_trip_example :
    split_abs_id (String.◌++◌ abs_prefix (String.◌++◌ "2404.12345" "v12")) ≡ ("2404.12345", "v12")
split_abs_id_round_trip_example = split_abs_id_round_trip "2404.12345" "v12" refl (refl, refl, refl)

-- An id of the old style, with white space and without a version.
old_style : split_abs_id "  http://arxiv.org/abs/cs.LV/0112017\n" ≡ ("cs.LV/0112017", "")
unfolding split_abs_id
old_style = refl

abbrev item : XmlEntry
item = record {
  id = "http://arxiv.org/abs/2404.1v2";
  title = " On\n  Types ";
  summary = "A b";
  published = "t1";
  updated = "";
  authors = " A " ∷ [];
  links =
      (record { href = "u"; rel = "alternate"; mime = ""; title = "" })
      ∷ (record { href = "p"; rel = "related"; mime = ""; title = "pdf" })
      ∷ [];
  primary_category = "cs.LO";
  categories = "cs.LO" ∷ [];
}

abbrev times : String → Option ℕ
times s = if str_eq s "t1" then some 5 else none

abbrev feed : List ℕ → Option (List XmlEntry)
feed bytes = some (item ∷ [])

abbrev online : Get → Reply
online g = status_and_body 200 []

abbrev query : Query
query = record { categories = "cs.LG" ∷ ("cs.LO" ∷ []); max_results = 25 }

parsed_item :
    parse_entry times item
    ≡ some (record {
      source = "arxiv";
      source_id = "2404.1";
      version = "v2";
      title = "On Types";
      authors = "A" ∷ [];
      abstract = "A b";
      primary_category = "cs.LO";
      categories = "cs.LO" ∷ [];
      submitted_at = 5;
      updated_at = 0;
      pdf_url = "p";
      abs_url = "http://arxiv.org/abs/2404.1v2";
    })
unfolding parse_entry split_abs_id normalize_space trim_space pick_pdf_link
parsed_item = refl

asked :
    build_arxiv_url (λ s. true) "http://x" query
    ≡ some
        "http://x?search_query=%28cat:cs.LG+OR+cat:cs.LO%29&max_results=25&sortBy=submittedDate&sortOrder=descending"
unfolding build_arxiv_url
asked = refl

fetch_upstream_lem_example :
    let answer =
      fetch_upstream times feed (λ s. true) "http://x" (fetch_bytes online "agent") query in
    (◌≡◌ {A = Bool} true false × (answer ≡ upstream_error unavailable))
    ⊎ ((url : String) × (build_arxiv_url (λ s. true) "http://x" query ≡ some url)
        × AnswerLaw times feed
            (online (record { url = url; user_agent = "agent"; accept = "*/*" }))
            answer)
fetch_upstream_lem_example =
    fetch_upstream_lem times feed (λ s. true) "http://x" "agent" online query
