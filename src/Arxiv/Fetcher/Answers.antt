-- ===== src/Arxiv/Fetcher/Answers.antt =====
-- How a fetch of arXiv is answered: one sentinel for each kind of failure, and no other error.
use research_monitor.Base.{
  ℕ, ◌≤◌, ◌<◌, ltb, arith, ◌≡◌, refl, ◌⊎◌, inl, inr, Bool, true, false, String, List, Option, none,
  some, Bool-cases,
}
use research_monitor.Paper.{Entry}
use research_monitor.Arxiv.{bad_status, malformed, unavailable, Fetched, entries_of, upstream_error}
use research_monitor.Arxiv.Feed.{XmlEntry}
use research_monitor.Arxiv.Feed.Parsing.{
  FeedLaw, ParsedAll, parsed, undecoded, refused, parse_feed_lem,
}
use research_monitor.Arxiv.Fetcher.{
  NetError, is_transport_error, Reply, no_reply, status_and_body, status_and_error, net_error, Get,
  is_2xx, from_reply, fetch_bytes, translate_transport_error, Query, build_arxiv_url, of_feed,
  of_bytes, of_url, fetch_upstream,
}

-- The classes of a status.
abbrev pub Is2xx : ℕ → Type 0
Is2xx code = (200 ≤ code) × (code < 300)

abbrev pub IsNot2xx : ℕ → Type 0
IsNot2xx code = (code < 200) ⊎ (300 ≤ code)

is_2xx-Is2xx : (code : ℕ) → is_2xx code ≡ true → Is2xx code
is_2xx-Is2xx code good = (ground arith, ground arith)

is_2xx-IsNot2xx : (code : ℕ) → is_2xx code ≡ false → IsNot2xx code
is_2xx-IsNot2xx code bad = elim (Bool-cases (ltb code 200)) [
  | inl low ↦ inl (ground arith)
  | inr high ↦ inr (ground arith)
]

module _ (parse_time : String → Option ℕ) (decode : List ℕ → Option (List XmlEntry)) where
  -- The answer, by what the request came to.
  pub data AnswerLaw : Reply → Fetched → Type 0 where
    delivered :
        {bytes : List ℕ} {code : ℕ} {es : List Entry} (xs : List XmlEntry)
        → Is2xx code
        → decode bytes ≡ some xs
        → ParsedAll parse_time xs es
        → AnswerLaw (status_and_body code bytes) (entries_of es)
    not_a_feed :
        {bytes : List ℕ} {code : ℕ}
        → Is2xx code
        → FeedLaw parse_time (decode bytes) none
        → AnswerLaw (status_and_body code bytes) (upstream_error malformed)
    rejected :
        {bytes : List ℕ} {code : ℕ}
        → IsNot2xx code
        → AnswerLaw (status_and_body code bytes) (upstream_error bad_status)
    rejected_unread :
        {e : NetError} {code : ℕ}
        → IsNot2xx code
        → AnswerLaw (status_and_error code e) (upstream_error bad_status)
    cut_off :
        {e : NetError} {code : ℕ}
        → Is2xx code
        → AnswerLaw (status_and_error code e) (upstream_error unavailable)
    unreached : {e : NetError} → AnswerLaw (no_reply e) (upstream_error unavailable)

  body-AnswerLaw :
      (code : ℕ) (bytes : List ℕ) {o : Option (List Entry)}
      → Is2xx code
      → FeedLaw parse_time (decode bytes) o
      → AnswerLaw (status_and_body code bytes) (of_feed parse_time decode o)
  body-AnswerLaw code bytes good (parsed xs same all) = delivered xs good same all
  body-AnswerLaw code bytes good (undecoded bad) = not_a_feed good (undecoded bad)
  body-AnswerLaw code bytes good (refused before x behind same r) =
      not_a_feed good (refused before x behind same r)

  unavailable_anyway : (e : NetError) → translate_transport_error (net_error e) ≡ unavailable
  unfolding translate_transport_error
  unavailable_anyway e = elim (Bool-cases (is_transport_error e)) [
    | inl t ↦ rw t refl
    | inr t ↦ rw t refl
  ]

  reply-AnswerLaw : (r : Reply) → AnswerLaw r (of_bytes parse_time decode (from_reply r))
  unfolding of_bytes
  reply-AnswerLaw (no_reply e) = rw (unavailable_anyway e) unreached
  reply-AnswerLaw (status_and_body code bytes) = elim (Bool-cases (is_2xx code)) [
    | inl good ↦ rw good (
        body-AnswerLaw code bytes (is_2xx-Is2xx code good) (parse_feed_lem parse_time decode bytes))
    | inr bad ↦ rw bad (unfold translate_transport_error in rejected (is_2xx-IsNot2xx code bad))
  ]
  reply-AnswerLaw (status_and_error code e) = elim (Bool-cases (is_2xx code)) [
    | inl good ↦ rw (good, unavailable_anyway e) (cut_off (is_2xx-Is2xx code good))
    | inr bad ↦
        rw bad (unfold translate_transport_error in rejected_unread (is_2xx-IsNot2xx code bad))
  ]

  module _ (parses : String → Bool) (base user_agent : String) (http : Get → Reply)
      (q : Query) where
    -- A fetch of arXiv is answered by the status and the body alone. Where the base URL does not
    -- parse, no request is made, and the answer is `ErrUpstreamUnavailable`. Else one GET is made:
    -- entries come only from a body of a 2xx status that decodes, each parsed, in order, and all of
    -- them; `ErrUpstreamMalformed` only from such a body which does not decode or has an entry that
    -- is refused; `ErrUpstreamBadStatus` from every status that is not 2xx; and
    -- `ErrUpstreamUnavailable` from a request or a body that failed.
    pub fetch_upstream_lem :
        let answer = fetch_upstream parse_time decode parses base (fetch_bytes http user_agent) q in
        ((parses base ≡ false) × (answer ≡ upstream_error unavailable))
        ⊎ ((url : String) × (build_arxiv_url parses base q ≡ some url)
            × AnswerLaw
                (http (record { url = url; user_agent = user_agent; accept = "*/*" }))
                answer)
    unfolding fetch_upstream of_url fetch_bytes build_arxiv_url
    fetch_upstream_lem = elim (Bool-cases (parses base)) [
      | inl good ↦ rw good (inr (_, refl, reply-AnswerLaw _))
      | inr bad ↦ rw bad (inl (refl, refl))
    ]
