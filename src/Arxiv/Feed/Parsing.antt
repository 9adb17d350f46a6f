-- ===== src/Arxiv/Feed/Parsing.antt =====
-- A feed is parsed as a whole: into one entry for each of its own, or not at all.
use research_monitor.Base.{
  ℕ, ◌≡◌, refl, inl, inr, ◌⊎◌, true, false, String, List, [], ◌∷◌, ◌++◌, Option, none, some, map,
  Bool-cases, Option-cases, arith,
}
use research_monitor.Paper.{Entry}
use research_monitor.Arxiv.Feed.{
  XmlEntry, is_nil, trim_space, trim_prefix, contains, normalize_space, abs_prefix, pick_pdf_link,
  parse_atom_time, parse_updated, entry_of, parse_entry, parse_entries, parse_feed,
}
use research_monitor.Arxiv.Feed.Walking.{Split}
use research_monitor.Arxiv.Feed.Splitting.{split_abs_id_lem}

module _ (parse_time : String → Option ℕ) where
  -- The time of `<updated>`: none is the zero time.
  abbrev pub Updated : String → ℕ → Type 0
  Updated s t =
      ((is_nil (trim_space s) ≡ true) × (t ≡ 0))
      ⊎ ((is_nil (trim_space s) ≡ false) × (parse_time (trim_space s) ≡ some t))

  -- The entry that one of the feed stands for.
  pub record Parsed (x : XmlEntry) (e : Entry) : Type 0 where
    pub no_error : contains x.id "/api/errors" ≡ false
    pub named : is_nil (trim_space x.id) ≡ false
    pub from_arxiv : e.source ≡ "arxiv"
    pub identified : Split (trim_prefix abs_prefix (trim_space x.id)) (e.source_id, e.version)
    pub submitted : parse_time (trim_space x.published) ≡ some e.submitted_at
    pub updated : Updated x.updated e.updated_at
    pub written_by : e.authors ≡ map trim_space x.authors
    pub titled : (e.title ≡ normalize_space x.title) × (e.abstract ≡ normalize_space x.summary)
    pub filed : (e.primary_category ≡ x.primary_category) × (e.categories ≡ x.categories)
    pub linked : (e.pdf_url ≡ pick_pdf_link x.links) × (e.abs_url ≡ trim_space x.id)

  -- Why an entry of the feed is refused.
  pub data Refused (x : XmlEntry) : Type 0 where
    error_entry : contains x.id "/api/errors" ≡ true → Refused x
    unnamed : is_nil (trim_space x.id) ≡ true → Refused x
    no_published : parse_time (trim_space x.published) ≡ none → Refused x
    bad_updated :
        is_nil (trim_space x.updated) ≡ false → parse_time (trim_space x.updated) ≡ none → Refused x

  pub data ParsedAll : List XmlEntry → List Entry → Type 0 where
    all_parsed : ParsedAll [] []
    and_parsed :
        {x : XmlEntry} {e : Entry} {xs : List XmlEntry} {es : List Entry}
        → Parsed x e
        → ParsedAll xs es
        → ParsedAll (x ∷ xs) (e ∷ es)

  pub data EntryLaw (x : XmlEntry) : Option Entry → Type 0 where
    accepted : (e : Entry) → Parsed x e → EntryLaw x (some e)
    rejected : Refused x → EntryLaw x none

  parse_updated-cases :
      (s : String)
      → ((t : ℕ) × (parse_updated parse_time s ≡ some t) × Updated s t)
        ⊎ ((parse_updated parse_time s ≡ none)
            × (is_nil (trim_space s) ≡ false)
            × (parse_time (trim_space s) ≡ none))
  unfolding parse_updated parse_atom_time
  parse_updated-cases s = elim (Bool-cases (is_nil (trim_space s))) [
    | inl blank ↦ inl (0, rw blank refl, inl (blank, refl))
    | inr text ↦ elim (Option-cases (parse_time (trim_space s))) [
      | inl bad ↦ inr (rw text bad, text, bad)
      | inr (t, good) ↦ inl (t, rw text good, inr (text, good))
    ]
  ]

  parse_entry_lem : (x : XmlEntry) → EntryLaw x (parse_entry parse_time x)
  unfolding parse_entry parse_atom_time
  parse_entry_lem x = elim (Bool-cases (contains x.id "/api/errors")) [
    | inl error ↦ rw error (rejected (error_entry error))
    | inr no_error ↦ elim (Bool-cases (is_nil (trim_space x.id))) [
      | inl blank ↦ rw (no_error, blank) (rejected (unnamed blank))
      | inr named ↦ elim (Option-cases (parse_time (trim_space x.published))) [
        | inl bad ↦ rw (no_error, named, bad) (rejected (no_published bad))
        | inr (t, good) ↦ elim (parse_updated-cases x.updated) [
          | inr (bad, text, unread) ↦
              rw (no_error, named, good, bad) (rejected (bad_updated text unread))
          | inl (u, read, law) ↦
              rw (no_error, named, good, read)
                (accepted (entry_of parse_time x t u) (record {
                  no_error = no_error;
                  named = named;
                  from_arxiv = refl;
                  identified = split_abs_id_lem x.id;
                  submitted = good;
                  updated = law;
                  written_by = refl;
                  titled = (refl, refl);
                  filed = (refl, refl);
                  linked = (refl, refl);
                }))
        ]
      ]
    ]
  ]

  -- What `ParseFeed` makes of a body.
  pub data FeedLaw (feed : Option (List XmlEntry)) : Option (List Entry) → Type 0 where
    parsed :
        (xs : List XmlEntry) {es : List Entry}
        → feed ≡ some xs
        → ParsedAll xs es
        → FeedLaw feed (some es)
    undecoded : feed ≡ none → FeedLaw feed none
    refused :
        (before : List XmlEntry) (x : XmlEntry) (behind : List XmlEntry)
        → feed ≡ some (before ++ x ∷ behind)
        → Refused x
        → FeedLaw feed none

  refused_behind :
      (x : XmlEntry) (xs : List XmlEntry) {o : Option (List Entry)}
      → o ≡ none
      → FeedLaw (some xs) o
      → FeedLaw (some (x ∷ xs)) none
  refused_behind x xs e (parsed ys same all) = absurd (cc)
  refused_behind x xs e (undecoded bad) = absurd (cc)
  refused_behind x xs e (refused before y behind same r) =
      refused (x ∷ before) y behind (ground arith) r

  parsed_of :
      {xs : List XmlEntry} {es : List Entry} {o : Option (List Entry)}
      → o ≡ some es
      → FeedLaw (some xs) o
      → ParsedAll xs es
  parsed_of {xs} {es} e (parsed ys {es = fs} same all) =
      let p : ys ≡ xs = ground arith in let q : fs ≡ es = ground arith in rw (p, q) at all
  parsed_of e (undecoded bad) = absurd (cc)
  parsed_of e (refused before x behind same r) = absurd (cc)

  accepted-Parsed :
      (x : XmlEntry) {o : Option Entry} → EntryLaw x o → (e : Entry) → o ≡ some e → Parsed x e
  accepted-Parsed x (accepted e p) e' same = let q : e ≡ e' = ground arith in rw q at p
  accepted-Parsed x (rejected r) e' same = absurd (cc)

  rejected-Refused : (x : XmlEntry) {o : Option Entry} → EntryLaw x o → o ≡ none → Refused x
  rejected-Refused x (accepted e p) same = absurd (cc)
  rejected-Refused x (rejected r) same = r

  parse_entries_lem : (xs : List XmlEntry) → FeedLaw (some xs) (parse_entries parse_time xs)
  unfolding parse_entries
  parse_entries_lem [] = parsed [] refl all_parsed
  parse_entries_lem (x ∷ xs) =
      let here = parse_entry_lem x in
      let behind = parse_entries_lem xs in
      elim (Option-cases (parse_entry parse_time x)) [
        | inl bad ↦ rw bad (refused [] x xs refl (rejected-Refused x here bad))
        | inr (e, good) ↦ elim (Option-cases (parse_entries parse_time xs)) [
          | inl bad ↦ rw (good, bad) (refused_behind x xs bad behind)
          | inr (es, run) ↦
              rw (good, run)
                (parsed (x ∷ xs) refl
                  (and_parsed (accepted-Parsed x here e good) (parsed_of run behind)))
        ]
      ]

  pub parse_feed_lem :
      (decode : List ℕ → Option (List XmlEntry)) (body : List ℕ)
      → FeedLaw (decode body) (parse_feed parse_time decode body)
  unfolding parse_feed
  parse_feed_lem decode body = elim (Option-cases (decode body)) [
    | inl bad ↦ rw bad (undecoded refl)
    | inr (xs, decoded) ↦ rw decoded (parse_entries_lem xs)
  ]
