-- ===== src/Paper/Listing.antt =====
-- What `List` answers.
use research_monitor.Base.{
  ◌≡◌, ◌<◌, refl, sym, ap, ◌∙◌, ◌⊎◌, inl, inr, Bool, true, false, ◌||◌, String, List, [], ◌∷◌,
  Option, none, some, count_if, keep_if, ◌>>=◌, arith,
}
use mathlib.Core.Path.{subst}
use mathlib.Core.Option.{some-injective}
use research_monitor.Sql.{Ordered, FindLaw, Table}
use research_monitor.Paper.{Entry}
use research_monitor.Paper.Catalogue.{
  Row, ListCodec, Answer, value, not_found, catalogue_unavailable, clash, to_domain, convert_all,
  listed, list,
}

bind-some :
    {A B : Type 0} (o : Option A) (f : A → Option B) (b : B)
    → (o >>= f) ≡ some b
    → (a : A) × (o ≡ some a) × (f a ≡ some b)
bind-some none f b h = absurd (ground arith)
bind-some (some a) f b h = (a, refl, h)

bind-none :
    {A B : Type 0} (o : Option A) (f : A → Option B)
    → (o >>= f) ≡ none
    → (o ≡ none) ⊎ ((a : A) × (o ≡ some a) × (f a ≡ none))
bind-none none f h = inl refl
bind-none (some a) f h = inr (a, refl, h)

module _ {A : Type 0} where
  count_if-keep_all :
      (q : A → Bool) (xs : List A) → count_if q (keep_if (λ _. true) xs) ≡ count_if q xs
  count_if-keep_all q [] = refl
  count_if-keep_all q (x ∷ xs) = ground (arith, count_if-keep_all q xs)

  first_counts : (q : A → Bool) (x : A) (xs : List A) → q x ≡ true → 0 < count_if q (x ∷ xs)
  first_counts q x xs h = rw h (ground arith)

  rest_counts : (q : A → Bool) (x : A) (xs : List A) → 0 < count_if q xs → 0 < count_if q (x ∷ xs)
  rest_counts q x xs h = ground arith

module _ (codec : ListCodec) where
  -- The entry has the fields of the row, the two lists decoded.
  pub record IsEntryOf (m : Row) (e : Entry) : Type 0 where
    pub source : e.source ≡ m.source
    pub source_id : e.source_id ≡ m.source_id
    pub version : e.version ≡ m.version
    pub title : e.title ≡ m.title
    pub authors : codec.unmarshal m.authors ≡ some e.authors
    pub abstract : e.abstract ≡ m.abstract
    pub primary_category : e.primary_category ≡ m.primary_category
    pub categories : codec.unmarshal m.categories ≡ some e.categories
    pub submitted_at : e.submitted_at ≡ m.submitted_at
    pub updated_at : e.updated_at ≡ m.updated_at
    pub pdf_url : e.pdf_url ≡ m.pdf_url
    pub abs_url : e.abs_url ≡ m.abs_url

  to_domain-IsEntryOf : (m : Row) (e : Entry) → to_domain codec m ≡ some e → IsEntryOf m e
  unfolding to_domain
  to_domain-IsEntryOf m e h =
      let (authors, got, rest) = bind-some (codec.unmarshal m.authors) _ e h in
      let (categories, got', last) = bind-some (codec.unmarshal m.categories) _ e rest in
      let same = sym (some-injective _ _ last) in
      record {
        source = ap (λ (x : Entry). x.source) same;
        source_id = ap (λ (x : Entry). x.source_id) same;
        version = ap (λ (x : Entry). x.version) same;
        title = ap (λ (x : Entry). x.title) same;
        authors = got ∙ ap (λ (x : Entry). some x.authors) (sym same);
        abstract = ap (λ (x : Entry). x.abstract) same;
        primary_category = ap (λ (x : Entry). x.primary_category) same;
        categories = got' ∙ ap (λ (x : Entry). some x.categories) (sym same);
        submitted_at = ap (λ (x : Entry). x.submitted_at) same;
        updated_at = ap (λ (x : Entry). x.updated_at) same;
        pdf_url = ap (λ (x : Entry). x.pdf_url) same;
        abs_url = ap (λ (x : Entry). x.abs_url) same;
      }

  -- The entries of the rows, in the same order.
  abbrev pub Shown : List Row → List Entry → Type 0
  Shown [] [] = Unit
  Shown [] (e ∷ es) = ⊥
  Shown (m ∷ rows) [] = ⊥
  Shown (m ∷ rows) (e ∷ es) = IsEntryOf m e × Shown rows es

  cons-Shown :
      (m : Row) (rows : List Row) (e : Entry) (tail es : List Entry)
      → IsEntryOf m e
      → Shown rows tail
      → e ∷ tail ≡ es
      → Shown (m ∷ rows) es
  cons-Shown m rows e tail es h hs same = subst (λ x. Shown (m ∷ rows) x) same (h, hs)

  convert_all-Shown :
      (rows : List Row) (es : List Entry) → convert_all codec rows ≡ some es → Shown rows es
  unfolding convert_all
  convert_all-Shown [] [] h = tt
  convert_all-Shown [] (e ∷ es) h = absurd (ground arith)
  convert_all-Shown (m ∷ rows) es h =
      let (e, got, rest) = bind-some (to_domain codec m) _ es h in
      let (tail, got', last) = bind-some (convert_all codec rows) _ es rest in
      cons-Shown m rows e tail es (to_domain-IsEntryOf m e got) (convert_all-Shown rows tail got')
        (some-injective _ _ last)

  Shown-Ordered :
      (rows : List Row) (es : List Entry)
      → Shown rows es
      → Ordered (λ r. r.submitted_at) true rows
      → Ordered (λ e. e.submitted_at) true es
  Shown-Ordered [] [] h o = tt
  Shown-Ordered [] (e ∷ es) h o = absurd h
  Shown-Ordered (m ∷ rows) [] h o = absurd h
  Shown-Ordered (m ∷ []) (e ∷ []) h o = tt
  Shown-Ordered (m ∷ []) (e ∷ (f ∷ es)) (h, hs) o = absurd hs
  Shown-Ordered (m ∷ (n ∷ rows)) (e ∷ []) (h, hs) o = absurd hs
  Shown-Ordered (m ∷ (n ∷ rows)) (e ∷ (f ∷ es)) (h, (k, hs)) (first_two, o) =
      (rw (h.submitted_at, k.submitted_at) first_two, Shown-Ordered (n ∷ rows) (f ∷ es) (k, hs) o)

  abbrev pub unreadable : Option (List String) → Bool
  unreadable none = true
  unreadable (some xs) = false

  -- A row whose list columns cannot be read.
  abbrev pub is_broken : Row → Bool
  is_broken m = unreadable (codec.unmarshal m.authors) || unreadable (codec.unmarshal m.categories)

  broken_counts : (m : Row) → to_domain codec m ≡ none → is_broken m ≡ true
  unfolding to_domain
  broken_counts m h = elim (bind-none (codec.unmarshal m.authors) _ h) [
    | inl e ↦ rw (is_broken, e) refl
    | inr (authors, got, rest) ↦ elim (bind-none (codec.unmarshal m.categories) _ rest) [
      | inl e ↦ rw (is_broken, got, e) refl
      | inr (categories, got', last) ↦ absurd (ground arith)
    ]
  ]

  convert_all-none : (rows : List Row) → convert_all codec rows ≡ none → 0 < count_if is_broken rows
  unfolding convert_all
  convert_all-none [] h = absurd (ground arith)
  convert_all-none (m ∷ rows) h = elim (bind-none (to_domain codec m) _ h) [
    | inl e ↦ first_counts is_broken m rows (broken_counts m e)
    | inr (a, got, rest) ↦ elim (bind-none (convert_all codec rows) _ rest) [
      | inl e ↦ rest_counts is_broken m rows (convert_all-none rows e)
      | inr (es, got', last) ↦ absurd (ground arith)
    ]
  ]

  -- The entries of the rows of the table, in some order of these, the last submitted first.
  abbrev pub ListLaw : List Row → Option (List Row) → Answer (List Entry) → Type 0
  ListLaw rows read (value es) =
      Ordered (λ e. e.submitted_at) true es
      × ((shown : List Row) × ((q : Row → Bool) → count_if q shown ≡ count_if q rows)
          × Shown shown es)
  ListLaw rows read not_found = ⊥
  ListLaw rows read catalogue_unavailable = (read ≡ none) ⊎ (0 < count_if is_broken rows)

module _ (t : Table Row clash) (codec : ListCodec) where
  open t use {Db, rows, find, find_lem}

  abbrev pub read_all : Db → Option (List Row)
  read_all db = find (λ _. true) (λ r. r.submitted_at) true db

  -- `List` answers with one entry for each row and no others, each field by field that of its row
  -- with the authors and the categories decoded, the last submitted first. It never answers that
  -- nothing is found; it answers that the catalogue is unavailable only if the statement failed or
  -- some row has a list column that cannot be read.
  pub list_lem : (db : Db) → ListLaw codec (rows db) (read_all db) (list t codec db)
  unfolding list
  list_lem db = go (read_all db) (find_lem (λ _. true) (λ r. r.submitted_at) true db)
    where
      converted :
          (found_rows : List Row) (out : Option (List Entry))
          → convert_all codec found_rows ≡ out
          → Ordered (λ r. r.submitted_at) true found_rows
          → ((q : Row → Bool) → count_if q found_rows ≡ count_if q (rows db))
          → ListLaw codec
              (rows db)
              (some found_rows)
              (elim out [ none ↦ catalogue_unavailable | some es ↦ value es ])
      converted found_rows none h o same =
          inr (subst (λ n. 0 < n) (same (is_broken codec)) (convert_all-none codec found_rows h))
      converted found_rows (some es) h o same =
          let shown = convert_all-Shown codec found_rows es h in
          (Shown-Ordered codec found_rows es shown o, (found_rows, same, shown))

      go :
          (read : Option (List Row))
          → FindLaw (λ _. true) (λ r. r.submitted_at) true (rows db) read
          → ListLaw codec (rows db) read (listed t codec read)
      go none h = inl refl
      go (some found_rows) (o, counts) =
          converted found_rows (convert_all codec found_rows) refl o
            (λ q. counts q ∙ count_if-keep_all q (rows db))
