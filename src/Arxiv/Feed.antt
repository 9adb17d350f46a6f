-- ===== src/Arxiv/Feed.antt =====
-- The Atom feed of arXiv (internal/infrastructure/arxiv/parser.go and feedutil/feedutil.go). The
-- decoder of XML and that of RFC 3339 times are parameters. Every error of `ParseFeed` wraps
-- `ErrUpstreamMalformed`: it is told by `none`. A loop over the bytes of a text that looks for ASCII
-- alone is one over its characters.
pub mod Walking
pub mod Splitting
pub mod Parsing
use Prim.Native.Char.{Char, code}
use Prim.Native.String
use Prim.Native.String.{[] as empty, ◌∷◌ as cons}
use research_monitor.Base.{
  ℕ, zero, suc, Bool, true, false, ◌&&◌, ◌||◌, not, String, List, [], ◌∷◌, Option, none, some, map,
  leb, ◌==◌, str_eq, if◌then◌else◌, ◌>>=◌,
}
use research_monitor.Text.{is_space}
use research_monitor.Paper.{Entry}

pub record XmlLink : Type 0 where
  pub href : String
  pub rel : String
  pub mime : String
  pub title : String

-- The struct `xmlEntry`; of an author there is the name alone, of a category the term.
pub record XmlEntry : Type 0 where
  pub id : String
  pub title : String
  pub summary : String
  pub published : String
  pub updated : String
  pub authors : List String
  pub links : List XmlLink
  pub primary_category : String
  pub categories : List String

abbrev pub is_nil : String → Bool
is_nil empty = true
is_nil (cons c s) = false

unfoldable pub trim_left : String → String
trim_left empty = empty
trim_left (cons c s) = if is_space (code c) then trim_left s else cons c s

unfoldable pub trim_right : String → String
trim_right empty = empty
trim_right (cons c s) =
    let rest = trim_right s in if is_space (code c) && is_nil rest then empty else cons c rest

-- `strings.TrimSpace`
unfoldable pub trim_space : String → String
unfolding trim_left trim_right
trim_space s = trim_right (trim_left s)

-- What stands behind the prefix.
unfoldable pub after_prefix : String → String → Option String
after_prefix empty s = some s
after_prefix (cons c p) empty = none
after_prefix (cons c p) (cons d s) =
    let rest = after_prefix p s in if code c == code d then rest else none

abbrev pub is_some {ℓ} : {A : Type ℓ} → Option A → Bool
is_some none = false
is_some (some a) = true

-- `strings.TrimPrefix`
unfoldable pub trim_prefix : String → String → String
unfolding after_prefix
trim_prefix p s = elim (after_prefix p s) [ none ↦ s | some rest ↦ rest ]

-- `strings.Contains`
unfoldable pub contains : String → String → Bool
unfolding after_prefix
contains empty sub = is_nil sub
contains (cons c s) sub = is_some (after_prefix sub (cons c s)) || contains s sub

abbrev pub add_word : String → List String → List String
add_word w ws = if is_nil w then ws else w ∷ ws

-- The word that the text begins with, and the words behind it.
unfoldable pub pieces : String → String × List String
pieces empty = (empty, [])
pieces (cons c s) =
    let (w, ws) = pieces s in if is_space (code c) then (empty, add_word w ws) else (cons c w, ws)

-- `strings.Fields`
unfoldable pub fields : String → List String
unfolding pieces
fields s = let (w, ws) = pieces s in add_word w ws

-- `strings.Join`
unfoldable pub join : String → List String → String
join sep [] = empty
join sep (w ∷ []) = w
join sep (w ∷ (v ∷ ws)) = String.◌++◌ w (String.◌++◌ sep (join sep (v ∷ ws)))

-- `NormalizeSpace`
unfoldable pub normalize_space : String → String
unfolding fields join
normalize_space s = join " " (fields s)

abbrev pub is_digit : Char → Bool
is_digit c = leb b'0' (code c) && leb (code c) b'9'

abbrev pub is_v : Char → Bool
is_v c = code c == b'v'

-- The text backwards, before the second.
unfoldable pub rev_append : String → String → String
rev_append empty acc = acc
rev_append (cons c s) acc = rev_append s (cons c acc)

-- The loop of `splitAbsID`, from the end: what is before the position, backwards, and what is
-- behind it. `none` is the end of the loop.
unfoldable pub walk_back : String → String → Option (String × String)
unfolding rev_append
walk_back empty back = none
walk_back (cons c front) back =
    let rest = walk_back front (cons c back) in
    if is_digit c
    then rest
    else if is_v c && not (is_nil front) && not (is_nil back)
    then some (rev_append front empty, cons c back)
    else none

abbrev pub or_whole : String → Option (String × String) → String × String
or_whole tail none = (tail, "")
or_whole tail (some parts) = parts

unfoldable pub split_tail : String → String × String
unfolding walk_back rev_append
split_tail tail = or_whole tail (walk_back (rev_append tail empty) empty)

abbrev pub abs_prefix : String
abs_prefix = "http://arxiv.org/abs/"

-- `splitAbsID`
unfoldable pub split_abs_id : String → String × String
unfolding trim_space trim_prefix split_tail
split_abs_id id = split_tail (trim_prefix abs_prefix (trim_space id))

-- `pickPDFLink`
unfoldable pub pick_pdf_link : List XmlLink → String
pick_pdf_link [] = ""
pick_pdf_link (l ∷ ls) = if str_eq l.title "pdf" then l.href else pick_pdf_link ls

module _ (parse_time : String → Option ℕ) where
  -- `ParseAtomTime`
  unfoldable pub parse_atom_time : String → Option ℕ
  unfolding trim_space
  parse_atom_time s = parse_time (trim_space s)

  -- `updatedAt`: the zero time where there is none.
  unfoldable pub parse_updated : String → Option ℕ
  unfolding trim_space parse_atom_time
  parse_updated s = if is_nil (trim_space s) then some 0 else parse_atom_time s

  abbrev pub entry_of : XmlEntry → ℕ → ℕ → Entry
  entry_of x submitted updated = record {
    source = "arxiv";
    source_id = (split_abs_id x.id).0;
    version = (split_abs_id x.id).1;
    title = normalize_space x.title;
    authors = map trim_space x.authors;
    abstract = normalize_space x.summary;
    primary_category = x.primary_category;
    categories = x.categories;
    submitted_at = submitted;
    updated_at = updated;
    pdf_url = pick_pdf_link x.links;
    abs_url = trim_space x.id;
  }

  -- One round of the loop of `ParseFeed`.
  unfoldable pub parse_entry : XmlEntry → Option Entry
  unfolding contains trim_space parse_atom_time parse_updated
  parse_entry x =
      if contains x.id "/api/errors" then none else if is_nil (trim_space x.id) then none else do
        submitted ← parse_atom_time x.published
        updated ← parse_updated x.updated
        some (entry_of x submitted updated)

  unfoldable pub parse_entries : List XmlEntry → Option (List Entry)
  unfolding parse_entry
  parse_entries [] = some []
  parse_entries (x ∷ xs) = do e ← parse_entry x; es ← parse_entries xs; some (e ∷ es)

  -- `ParseFeed`, over the bytes of a body.
  unfoldable pub parse_feed : (List ℕ → Option (List XmlEntry)) → List ℕ → Option (List Entry)
  unfolding parse_entries
  parse_feed decode body = do feed ← decode body; parse_entries feed
