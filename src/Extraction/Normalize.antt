-- ===== src/Extraction/Normalize.antt =====
-- The normalisation of an extractor's markdown (internal/domain/extraction/normalize.go), over code
-- points, for text that is valid UTF-8. Each regular expression is a matcher of its own.
pub mod Calm
pub mod KeptLines
pub mod Body
pub mod Fixed
use research_monitor.Base.{
  ℕ, zero, suc, ◌+◌, ◌-◌, Bool, true, false, ◌&&◌, ◌||◌, String, List, [], ◌∷◌, ◌++◌, Option, none,
  some, map, ltb, leb, ◌==◌, length, take, drop, if◌then◌else◌,
}
use research_monitor.Text.{has_prefix, codes, is_space, trim_space}
use research_monitor.Extraction.Lines.{
  newline, split_lines, join_lines, is_references_heading, is_image_line, is_caption,
}
use research_monitor.Extraction.Markdown.{is_table_separator}

pub record NormalizedArtifact : Type 0 where
  pub title : List ℕ
  pub body_markdown : List ℕ
  pub word_count : ℕ

-- How many code points stand before the first occurrence of the two that close a formula.
unfoldable pub find_close : ℕ → ℕ → List ℕ → Option ℕ
unfolding has_prefix
find_close a b [] = none
find_close a b (c ∷ cs) =
    let rest = find_close a b cs in
    if has_prefix (a ∷ b ∷ []) (c ∷ cs)
    then some 0
    else elim rest [ none ↦ none | some n ↦ some (suc n) ]

-- The length of the group of `\\<open>([\s\S]+?)\\<close>` at the front: at least one code point, and
-- as few as possible before the close.
unfoldable pub math_group : ℕ → ℕ → List ℕ → Option ℕ
unfolding find_close
math_group open_char close_char [] = none
math_group open_char close_char (c ∷ cs) =
    if has_prefix (0x5c ∷ open_char ∷ []) (c ∷ cs)
    then elim (find_close 0x5c close_char (drop 2 cs)) [ none ↦ none | some n ↦ some (suc n) ]
    else none

-- `ReplaceAllString` of that pattern by the group between two fences. The number counts what is
-- left of the match that is being skipped.
unfoldable pub rewrite_math : ℕ → ℕ → List ℕ → ℕ → List ℕ → List ℕ
unfolding math_group
rewrite_math open_char close_char fence skip [] = []
rewrite_math open_char close_char fence (suc skip) (c ∷ cs) =
    rewrite_math open_char close_char fence skip cs
rewrite_math open_char close_char fence zero (c ∷ cs) =
    elim (math_group open_char close_char (c ∷ cs)) [
      | none ↦ c ∷ rewrite_math open_char close_char fence 0 cs
      | some n ↦
          fence
          ++ (take n (drop 1 cs) ++ (fence ++ rewrite_math open_char close_char fence (n + 3) cs))
    ]

unfoldable pub rewrite_math_delimiters : List ℕ → List ℕ
unfolding rewrite_math
rewrite_math_delimiters text =
    rewrite_math b'(' b')' (codes "$") 0 (rewrite_math b'[' b']' (codes "$$") 0 text)

-- The lines before the first heading of a references section.
unfoldable pub before_references : List (List ℕ) → List (List ℕ)
before_references [] = []
before_references (line ∷ lines) =
    let rest = before_references lines in
    if is_references_heading (trim_space line) then [] else line ∷ rest

unfoldable pub truncate_at_references : List ℕ → List ℕ
unfolding before_references is_references_heading trim_space split_lines join_lines
truncate_at_references text = join_lines (before_references (split_lines text))

unfoldable pub is_row : List ℕ → Bool
unfolding has_prefix trim_space
is_row line = has_prefix (codes "|") (trim_space line)

abbrev next_is_separator : List (List ℕ) → Bool
unfolding is_table_separator
next_is_separator [] = false
next_is_separator (line ∷ lines) = is_table_separator line

-- Where the loop of `stripBlocks` stands: at a line of its own, at the separator of a table whose
-- header it has read, or in the rows of a table.
pub data Scan : Type 0 where
  prose : Scan
  separator : Scan
  rows : Scan

unfoldable pub is_dropped : List ℕ → Bool
unfolding is_image_line is_caption trim_space
is_dropped line = is_image_line (trim_space line) || is_caption (trim_space line)

abbrev in_rows : Scan → Bool
in_rows rows = true
in_rows _ = false

unfoldable pub strip_lines : Scan → List (List ℕ) → List (List ℕ)
unfolding is_row next_is_separator is_dropped
strip_lines scan [] = []
strip_lines separator (line ∷ lines) = strip_lines rows lines
strip_lines scan (line ∷ lines) =
    let still = strip_lines rows lines in
    let table = strip_lines separator lines in
    let rest = strip_lines prose lines in
    if in_rows scan && is_row line
    then still
    else if is_row line && next_is_separator lines
    then table
    else if is_dropped line
    then rest
    else line ∷ rest

unfoldable pub strip_blocks : List ℕ → List ℕ
unfolding strip_lines split_lines join_lines
strip_blocks text = join_lines (strip_lines prose (split_lines text))

-- `\n{3,}` to two newlines; the number counts the newlines just read.
unfoldable pub collapse_from : ℕ → List ℕ → List ℕ
collapse_from run [] = []
collapse_from run (c ∷ cs) =
    let again = collapse_from (suc run) cs in
    let fresh = collapse_from 0 cs in
    if c == newline then (if ltb run 2 then newline ∷ again else again) else c ∷ fresh

unfoldable pub collapse_blank_runs : List ℕ → List ℕ
unfolding collapse_from
collapse_blank_runs text = collapse_from 0 text

-- `strings.TrimRight(body, "\n")`
abbrev pub newline_before : ℕ → List ℕ → List ℕ
newline_before c [] = if c == newline then [] else c ∷ []
newline_before c (d ∷ ds) = c ∷ (d ∷ ds)

unfoldable pub trim_newlines : List ℕ → List ℕ
trim_newlines [] = []
trim_newlines (c ∷ cs) = newline_before c (trim_newlines cs)

-- The loop of `selectTitle`.
unfoldable pub title_of : List (List ℕ) → List ℕ → List ℕ
unfolding has_prefix trim_space
title_of [] fallback = fallback
title_of (line ∷ lines) fallback =
    if has_prefix (codes "# ") line then trim_space (drop 2 line) else title_of lines fallback

unfoldable pub select_title : List ℕ → List ℕ → List ℕ
unfolding title_of split_lines
select_title body fallback = title_of (split_lines body) fallback

-- `len(strings.Fields(s))`; the flag says whether the code point before belongs to a word.
unfoldable pub count_words : Bool → List ℕ → ℕ
count_words inside [] = 0
count_words inside (c ∷ cs) =
    let space = count_words false cs in
    let word = count_words true cs in
    if is_space c then space else if inside then word else suc word

-- The body that `Normalize` returns.
unfoldable pub normalize_body : List ℕ → List ℕ
unfolding rewrite_math_delimiters truncate_at_references strip_blocks collapse_blank_runs
    trim_newlines
normalize_body markdown =
    trim_newlines (
      collapse_blank_runs
        (strip_blocks (truncate_at_references (rewrite_math_delimiters markdown))))

unfoldable pub normalize : List ℕ → List ℕ → NormalizedArtifact
unfolding normalize_body select_title count_words
normalize markdown fallback_title =
    let body = normalize_body markdown in
    record {
      title = select_title body fallback_title;
      body_markdown = body;
      word_count = count_words false body;
    }
