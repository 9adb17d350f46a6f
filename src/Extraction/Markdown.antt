-- ===== src/Extraction/Markdown.antt =====
-- The separator row of a GFM table (`reTableSeparator` of normalize.go) as an automaton, one state
-- for each place in the pattern where the next code point is read.
use research_monitor.Base.{ℕ, Bool, true, false, List, [], ◌∷◌, ◌==◌, if◌then◌else◌}
use research_monitor.Text.{is_re_space}

-- The flag says whether a cell after the first has been begun.
pub data Place : Type 0 where
  start : Place
  lead : Place
  colon dash1 dash2 dashes closing gap : Bool → Place
  bar : Bool → Place
  refused : Place

-- In `\s*:?-{3,}`, before the first dash: `here` is the place for another space.
abbrev cell_start : Place → Bool → ℕ → Place
cell_start here more c =
    if is_re_space c
    then here
    else if c == b':'
    then colon more
    else if c == b'-'
    then dash1 more
    else refused

-- After the dashes of a cell: `\s*` and then the bar before the next cell.
abbrev cell_end : Bool → ℕ → Place
cell_end more c = if is_re_space c then gap more else if c == b'|' then bar more else refused

-- `^\s*\|?\s*:?-{3,}:?\s*(\|\s*:?-{3,}:?\s*)+\|?\s*$`
unfoldable pub next_place : Place → ℕ → Place
next_place start c = if c == b'|' then lead else cell_start start false c
next_place lead c = cell_start lead false c
next_place (colon more) c = if c == b'-' then dash1 more else refused
next_place (dash1 more) c = if c == b'-' then dash2 more else refused
next_place (dash2 more) c = if c == b'-' then dashes more else refused
next_place (dashes more) c =
    if c == b'-' then dashes more else if c == b':' then closing more else cell_end more c
next_place (closing more) c = cell_end more c
next_place (gap more) c = cell_end more c
next_place (bar more) c = cell_start (bar more) true c
next_place refused c = refused

-- The row may end here: it has two cells or more.
unfoldable pub accepts : Place → Bool
accepts (dashes more) = more
accepts (closing more) = more
accepts (gap more) = more
accepts (bar more) = more
accepts _ = false

unfoldable pub run_places : Place → List ℕ → Bool
unfolding next_place accepts
run_places p [] = accepts p
run_places p (c ∷ cs) = run_places (next_place p c) cs

unfoldable pub is_table_separator : List ℕ → Bool
unfolding run_places
is_table_separator line = run_places start line
