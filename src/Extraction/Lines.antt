-- ===== src/Extraction/Lines.antt =====
-- Lines of a text (code points), as Go's `strings.Split(s, "\n")` and `strings.Join(lines, "\n")`,
-- and what the line patterns of normalize.go look for.
pub mod Splitting
use research_monitor.Base.{
  ℕ, ◌-◌, Bool, true, false, ◌&&◌, ◌||◌, not, String, List, [], ◌∷◌, ◌++◌, any, drop, leb, ◌==◌,
  if◌then◌else◌,
}
use research_monitor.Text.{has_prefix, codes, lower, is_re_space}

abbrev pub newline : ℕ
newline = 10

abbrev pub open_line : ℕ → List (List ℕ) → List (List ℕ)
open_line c [] = (c ∷ []) ∷ []
open_line c (line ∷ lines) = (c ∷ line) ∷ lines

-- Never empty: the empty text is one empty line.
unfoldable pub split_lines : List ℕ → List (List ℕ)
split_lines [] = [] ∷ []
split_lines (c ∷ cs) =
    let lines = split_lines cs in if c == newline then [] ∷ lines else open_line c lines

unfoldable pub join_lines : List (List ℕ) → List ℕ
join_lines [] = []
join_lines (line ∷ []) = line
join_lines (line ∷ (next ∷ lines)) = line ++ (newline ∷ join_lines (next ∷ lines))

-- A code point that folds to the lower case letter under `(?i)`: for s and k there is one beyond
-- ASCII.
abbrev folds_to : ℕ → ℕ → Bool
folds_to k c = lower c == k || k == b's' && c == 0x17f || k == b'k' && c == 0x212a

-- The text matches the letters under `(?i)`, and only `\s*` follows.
fold_then_space : List ℕ → List ℕ → Bool
fold_then_space [] cs = not (any (λ c. not (is_re_space c)) cs)
fold_then_space (k ∷ ks) [] = false
fold_then_space (k ∷ ks) (c ∷ cs) = folds_to k c && fold_then_space ks cs

skip_space : List ℕ → List ℕ
skip_space [] = []
skip_space (c ∷ cs) = if is_re_space c then skip_space cs else c ∷ cs

-- `\s+(references|bibliography|works cited)\s*$`
heading_text : List ℕ → Bool
unfolding fold_then_space skip_space
heading_text [] = false
heading_text (c ∷ cs) =
    let rest = skip_space cs in
    is_re_space c
    && (fold_then_space (codes "references") rest
        || fold_then_space (codes "bibliography") rest
        || fold_then_space (codes "works cited") rest)

-- The number is how many more `#` may come; at least one has been read.
after_hash : ℕ → List ℕ → Bool
unfolding heading_text
after_hash room [] = false
after_hash room (c ∷ cs) =
    if c == b'#'
    then (if leb 1 room then after_hash (room - 1) cs else false)
    else heading_text (c ∷ cs)

-- `(?i)^#{1,6}\s+(references|bibliography|works cited)\s*$`
unfoldable pub is_references_heading : List ℕ → Bool
unfolding after_hash
is_references_heading [] = false
is_references_heading (c ∷ cs) = c == b'#' && after_hash 5 cs

abbrev keep_before : ℕ → List ℕ → List ℕ
keep_before c [] = if is_re_space c then [] else c ∷ []
keep_before c (d ∷ ds) = c ∷ (d ∷ ds)

without_trailing_space : List ℕ → List ℕ
without_trailing_space [] = []
without_trailing_space (c ∷ cs) = keep_before c (without_trailing_space cs)

-- `\(.*\)$`, the first parenthesis read: the last code point closes it.
ends_with_paren : List ℕ → Bool
ends_with_paren [] = false
ends_with_paren (c ∷ []) = c == b')'
ends_with_paren (c ∷ (d ∷ ds)) = ends_with_paren (d ∷ ds)

abbrev opens : List ℕ → Bool
unfolding ends_with_paren
opens [] = false
opens (c ∷ cs) = c == b'(' && ends_with_paren cs

-- `.*\]\(.*\)$`
has_target : List ℕ → Bool
unfolding ends_with_paren
has_target [] = false
has_target (c ∷ cs) = c == b']' && opens cs || has_target cs

-- `^!\[.*\]\(.*\)\s*$`
unfoldable pub is_image_line : List ℕ → Bool
unfolding has_prefix has_target without_trailing_space
is_image_line line =
    has_prefix (codes "![") line && has_target (drop 2 (without_trailing_space line))

-- A figure caption: the space after the prefix is required.
unfoldable pub is_caption : List ℕ → Bool
unfolding has_prefix
is_caption line = has_prefix (codes "Figure ") line || has_prefix (codes "Fig. ") line
