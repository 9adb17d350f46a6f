-- ===== src/Extraction/Normalize/Body.antt =====
-- What the normalised body does not hold.
use research_monitor.Base.{ℕ, ◌≡◌, refl, inl, inr, true, false, List, [], ◌∷◌, All, Bool-cases}
use research_monitor.Text.{trim_space}
use research_monitor.Extraction.Lines.{
  split_lines, is_references_heading, is_image_line, is_caption,
}
use research_monitor.Extraction.Lines.Splitting.{IsLine, split_lines-All, All-join_lines}
use research_monitor.Extraction.Normalize.{
  before_references, truncate_at_references, prose, is_dropped, strip_lines, strip_blocks,
  collapse_from, collapse_blank_runs, rewrite_math_delimiters, normalize_body, normalize,
}
use research_monitor.Extraction.Normalize.Calm.{
  is_calm, ends_with_newline, collapse_from-calm, trim_newlines-calm, trim_newlines-end,
}
use research_monitor.Extraction.Normalize.KeptLines.{
  before_references-All, strip_lines-All, collapse-Lines, trim-Lines,
}

-- The line starts no references section and is neither an image nor a figure caption.
pub record IsProse (line : List ℕ) : Type 0 where
  pub no_heading : is_references_heading (trim_space line) ≡ false
  pub no_block : is_dropped line ≡ false

abbrev NoHeading : List ℕ → Type 0
NoHeading line = is_references_heading (trim_space line) ≡ false

before_references-NoHeading : (ls : List (List ℕ)) → All NoHeading (before_references ls)
unfolding before_references
before_references-NoHeading [] = tt
before_references-NoHeading (l ∷ ls) = elim (Bool-cases (is_references_heading (trim_space l))) [
  | inl stop ↦ rw stop tt
  | inr go ↦ simp go (refl, before_references-NoHeading ls)
]

NoHeading-IsProse :
    (ls : List (List ℕ)) → All NoHeading ls → All (λ l. is_dropped l ≡ false → IsProse l) ls
NoHeading-IsProse [] h = tt
NoHeading-IsProse (l ∷ ls) (h, hs) =
    (λ d. record { no_heading = h; no_block = d }, NoHeading-IsProse ls hs)

All-weaken :
    (P Q : List ℕ → Type 0)
    → ((l : List ℕ) → P l → Q l)
    → (ls : List (List ℕ)) → All P ls
    → All Q ls
All-weaken P Q f [] h = tt
All-weaken P Q f (l ∷ ls) (h, hs) = (f l h, All-weaken P Q f ls hs)

empty-IsProse : IsProse []
unfolding trim_space is_references_heading is_dropped is_image_line is_caption
empty-IsProse = record { no_heading = refl; no_block = refl }

truncated-NoHeading : (cs : List ℕ) → All NoHeading (split_lines (truncate_at_references cs))
unfolding truncate_at_references
truncated-NoHeading cs =
    All-join_lines NoHeading (before_references (split_lines cs)) empty-IsProse.no_heading
      (before_references-All IsLine (split_lines cs) (split_lines-All cs))
      (before_references-NoHeading (split_lines cs))

stripped-IsProse :
    (cs : List ℕ) → All NoHeading (split_lines cs) → All IsProse (split_lines (strip_blocks cs))
unfolding strip_blocks
stripped-IsProse cs h =
    All-join_lines IsProse (strip_lines prose (split_lines cs)) empty-IsProse
      (strip_lines-All IsLine prose (split_lines cs) (
        All-weaken IsLine (λ l. is_dropped l ≡ false → IsLine l) (λ l h _. h) (split_lines cs)
          (split_lines-All cs)))
      (strip_lines-All IsProse prose (split_lines cs) (NoHeading-IsProse (split_lines cs) h))

-- What the body of a normalised artifact is free of.
pub record IsTidy (body : List ℕ) : Type 0 where
  pub lines : All IsProse (split_lines body)
  pub calm : is_calm 0 body ≡ true
  pub no_end : ends_with_newline body ≡ false

-- In the body that `Normalize` returns, no line starts a references section, and none is an image or
-- a figure caption; newlines come at most two in a row; and the last character is no newline.
pub normalize-IsTidy :
    (markdown fallback_title : List ℕ) → IsTidy (normalize markdown fallback_title).body_markdown
unfolding normalize normalize_body collapse_blank_runs
normalize-IsTidy markdown fallback_title =
    let stripped = strip_blocks (truncate_at_references (rewrite_math_delimiters markdown)) in
    let collapsed = collapse_from 0 stripped in
    record {
      lines = (trim-Lines IsProse empty-IsProse collapsed).0 (
          (collapse-Lines IsProse empty-IsProse stripped).0 0 (
            stripped-IsProse (truncate_at_references (rewrite_math_delimiters markdown))
              (truncated-NoHeading (rewrite_math_delimiters markdown))));
      calm = trim_newlines-calm 0 collapsed (collapse_from-calm 0 stripped);
      no_end = trim_newlines-end collapsed;
    }
