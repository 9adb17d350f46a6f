-- ===== src/Extraction/Normalize/Fixed.antt =====
-- What the normaliser leaves alone.
use research_monitor.Base.{
  none, ℕ, suc, ◌≡◌, refl, sym, ap, ◌∙◌, inl, inr, Bool, true, false, List, [], ◌∷◌, any, All, ltb,
  ◌==◌, ==_iff, Bool-cases, arith,
}
use research_monitor.Text.{has_prefix, codes}
use research_monitor.Extraction.Lines.{newline, split_lines, join_lines}
use research_monitor.Extraction.Lines.Splitting.{join_lines-split_lines}
use research_monitor.Extraction.Normalize.{
  math_group, rewrite_math, rewrite_math_delimiters, before_references, truncate_at_references,
  prose, is_row, strip_lines, strip_blocks, collapse_from, collapse_blank_runs, newline_before,
  trim_newlines, normalize_body, normalize,
}
use research_monitor.Extraction.Normalize.Calm.{is_calm, ends_with_newline}
use research_monitor.Extraction.Normalize.Body.{IsProse, IsTidy}

abbrev pub has_backslash : List ℕ → Bool
has_backslash cs = any (λ c. c == 0x5c) cs

math_group-none : (a b c : ℕ) (cs : List ℕ) → (c == 0x5c) ≡ false → math_group a b (c ∷ cs) ≡ none
unfolding math_group has_prefix
math_group-none a b c cs other = let apart : (0x5c == c) ≡ false = ground arith in rw apart

rewrite_math-fixed :
    (a b : ℕ) (fence cs : List ℕ) → has_backslash cs ≡ false → rewrite_math a b fence 0 cs ≡ cs
unfolding rewrite_math
rewrite_math-fixed a b fence [] h = refl
rewrite_math-fixed a b fence (c ∷ cs) h =
    let other : (c == 0x5c) ≡ false = ground arith in
    rw (math_group-none a b c cs other, rewrite_math)
      (ap (λ l. c ∷ l) (rewrite_math-fixed a b fence cs (ground arith)))

rewrite_math_delimiters-fixed :
    (cs : List ℕ) → has_backslash cs ≡ false → rewrite_math_delimiters cs ≡ cs
unfolding rewrite_math_delimiters
rewrite_math_delimiters-fixed cs h =
    ap (rewrite_math b'(' b')' (codes "$") 0) (rewrite_math-fixed b'[' b']' (codes "$$") cs h)
    ∙ rewrite_math-fixed b'(' b')' (codes "$") cs h

before_references-fixed : (ls : List (List ℕ)) → All IsProse ls → before_references ls ≡ ls
unfolding before_references
before_references-fixed [] h = refl
before_references-fixed (l ∷ ls) (h, hs) =
    rw (h.no_heading) (ap (λ q. l ∷ q) (before_references-fixed ls hs))

abbrev pub NoRow : List ℕ → Type 0
NoRow line = is_row line ≡ false

strip_lines-fixed : (ls : List (List ℕ)) → All IsProse ls → All NoRow ls → strip_lines prose ls ≡ ls
unfolding strip_lines
strip_lines-fixed [] h k = refl
strip_lines-fixed (l ∷ ls) (h, hs) (k, ks) =
    rw (k, h.no_block) (ap (λ q. l ∷ q) (strip_lines-fixed ls hs ks))

collapse_from-fixed : (run : ℕ) (cs : List ℕ) → is_calm run cs ≡ true → collapse_from run cs ≡ cs
unfolding collapse_from is_calm
collapse_from-fixed run [] h = refl
collapse_from-fixed run (c ∷ cs) h = elim (Bool-cases (c == newline)) [
  | inl nl ↦
      let room : ltb run 2 ≡ true = ground arith in
      let rest : is_calm (suc run) cs ≡ true = ground arith in
      let same : newline ≡ c = sym ((==_iff c newline).0 nl) in
      rw (nl, room) (λ i. same i ∷ collapse_from-fixed (suc run) cs rest i)
  | inr other ↦
      let rest : is_calm 0 cs ≡ true = ground arith in
      rw other (ap (λ l. c ∷ l) (collapse_from-fixed 0 cs rest))
]

newline_before-fixed : (c d : ℕ) (ys ds : List ℕ) → ys ≡ d ∷ ds → newline_before c ys ≡ c ∷ (d ∷ ds)
newline_before-fixed c d ys ds h = rw h

trim_newlines-fixed : (cs : List ℕ) → ends_with_newline cs ≡ false → trim_newlines cs ≡ cs
unfolding trim_newlines ends_with_newline
trim_newlines-fixed [] h = refl
trim_newlines-fixed (c ∷ []) h = rw h
trim_newlines-fixed (c ∷ (d ∷ ds)) h =
    newline_before-fixed c d (trim_newlines (d ∷ ds)) ds (trim_newlines-fixed (d ∷ ds) h)

truncate-fixed : (cs : List ℕ) → All IsProse (split_lines cs) → truncate_at_references cs ≡ cs
unfolding truncate_at_references
truncate-fixed cs h =
    ap join_lines (before_references-fixed (split_lines cs) h) ∙ join_lines-split_lines cs

strip-fixed :
    (cs : List ℕ) → All IsProse (split_lines cs) → All NoRow (split_lines cs) → strip_blocks cs ≡ cs
unfolding strip_blocks
strip-fixed cs h k =
    ap join_lines (strip_lines-fixed (split_lines cs) h k) ∙ join_lines-split_lines cs

-- The normaliser keeps a text as it is that has no backslash, no line that begins like a table row,
-- and is already tidy: no line starts a references section or is an image or a figure caption,
-- newlines come at most two in a row, and none stands at the end.
pub normalize-fixed :
    (text fallback_title : List ℕ)
    → has_backslash text ≡ false
    → All NoRow (split_lines text)
    → IsTidy text
    → (normalize text fallback_title).body_markdown ≡ text
unfolding normalize normalize_body collapse_blank_runs
normalize-fixed text fallback_title plain norow tidy =
    rw
      (
        rewrite_math_delimiters-fixed text plain,
        truncate-fixed text tidy.lines,
        strip-fixed text tidy.lines norow,
        collapse_from-fixed 0 text tidy.calm,
      )
      (trim_newlines-fixed text tidy.no_end)
