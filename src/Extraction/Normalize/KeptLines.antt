-- ===== src/Extraction/Normalize/KeptLines.antt =====
-- The passes of the normaliser keep the lines that they do not drop.
use research_monitor.Base.{
  ℕ, suc, ◌≡◌, refl, ap, inl, inr, Bool, true, false, ◌&&◌, List, [], ◌∷◌, All, ltb, ◌==◌,
  Bool-cases, arith, if◌then◌else◌,
}
use research_monitor.Text.{trim_space}
use research_monitor.Extraction.Lines.{newline, open_line, split_lines, is_references_heading}
use research_monitor.Extraction.Normalize.{
  before_references, Scan, prose, separator, rows, is_row, next_is_separator, is_dropped,
  strip_lines, collapse_from, newline_before, trim_newlines,
}

module _ (P : List ℕ → Type 0) where
  -- The lines that are kept of lines that all have the property.
  pub before_references-All : (ls : List (List ℕ)) → All P ls → All P (before_references ls)
  unfolding before_references
  before_references-All [] h = tt
  before_references-All (l ∷ ls) (h, hs) =
      elim (is_references_heading (trim_space l))
        as (λ b. All P (if b then [] else l ∷ before_references ls)) [
          | true ↦ tt
          | false ↦ (h, before_references-All ls hs)
        ]

  strip_one :
      (in_table header dropped : Bool) (l : List ℕ) (xs ys zs : List (List ℕ))
      → All P xs
      → All P ys
      → All P zs
      → (dropped ≡ false → P l)
      → All P (if in_table then xs else if header then ys else if dropped then zs else l ∷ zs)
  strip_one true header dropped l xs ys zs hx hy hz h = hx
  strip_one false true dropped l xs ys zs hx hy hz h = hy
  strip_one false false true l xs ys zs hx hy hz h = hz
  strip_one false false false l xs ys zs hx hy hz h = (h refl, hz)

  pub strip_lines-All :
      (scan : Scan) (ls : List (List ℕ))
      → All (λ l. is_dropped l ≡ false → P l) ls
      → All P (strip_lines scan ls)
  unfolding strip_lines
  strip_lines-All prose [] h = tt
  strip_lines-All separator [] h = tt
  strip_lines-All rows [] h = tt
  strip_lines-All separator (l ∷ ls) (h, hs) = strip_lines-All rows ls hs
  strip_lines-All prose (l ∷ ls) (h, hs) =
      strip_one false (is_row l && next_is_separator ls) (is_dropped l) l [] _ _ tt
        (strip_lines-All separator ls hs) (strip_lines-All prose ls hs) h
  strip_lines-All rows (l ∷ ls) (h, hs) =
      strip_one (is_row l) (is_row l && next_is_separator ls) (is_dropped l) l _ _ _
        (strip_lines-All rows ls hs) (strip_lines-All separator ls hs) (strip_lines-All prose ls hs)
        h

  -- All lines of the text have the property.
  abbrev Lines : List ℕ → Type 0
  Lines cs = All P (split_lines cs)

  abbrev tail : List (List ℕ) → List (List ℕ)
  tail [] = []
  tail (l ∷ ls) = ls

  abbrev head : List (List ℕ) → List ℕ
  head [] = []
  head (l ∷ ls) = l

  open_line_eq : (c : ℕ) (ls : List (List ℕ)) → open_line c ls ≡ (c ∷ head ls) ∷ tail ls
  open_line_eq c [] = refl
  open_line_eq c (l ∷ ls) = refl

  head-collapse : (cs : List ℕ) → head (split_lines (collapse_from 0 cs)) ≡ head (split_lines cs)
  unfolding split_lines collapse_from
  head-collapse [] = refl
  head-collapse (c ∷ cs) = elim (Bool-cases (c == newline)) [
    | inl nl ↦ rw nl refl
    | inr other ↦
        rw
          (
            other,
            other,
            open_line_eq c (split_lines (collapse_from 0 cs)),
            open_line_eq c (split_lines cs),
          )
          (ap (λ l. c ∷ l) (head-collapse cs))
  ]

  collapsed_newline :
      (run : ℕ) (X : List ℕ) → P [] → Lines X → Lines (if ltb run 2 then newline ∷ X else X)
  unfolding split_lines
  collapsed_newline run X empty h =
      elim (ltb run 2) as (λ b. Lines (if b then newline ∷ X else X)) [
        | true ↦ (empty, h)
        | false ↦ h
      ]

  -- Collapsing keeps lines: all of them, or, behind the first line, all that follow it.
  pub collapse-Lines :
      P []
      → (cs : List ℕ)
      → ((run : ℕ) → Lines cs → Lines (collapse_from run cs))
        × (All P (tail (split_lines cs)) → All P (tail (split_lines (collapse_from 0 cs))))
  unfolding split_lines collapse_from
  collapse-Lines empty [] = (λ run h. h, λ h. h)
  collapse-Lines empty (c ∷ cs) =
      let (all_lines, behind) = collapse-Lines empty cs in
      elim (Bool-cases (c == newline)) [
        | inl nl ↦ rw nl (
          λ run h.
              collapsed_newline run (collapse_from (suc run) cs) empty (all_lines (suc run) h.1),
          λ h. all_lines 1 h,
        )
        | inr other ↦
            rw
              (
                other,
                other,
                open_line_eq c (split_lines (collapse_from 0 cs)),
                open_line_eq c (split_lines cs),
                head-collapse cs,
              )
              (λ run h. (h.0, behind h.1), behind)
      ]

  newline_before-other :
      (c : ℕ) (ys : List ℕ) → (c == newline) ≡ false → newline_before c ys ≡ c ∷ ys
  newline_before-other c [] h = ground arith
  newline_before-other c (d ∷ ds) h = refl

  head-newline_before :
      (c : ℕ) (ys : List ℕ) → (c == newline) ≡ true → head (split_lines (newline_before c ys)) ≡ []
  unfolding split_lines
  head-newline_before c [] nl = rw nl refl
  head-newline_before c (d ∷ ds) nl = rw nl refl

  head-trim : (cs : List ℕ) → head (split_lines (trim_newlines cs)) ≡ head (split_lines cs)
  unfolding split_lines trim_newlines
  head-trim [] = refl
  head-trim (c ∷ cs) = elim (Bool-cases (c == newline)) [
    | inl nl ↦ rw nl (head-newline_before c (trim_newlines cs) nl)
    | inr other ↦
        rw
          (
            newline_before-other c (trim_newlines cs) other,
            other,
            open_line_eq c (split_lines (trim_newlines cs)),
            open_line_eq c (split_lines cs),
          )
          (ap (λ l. c ∷ l) (head-trim cs))
  ]

  trimmed_newline :
      (c : ℕ) (ys : List ℕ)
      → (c == newline) ≡ true
      → P []
      → Lines ys
      → Lines (newline_before c ys) × All P (tail (split_lines (newline_before c ys)))
  unfolding split_lines
  trimmed_newline c [] nl empty h = rw nl ((empty, tt), tt)
  trimmed_newline c (d ∷ ds) nl empty h = rw nl ((empty, h), h)

  pub trim-Lines :
      P []
      → (cs : List ℕ)
      → (Lines cs → Lines (trim_newlines cs))
        × (All P (tail (split_lines cs)) → All P (tail (split_lines (trim_newlines cs))))
  unfolding split_lines trim_newlines
  trim-Lines empty [] = (λ h. h, λ h. h)
  trim-Lines empty (c ∷ cs) =
      let (all_lines, behind) = trim-Lines empty cs in
      elim (Bool-cases (c == newline)) [
        | inl nl ↦
            let go = trimmed_newline c (trim_newlines cs) nl empty in
            rw nl (λ h. (go (all_lines h.1)).0, λ h. (go (all_lines h)).1)
        | inr other ↦
            rw
              (
                newline_before-other c (trim_newlines cs) other,
                other,
                open_line_eq c (split_lines (trim_newlines cs)),
                open_line_eq c (split_lines cs),
                head-trim cs,
              )
              (λ h. (h.0, behind h.1), behind)
      ]
