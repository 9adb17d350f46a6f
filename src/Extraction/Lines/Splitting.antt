-- ===== src/Extraction/Lines/Splitting.antt =====
-- Splitting a text into lines and joining them again.
use research_monitor.Base.{
  ℕ, ◌≡◌, refl, sym, ap, ◌∙◌, inl, inr, false, List, [], ◌∷◌, ◌++◌, any, All, ◌==◌, ==_iff,
  Bool-cases, arith,
}
use research_monitor.Extraction.Lines.{newline, open_line, split_lines, join_lines}

-- A line that is one line.
abbrev pub IsLine : List ℕ → Type 0
IsLine line = any (λ c. c == newline) line ≡ false

open_line-All :
    (c : ℕ) (lines : List (List ℕ))
    → (c == newline) ≡ false
    → All IsLine lines
    → All IsLine (open_line c lines)
open_line-All c [] h a = (ground arith, tt)
open_line-All c (l ∷ ls) h (a, as') = (ground arith, as')

pub split_lines-All : (cs : List ℕ) → All IsLine (split_lines cs)
unfolding split_lines
split_lines-All [] = (refl, tt)
split_lines-All (c ∷ cs) = elim (Bool-cases (c == newline)) [
  | inl nl ↦ rw nl (refl, split_lines-All cs)
  | inr other ↦ rw other (open_line-All c (split_lines cs) other (split_lines-All cs))
]

split_one : (line : List ℕ) → IsLine line → split_lines line ≡ line ∷ []
unfolding split_lines
split_one [] h = refl
split_one (c ∷ cs) h = ground (arith, split_one cs)

split_front :
    (line rest : List ℕ)
    → IsLine line
    → split_lines (line ++ (newline ∷ rest)) ≡ line ∷ split_lines rest
unfolding split_lines
split_front [] rest h = refl
split_front (c ∷ cs) rest h = ground (arith, split_front cs rest)

-- Splitting undoes joining, for lines without newlines; no lines give the one empty line.
pub split_lines-join_lines :
    (l : List ℕ) (ls : List (List ℕ))
    → All IsLine (l ∷ ls)
    → split_lines (join_lines (l ∷ ls)) ≡ l ∷ ls
unfolding join_lines
split_lines-join_lines l [] (a, _) = split_one l a
split_lines-join_lines l (m ∷ ls) (a, as') =
    split_front l (join_lines (m ∷ ls)) a ∙ ap (λ q. l ∷ q) (split_lines-join_lines m ls as')

open_line_cons :
    (c : ℕ) (ls : List (List ℕ))
    → (l' : List ℕ) × (ls' : List (List ℕ)) × (open_line c ls ≡ l' ∷ ls')
open_line_cons c [] = (c ∷ [], [], refl)
open_line_cons c (l ∷ ls) = (c ∷ l, ls, refl)

pub split_lines_cons :
    (cs : List ℕ) → (l : List ℕ) × (ls : List (List ℕ)) × (split_lines cs ≡ l ∷ ls)
unfolding split_lines
split_lines_cons [] = ([], [], refl)
split_lines_cons (c ∷ cs) = elim (Bool-cases (c == newline)) [
  | inl nl ↦ rw nl ([], split_lines cs, refl)
  | inr other ↦ rw other (open_line_cons c (split_lines cs))
]

join_lines-open_line :
    (c : ℕ) (l : List ℕ) (ls : List (List ℕ))
    → join_lines (open_line c (l ∷ ls)) ≡ c ∷ join_lines (l ∷ ls)
unfolding join_lines
join_lines-open_line c l [] = refl
join_lines-open_line c l (m ∷ ls) = refl

join_lines-newline :
    (l : List ℕ) (ls : List (List ℕ)) → join_lines ([] ∷ (l ∷ ls)) ≡ newline ∷ join_lines (l ∷ ls)
unfolding join_lines
join_lines-newline l ls = refl

join_lines-empty : join_lines ([] ∷ []) ≡ []
unfolding join_lines
join_lines-empty = refl

-- Joining undoes splitting, for every text.
pub join_lines-split_lines : (cs : List ℕ) → join_lines (split_lines cs) ≡ cs
unfolding split_lines
join_lines-split_lines [] = join_lines-empty
join_lines-split_lines (c ∷ cs) =
    let (l, ls, e) = split_lines_cons cs in
    let ih : join_lines (l ∷ ls) ≡ cs = ap join_lines (sym e) ∙ join_lines-split_lines cs in
    elim (Bool-cases (c == newline)) [
      | inl nl ↦
          let is_newline : c ≡ newline = (==_iff c newline).0 nl in
          rw (nl, e) (join_lines-newline l ls ∙ (λ i. sym is_newline i ∷ ih i))
      | inr other ↦ rw (other, e) (join_lines-open_line c l ls ∙ ap (λ q. c ∷ q) ih)
    ]

-- A property of the empty line and of all lines joined holds of all lines of the text.
pub All-join_lines :
    (P : List ℕ → Type 0) (ls : List (List ℕ))
    → P []
    → All IsLine ls
    → All P ls
    → All P (split_lines (join_lines ls))
unfolding split_lines join_lines
All-join_lines P [] empty a p = (empty, tt)
All-join_lines P (l ∷ ls) empty a p = rw (split_lines-join_lines l ls a) p
