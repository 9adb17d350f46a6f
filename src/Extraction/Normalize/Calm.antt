-- ===== src/Extraction/Normalize/Calm.antt =====
-- Newlines in the normalised body: never three in a row, and none at the end.
use research_monitor.Base.{
  ℕ, suc, ◌≡◌, refl, inl, inr, Bool, true, false, ◌&&◌, List, [], ◌∷◌, ltb, ◌==◌, Bool-cases, arith,
  if◌then◌else◌,
}
use research_monitor.Extraction.Lines.{newline}
use research_monitor.Extraction.Normalize.{collapse_from, newline_before, trim_newlines}

-- Newlines come at most two in a row, the number of them just read included.
unfoldable pub is_calm : ℕ → List ℕ → Bool
is_calm run [] = true
is_calm run (c ∷ cs) =
    let again = is_calm (suc run) cs in
    let fresh = is_calm 0 cs in if c == newline then ltb run 2 && again else fresh

abbrev capped : ℕ → ℕ
capped run = if ltb run 2 then run else 2

pub collapse_from-calm :
    (run : ℕ) (cs : List ℕ) → is_calm (capped run) (collapse_from run cs) ≡ true
unfolding collapse_from is_calm
collapse_from-calm run [] = refl
collapse_from-calm run (c ∷ cs) =
    ground (arith, collapse_from-calm (suc run) cs, collapse_from-calm 0 cs)

newline_before-calm :
    (run c : ℕ) (ys : List ℕ)
    → is_calm run (c ∷ ys) ≡ true
    → is_calm run (newline_before c ys) ≡ true
unfolding is_calm
newline_before-calm run c [] h = ground arith
newline_before-calm run c (d ∷ ds) h = h

pub trim_newlines-calm :
    (run : ℕ) (cs : List ℕ) → is_calm run cs ≡ true → is_calm run (trim_newlines cs) ≡ true
unfolding trim_newlines is_calm
trim_newlines-calm run [] h = refl
trim_newlines-calm run (c ∷ cs) h =
    newline_before-calm run c (trim_newlines cs) (elim (Bool-cases (c == newline)) [
      | inl nl ↦
          let rest : is_calm (suc run) cs ≡ true = ground arith in
          ground (arith, trim_newlines-calm (suc run) cs rest)
      | inr other ↦
          let rest : is_calm 0 cs ≡ true = ground arith in
          ground (arith, trim_newlines-calm 0 cs rest)
    ])

-- The text ends with a newline.
unfoldable pub ends_with_newline : List ℕ → Bool
ends_with_newline [] = false
ends_with_newline (c ∷ []) = c == newline
ends_with_newline (c ∷ (d ∷ ds)) = ends_with_newline (d ∷ ds)

newline_before-end :
    (c : ℕ) (ys : List ℕ)
    → ends_with_newline ys ≡ false
    → ends_with_newline (newline_before c ys) ≡ false
unfolding ends_with_newline
newline_before-end c [] h = ground arith
newline_before-end c (d ∷ ds) h = h

pub trim_newlines-end : (cs : List ℕ) → ends_with_newline (trim_newlines cs) ≡ false
unfolding trim_newlines ends_with_newline
trim_newlines-end [] = refl
trim_newlines-end (c ∷ cs) = newline_before-end c (trim_newlines cs) (trim_newlines-end cs)
