-- ===== src/Pdf/Path.antt =====
-- Paths as the store builds them (`filepath.Join` and `filepath.Clean` on Unix). An absolute path is
-- the list of its elements; the root of the store is such a path, cleaned.
use research_monitor.Base.{
  ℕ, ◌≡◌, refl, Bool, true, false, ◌&&◌, List, [], ◌∷◌, ◌++◌, ◌==◌, any, arith, if◌then◌else◌,
}

abbrev pub same_text : List ℕ → List ℕ → Bool
same_text [] [] = true
same_text [] (d ∷ ds) = false
same_text (c ∷ cs) [] = false
same_text (c ∷ cs) (d ∷ ds) = c == d && same_text cs ds

abbrev pub same_path : List (List ℕ) → List (List ℕ) → Bool
same_path [] [] = true
same_path [] (t ∷ ts) = false
same_path (s ∷ ss) [] = false
same_path (s ∷ ss) (t ∷ ts) = same_text s t && same_path ss ts

pub same_text_refl : (s : List ℕ) → same_text s s ≡ true
same_text_refl [] = refl
same_text_refl (c ∷ cs) = ground (arith, same_text_refl cs)

pub same_path_refl : (p : List (List ℕ)) → same_path p p ≡ true
same_path_refl [] = refl
same_path_refl (s ∷ ss) = ground (arith, same_text_refl s, same_path_refl ss)

abbrev start_segment : ℕ → List (List ℕ) → List (List ℕ)
start_segment c [] = (c ∷ []) ∷ []
start_segment c (s ∷ ss) = (c ∷ s) ∷ ss

-- The elements between the slashes; never none.
unfoldable pub segments : List ℕ → List (List ℕ)
segments [] = [] ∷ []
segments (c ∷ cs) = let rest = segments cs in if c == b'/' then [] ∷ rest else start_segment c rest

abbrev pub dot : List ℕ
dot = b'.' ∷ []

abbrev pub dot_dot : List ℕ
dot_dot = b'.' ∷ b'.' ∷ []

abbrev up : List (List ℕ) → List (List ℕ)
up [] = []
up (s ∷ []) = []
up (s ∷ (t ∷ ts)) = s ∷ up (t ∷ ts)

-- One element of `Clean` after those before it.
unfoldable pub step_into : List (List ℕ) → List ℕ → List (List ℕ)
step_into at s =
    if same_text s []
    then at
    else if same_text s dot
    then at
    else if same_text s dot_dot
    then up at
    else at ++ s ∷ []

unfoldable pub walk : List (List ℕ) → List (List ℕ) → List (List ℕ)
unfolding step_into
walk at [] = at
walk at (s ∷ ss) = walk (step_into at s) ss

-- `filepath.Join(at, name)`
unfoldable pub join : List (List ℕ) → List ℕ → List (List ℕ)
unfolding walk segments
join at name = walk at (segments name)

pub segments_one : (s : List ℕ) → any (λ c. c == b'/') s ≡ false → segments s ≡ s ∷ []
unfolding segments
segments_one [] h = refl
segments_one (c ∷ cs) h = ground (arith, segments_one cs)
