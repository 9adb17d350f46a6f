-- ===== src/Extraction/FilePath.antt =====
-- What `Process` uses of Go's `path/filepath` and `strings` to derive a title from a path, over
-- code points, with the separator of Unix.
use research_monitor.Base.{
  ℕ, ◌-◌, Bool, true, false, ◌&&◌, not, String, List, [], ◌∷◌, Option, none, some, any, ◌==◌, leb,
  length, take, drop, if◌then◌else◌,
}
use research_monitor.Text.{codes}

abbrev is_slash : ℕ → Bool
is_slash c = c == b'/'

-- The suffix from the last dot of the last element, if there is one.
unfoldable pub last_dot : List ℕ → Option (List ℕ)
last_dot [] = none
last_dot (c ∷ cs) = elim (last_dot cs) [
  | some suffix ↦ some suffix
  | none ↦ if c == b'.' && not (any is_slash cs) then some (c ∷ cs) else none
]

-- `filepath.Ext`
unfoldable pub ext : List ℕ → List ℕ
unfolding last_dot
ext path = elim (last_dot path) [ none ↦ [] | some suffix ↦ suffix ]

abbrev slash_before : ℕ → List ℕ → List ℕ
slash_before c [] = if is_slash c then [] else c ∷ []
slash_before c (d ∷ ds) = c ∷ (d ∷ ds)

unfoldable pub without_slashes : List ℕ → List ℕ
without_slashes [] = []
without_slashes (c ∷ cs) = slash_before c (without_slashes cs)

-- What follows the last slash, or everything.
unfoldable pub last_element : List ℕ → List ℕ
last_element [] = []
last_element (c ∷ cs) =
    let rest = last_element cs in
    if any is_slash (c ∷ cs) then (if any is_slash cs then rest else cs) else c ∷ cs

abbrev or_slash : List ℕ → List ℕ
or_slash [] = b'/' ∷ []
or_slash (c ∷ cs) = c ∷ cs

-- `filepath.Base`
unfoldable pub base : List ℕ → List ℕ
unfolding without_slashes last_element
base [] = b'.' ∷ []
base (c ∷ cs) = or_slash (last_element (without_slashes (c ∷ cs)))

abbrev same_text : List ℕ → List ℕ → Bool
same_text [] [] = true
same_text (a ∷ as') (b ∷ bs) = a == b && same_text as' bs
same_text _ _ = false

-- `strings.TrimSuffix`
unfoldable pub trim_suffix : List ℕ → List ℕ → List ℕ
trim_suffix s suffix =
    let n = length s - length suffix in
    if leb (length suffix) (length s) && same_text (drop n s) suffix then take n s else s

-- The fallback title of `Process`.
unfoldable pub fallback_title : String → List ℕ
unfolding ext base trim_suffix
fallback_title path = trim_suffix (base (codes path)) (ext (codes path))
