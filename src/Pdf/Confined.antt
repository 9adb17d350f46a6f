-- ===== src/Pdf/Confined.antt =====
-- Where the store keeps an artifact: a valid key leads to a file below the root.
use research_monitor.Base.{
  ℕ, ◌<◌, ◌≡◌, refl, ap, ◌∙◌, ◌⊎◌, inl, inr, true, false, String, List, [], ◌∷◌, ◌++◌, none, ◌==◌,
  ==_iff, any, length, length-append, Bool-cases, arith,
}
use research_monitor.Text.{codes, trim_left, trim_right, trim_space, is_blank, is_empty}
use research_monitor.Pdf.Key.{Key, has_dots, is_path_char, is_traversal, validate}
use research_monitor.Pdf.Path.{
  same_text, same_path, segments, segments_one, dot, dot_dot, step_into, walk, join,
}
use research_monitor.Pdf.Store.{parent_path, canonical_path, temp_path}

-- What a valid key guarantees.
pub record IsKey (k : Key) : Type 0 where
  pub some_type : is_blank k.source_type ≡ false
  pub some_id : is_blank k.source_id ≡ false
  pub some_url : is_blank k.url ≡ false
  pub safe_type : is_traversal k.source_type ≡ false
  pub safe_id : is_traversal k.source_id ≡ false

-- `Validate` accepts a key exactly if its three parts are not blank and its two names hold neither
-- two dots in a row nor a slash or a backslash.
pub validate-IsKey : (k : Key) → validate k ≡ none → IsKey k
unfolding validate
validate-IsKey k h = record {
  some_type = ground arith;
  some_id = ground arith;
  some_url = ground arith;
  safe_type = ground arith;
  safe_id = ground arith;
}

pub IsKey-validate : (k : Key) → IsKey k → validate k ≡ none
unfolding validate
IsKey-validate k key = rw (key.some_type, key.some_id, key.some_url, key.safe_type, key.safe_id)

no_slash : (cs : List ℕ) → any is_path_char cs ≡ false → any (λ c. c == b'/') cs ≡ false
no_slash [] h = refl
no_slash (c ∷ cs) h = ground (arith, no_slash cs)

any-suffix :
    (cs ds : List ℕ)
    → any (λ c. c == b'/') cs ≡ false
    → any (λ c. c == b'/') ds ≡ false
    → any (λ c. c == b'/') (cs ++ ds) ≡ false
any-suffix [] ds h k = k
any-suffix (c ∷ cs) ds h k = ground (arith, any-suffix cs ds)

nonempty : (s : String) → is_blank s ≡ false → same_text (codes s) [] ≡ false
unfolding is_blank trim_space trim_left trim_right
nonempty s h = go (codes s) h
  where
    go : (cs : List ℕ) → is_empty (trim_right (trim_left cs)) ≡ false → same_text cs [] ≡ false
    go [] k = k
    go (c ∷ cs) k = refl

not_dot_dot : (cs : List ℕ) → has_dots cs ≡ false → same_text cs dot_dot ≡ false
unfolding has_dots
not_dot_dot [] h = refl
not_dot_dot (c ∷ []) h = ground arith
not_dot_dot (c ∷ (d ∷ [])) h = ground arith
not_dot_dot (c ∷ (d ∷ (e ∷ es))) h = ground arith

pub same_text-eq : (xs ys : List ℕ) → same_text xs ys ≡ true → xs ≡ ys
same_text-eq [] [] h = refl
same_text-eq [] (y ∷ ys) h = absurd (ground arith)
same_text-eq (x ∷ xs) [] h = absurd (ground arith)
same_text-eq (x ∷ xs) (y ∷ ys) h =
    let head : x ≡ y = (==_iff x y).0 (ground arith) in
    let tail : xs ≡ ys = same_text-eq xs ys (ground arith) in λ i. head i ∷ tail i

same_text-longer : (xs ys : List ℕ) → length ys < length xs → same_text xs ys ≡ false
same_text-longer [] ys h = absurd (omega arith)
same_text-longer (x ∷ xs) [] h = refl
same_text-longer (x ∷ xs) (y ∷ ys) h = ground (arith, same_text-longer xs ys (omega arith))

same_text-prefix : (xs a b : List ℕ) → same_text (xs ++ a) (xs ++ b) ≡ same_text a b
same_text-prefix [] a b = refl
same_text-prefix (x ∷ xs) a b = ground (arith, same_text-prefix xs a b)

same_path-prefix :
    (ps : List (List ℕ)) (a b : List ℕ) → same_path (ps ++ a ∷ []) (ps ++ b ∷ []) ≡ same_text a b
same_path-prefix [] a b = ground arith
same_path-prefix (p ∷ ps) a b =
    ground (arith, same_path-prefix ps a b, research_monitor.Pdf.Path.same_text_refl p)

-- A name of four characters or more without a slash is one element.
join_name :
    (at : List (List ℕ)) (s : List ℕ)
    → any (λ c. c == b'/') s ≡ false
    → 2 < length s
    → join at s ≡ at ++ s ∷ []
unfolding join walk step_into
join_name at s h long = rw (
  segments_one s h,
  same_text-longer s [] (omega arith),
  same_text-longer s dot (omega arith),
  same_text-longer s dot_dot long,
)

safe-slash : (s : String) → is_traversal s ≡ false → any (λ c. c == b'/') (codes s) ≡ false
unfolding is_traversal
safe-slash s h = no_slash (codes s) (ground arith)

safe-dots : (s : String) → is_traversal s ≡ false → same_text (codes s) dot_dot ≡ false
unfolding is_traversal
safe-dots s h = not_dot_dot (codes s) (ground arith)

append_two : (ps : List (List ℕ)) (a b : List ℕ) → (ps ++ a ∷ []) ++ b ∷ [] ≡ ps ++ (a ∷ b ∷ [])
append_two [] a b = refl
append_two (p ∷ ps) a b = ap (λ l. p ∷ l) (append_two ps a b)

module _ (root : List (List ℕ)) (k : Key) (key : IsKey k) where
  abbrev file_name : List ℕ
  file_name = codes k.source_id ++ codes ".pdf"

  name-slash : any (λ c. c == b'/') file_name ≡ false
  name-slash =
      any-suffix (codes k.source_id) (codes ".pdf") (safe-slash k.source_id key.safe_id) refl

  canonical-parent : canonical_path root k ≡ parent_path root k ++ file_name ∷ []
  unfolding canonical_path
  canonical-parent =
      join_name (parent_path root k) file_name name-slash
        (omega (arith, length-append (codes k.source_id) (codes ".pdf")))

  -- The parent is the root with the source type below it, or the root itself for the type `.`.
  parent_lem :
      (parent_path root k ≡ root ++ codes k.source_type ∷ [])
      ⊎ ((codes k.source_type ≡ dot) × (parent_path root k ≡ root))
  unfolding parent_path join walk step_into
  parent_lem =
      let one = segments_one (codes k.source_type) (safe-slash k.source_type key.safe_type) in
      let full = nonempty k.source_type key.some_type in
      elim (Bool-cases (same_text (codes k.source_type) dot)) [
        | inl d ↦ inr (same_text-eq (codes k.source_type) dot d, (rw (one, full, d)))
        | inr n ↦ inl (rw (one, full, n, safe-dots k.source_type key.safe_type))
      ]

  -- The temporary file is never the canonical one.
  pub temp-canonical :
      (random : List ℕ) → same_path (temp_path root k random) (canonical_path root k) ≡ false
  unfolding temp_path
  temp-canonical random =
      rw
        (
          canonical-parent,
          same_path-prefix (parent_path root k)
              (codes k.source_id ++ (codes "." ++ (random ++ codes ".pdf.tmp"))) file_name,
          same_text-prefix (codes k.source_id) (codes "." ++ (random ++ codes ".pdf.tmp"))
              (codes ".pdf"),
        )
        (same_text-longer (codes "." ++ (random ++ codes ".pdf.tmp")) (codes ".pdf")
          (omega (arith, length-append random (codes ".pdf.tmp"))))

  below_root :
      (canonical_path root k
        ≡ root ++ (codes k.source_type ∷ (codes k.source_id ++ codes ".pdf") ∷ []))
      ⊎ ((codes k.source_type ≡ dot)
          × (canonical_path root k ≡ root ++ (codes k.source_id ++ codes ".pdf") ∷ []))
  below_root = elim parent_lem [
    | inl p ↦ inl (canonical-parent ∙ (rw p (append_two root (codes k.source_type) file_name)))
    | inr (d, p) ↦ inr (d, canonical-parent ∙ ap (λ l. l ++ file_name ∷ []) p)
  ]

-- The file of a key that `Validate` accepts stands below the root: in the directory of its source
-- type, or in the root itself for the type `.`, under its id with `.pdf`.
pub canonical-below :
    (root : List (List ℕ)) (k : Key)
    → validate k ≡ none
    → (canonical_path root k
        ≡ root ++ (codes k.source_type ∷ (codes k.source_id ++ codes ".pdf") ∷ []))
      ⊎ ((codes k.source_type ≡ dot)
          × (canonical_path root k ≡ root ++ (codes k.source_id ++ codes ".pdf") ∷ []))
canonical-below root k valid = below_root root k (validate-IsKey k valid)
