-- ===== src/Sql/Rows.antt =====
-- Tables in which no two rows break a key, under insertion and update.
use research_monitor.Base.{
  ℕ, zero, suc, ◌≡◌, refl, sym, ap, ◌∙◌, inl, inr, Bool, true, false, ◌||◌, List, [], ◌∷◌, ◌++◌,
  some, any, get_elem?, count_if, keep_if, not, Bool-cases, arith, if◌then◌else◌,
}
use mathlib.Core.Path.{subst}
use mathlib.Core.Option.{some-injective}
use research_monitor.Sql.{update_where}

module _ {Row : Type 0} where
  differ : (p : Row → Bool) (r s : Row) → r ≡ s → p r ≡ false → p s ≡ true → ⊥
  differ p r s e h k = ground (arith, ap p e)

  -- A row that passes, where none does.
  pub any-at :
      (p : Row → Bool) (rows : List Row) (i : ℕ) (r : Row)
      → any p rows ≡ false
      → get_elem? rows i ≡ some r
      → p r ≡ true
      → ⊥
  any-at p [] i r h e k = ground arith
  any-at p (q ∷ rows) zero r h e k = differ p q r (some-injective _ _ e) (ground arith) k
  any-at p (q ∷ rows) (suc i) r h e k = any-at p rows i r (ground arith) e k

  pub any-append_last :
      (p : Row → Bool) (x : Row) (rows : List Row)
      → any p rows ≡ false
      → p x ≡ false
      → any p (rows ++ x ∷ []) ≡ false
  any-append_last p x [] h k = ground arith
  any-append_last p x (s ∷ rows) h k = ground (arith, any-append_last p x rows)

  pub update_where-at :
      (p : Row → Bool) (f : Row → Row) (rows : List Row) (i : ℕ) (r : Row)
      → get_elem? rows i ≡ some r
      → p r ≡ true
      → get_elem? (update_where p f rows) i ≡ some (f r)
  update_where-at p f [] i r h k = absurd (ground arith)
  update_where-at p f (q ∷ rows) zero r h k = let same = some-injective _ _ h in rw (same, k) refl
  update_where-at p f (q ∷ rows) (suc i) r h k = update_where-at p f rows i r h k

module _ {Row : Type 0} (clash : Row → Row → Bool) where
  abbrev pub NoClash : List Row → Type 0
  NoClash [] = Unit
  NoClash (r ∷ rows) = (any (clash r) rows ≡ false) × NoClash rows

  pub NoClash-append :
      ((r s : Row) → clash r s ≡ false → clash s r ≡ false)
      → (x : Row) (rows : List Row) → any (clash x) rows ≡ false
      → NoClash rows
      → NoClash (rows ++ x ∷ [])
  NoClash-append symm x [] h n = (refl, tt)
  NoClash-append symm x (r ∷ rows) h (out, n) = (
    any-append_last (clash r) x rows out (symm x r (ground arith)),
    NoClash-append symm x rows (ground arith) n,
  )

  -- Two rows that break a key together are one row.
  pub same_row :
      (rows : List Row) (i j : ℕ) (r s : Row)
      → NoClash rows
      → get_elem? rows i ≡ some r
      → get_elem? rows j ≡ some s
      → clash r s ≡ true
      → clash s r ≡ true
      → r ≡ s
  same_row [] i j r s n at at' h k = absurd (ground arith)
  same_row (x ∷ rows) zero zero r s n at at' h k =
      sym (some-injective _ _ at) ∙ some-injective _ _ at'
  same_row (x ∷ rows) zero (suc j) r s (out, n) at at' h k = absurd (
      any-at (clash x) rows j s out at'
        (subst (λ y. clash y s ≡ true) (sym (some-injective _ _ at)) h))
  same_row (x ∷ rows) (suc i) zero r s (out, n) at at' h k = absurd (
      any-at (clash x) rows i r out at
        (subst (λ y. clash y r ≡ true) (sym (some-injective _ _ at')) k))
  same_row (x ∷ rows) (suc i) (suc j) r s (out, n) at at' h k = same_row rows i j r s n at at' h k

  -- An update that leaves the keys alone.
  module _ (p : Row → Bool) (f : Row → Row)
      (keeps : (r s : Row)
        → clash (if p r then f r else r) (if p s then f s else s) ≡ clash r s) where
    any-moved :
        (r : Row) (rows : List Row)
        → any (clash (if p r then f r else r)) (update_where p f rows) ≡ any (clash r) rows
    any-moved r [] = refl
    any-moved r (s ∷ rows) = λ i. keeps r s i || any-moved r rows i

    pub NoClash-update : (rows : List Row) → NoClash rows → NoClash (update_where p f rows)
    NoClash-update [] n = tt
    NoClash-update (r ∷ rows) (out, n) = (any-moved r rows ∙ out, NoClash-update rows n)

module _ {Row : Type 0} where
  pub any-at_true :
      (p : Row → Bool) (rows : List Row) (i : ℕ) (r : Row)
      → get_elem? rows i ≡ some r
      → p r ≡ true
      → any p rows ≡ true
  any-at_true p rows i r at hit = elim (Bool-cases (any p rows)) [
    | inl out ↦ out
    | inr out ↦ absurd (any-at p rows i r out at hit)
  ]

  pub count_if-zero :
      (p : Row → Bool) (rows : List Row)
      → 0 ≡ count_if p rows
      → (any p rows ≡ false) × (keep_if (λ r. not (p r)) rows ≡ rows)
  count_if-zero p [] h = (refl, refl)
  count_if-zero p (r ∷ rows) h = elim (Bool-cases (p r)) [
    | inl hit ↦ absurd (ground (arith, hit, h))
    | inr miss ↦
        let (none, same) = count_if-zero p rows (ground (arith, miss, h)) in
        (rw miss none, rw miss (ap (λ rs. r ∷ rs) same))
  ]
