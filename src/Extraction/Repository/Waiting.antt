-- ===== src/Extraction/Repository/Waiting.antt =====
-- What `ListPendingIDs` answers.
use research_monitor.Base.{
  ◌≡◌, refl, ◌∙◌, inl, inr, Bool, false, ◌&&◌, String, List, [], ◌∷◌, Option, none, some, str_eq,
  count_if, keep_if, map, Bool-cases, arith,
}
use research_monitor.Sql.{Ordered, FindLaw, Table}
use research_monitor.Extraction.Types.{pending, Result, ok, err, catalogue_unavailable}
use research_monitor.Extraction.Row.{Row, clash}
use research_monitor.Extraction.Repository.{has_status, plucked, list_pending_ids}

module _ {A B : Type 0} where
  pub count_if-map :
      (p : B → Bool) (f : A → B) (xs : List A) → count_if p (map f xs) ≡ count_if (λ x. p (f x)) xs
  count_if-map p f [] = refl
  count_if-map p f (x ∷ xs) = ground (arith, count_if-map p f xs)

module _ {A : Type 0} where
  pub count_if-keep_if :
      (q p : A → Bool) (xs : List A) → count_if q (keep_if p xs) ≡ count_if (λ x. p x && q x) xs
  count_if-keep_if q p [] = refl
  count_if-keep_if q p (x ∷ xs) = elim (Bool-cases (p x)) [
    | inl hit ↦ rw hit (ground (arith, count_if-keep_if q p xs))
    | inr miss ↦ rw miss (count_if-keep_if q p xs)
  ]

abbrev waits_as : String → Row → Bool
waits_as id r = has_status pending r && str_eq r.id id

-- The ids of rows from the oldest to the youngest, each as often as a pending row has it.
abbrev pub PendingLaw : List Row → Result (List String) → Type 0
PendingLaw rows (ok ids) =
    (listed : List Row) × (ids ≡ map (λ r. r.id) listed)
    × Ordered (λ r. r.created_at) false listed
    × ((q : Row → Bool) → count_if q listed ≡ count_if (λ r. has_status pending r && q r) rows)
    × ((id : String) → count_if (λ i. str_eq i id) ids ≡ count_if (waits_as id) rows)
PendingLaw rows (err e) = e ≡ catalogue_unavailable

module _ (t : Table Row clash) where
  open t use {Db, rows, find, find_lem}

  -- `ListPendingIDs` answers with the ids of the pending rows and of no others, in the order of
  -- their creation, the oldest first: each id occurs as often as a pending row has it. The only
  -- error is that the catalogue is unavailable.
  pub list_pending_ids_lem : (db : Db) → PendingLaw (rows db) (list_pending_ids t db)
  unfolding list_pending_ids
  list_pending_ids_lem db =
      go (find (has_status pending) (λ r. r.created_at) false db)
        (find_lem (has_status pending) (λ r. r.created_at) false db)
    where
      go :
          (out : Option (List Row))
          → FindLaw (has_status pending) (λ r. r.created_at) false (rows db) out
          → PendingLaw (rows db) (plucked t out)
      go none h = refl
      go (some listed) (ordered, counts) = (
        listed,
        refl,
        ordered,
        each,
        λ id. count_if-map (λ i. str_eq i id) (λ r. r.id) listed ∙ each (λ r. str_eq r.id id),
      )
        where
          each :
              (q : Row → Bool)
              → count_if q listed ≡ count_if (λ r. has_status pending r && q r) (rows db)
          each q = counts q ∙ count_if-keep_if q (has_status pending) (rows db)
