-- ===== src/Examples/Memory.antt =====
-- A table that keeps its rows in a list and never fails: it has the laws that the repositories rely
-- on. The second table refuses every update.
use research_monitor.Base.{
  ℕ, zero, suc, ◌≤◌, ◌≢◌, ap, ◌≡◌, refl, inl, inr, Bool, true, false, List, [], ◌∷◌, ◌++◌, some,
  leb, not, any, count_if, keep_if, ◌∙◌, get_elem?, Option, Bool-cases, arith, if◌then◌else◌,
}
use mathlib.Core.Option.{some-injective}
use research_monitor.Sql.Rows.{any-at}
use research_monitor.Sql.Keyed.{Writing, saved_rows, SaveLaw, Keyed}
use research_monitor.Sql.{
  in_order, Ordered, FindLaw, Created, inserted, duplicated, create_failed, Found, found, absent,
  read_failed, Updated, updated, update_failed, update_where, CreateLaw, FirstLaw, Table,
}

module _ {Row : Type 0} where
  abbrev pub create_in : (Row → Row → Bool) → Row → List Row → Created × List Row
  create_in clash row rows =
      if any (clash row) rows then (duplicated, rows) else (inserted, rows ++ row ∷ [])

  abbrev pub better : (Row → ℕ) → Row → Found Row → Found Row
  better key r (found q) = if leb (key r) (key q) then found r else found q
  better key r absent = found r
  better key r read_failed = read_failed

  abbrev pub first_in : (Row → Bool) → (Row → ℕ) → List Row → Found Row
  first_in p key [] = absent
  first_in p key (r ∷ rows) =
      let rest = first_in p key rows in if p r then better key r rest else rest

  -- Insertion before the first row that may stand behind.
  abbrev pub insert : (Row → ℕ) → Bool → Row → List Row → List Row
  insert key descending r [] = r ∷ []
  insert key descending r (s ∷ rows) =
      let rest = insert key descending r rows in
      if in_order key descending r s then r ∷ (s ∷ rows) else s ∷ rest

  abbrev pub sort : (Row → ℕ) → Bool → List Row → List Row
  sort key descending [] = []
  sort key descending (r ∷ rows) = insert key descending r (sort key descending rows)

  count-insert :
      (key : Row → ℕ) (descending : Bool) (q : Row → Bool) (r : Row) (rows : List Row)
      → count_if q (insert key descending r rows) ≡ count_if q (r ∷ rows)
  count-insert key descending q r [] = refl
  count-insert key descending q r (s ∷ rows) = elim (Bool-cases (in_order key descending r s)) [
    | inl hit ↦ rw hit refl
    | inr miss ↦ rw miss (ground (arith, count-insert key descending q r rows))
  ]

  count-sort :
      (key : Row → ℕ) (descending : Bool) (q : Row → Bool) (rows : List Row)
      → count_if q (sort key descending rows) ≡ count_if q rows
  count-sort key descending q [] = refl
  count-sort key descending q (r ∷ rows) =
      count-insert key descending q r (sort key descending rows)
      ∙ ground (arith, count-sort key descending q rows)

  turned_around :
      (key : Row → ℕ) (descending : Bool) (r s : Row)
      → in_order key descending r s ≡ false
      → in_order key descending s r ≡ true
  turned_around key true r s h = ground arith
  turned_around key false r s h = ground arith

  -- A row that may stand before the first of an ordered list and before an inserted one.
  behind-Ordered :
      (key : Row → ℕ) (descending : Bool) (s r q : Row) (rows : List Row)
      → in_order key descending s r ≡ true
      → in_order key descending s q ≡ true
      → Ordered key descending (insert key descending r (q ∷ rows))
      → Ordered key descending (s ∷ insert key descending r (q ∷ rows))
  behind-Ordered key descending s r q rows hr hq = go (in_order key descending r q)
    where
      go :
          (b : Bool)
          → Ordered key descending (if b then r ∷ (q ∷ rows) else q ∷ insert key descending r rows)
          → Ordered key descending
              (s ∷ (if b then r ∷ (q ∷ rows) else q ∷ insert key descending r rows))
      go true o = (hr, o)
      go false o = (hq, o)

  insert-Ordered :
      (key : Row → ℕ) (descending : Bool) (r : Row) (rows : List Row)
      → Ordered key descending rows
      → Ordered key descending (insert key descending r rows)
  insert-Ordered key descending r [] o = tt
  insert-Ordered key descending r (s ∷ []) o = elim (Bool-cases (in_order key descending r s)) [
    | inl hit ↦ rw hit (hit, tt)
    | inr miss ↦ rw miss (turned_around key descending r s miss, tt)
  ]
  insert-Ordered key descending r (s ∷ (q ∷ rows)) (h, o) =
      elim (Bool-cases (in_order key descending r s)) [
        | inl hit ↦ rw hit (hit, (h, o))
        | inr miss ↦ rw miss (
            behind-Ordered key descending s r q rows (turned_around key descending r s miss) h
              (insert-Ordered key descending r (q ∷ rows) o))
      ]

  sort-Ordered :
      (key : Row → ℕ) (descending : Bool) (rows : List Row)
      → Ordered key descending (sort key descending rows)
  sort-Ordered key descending [] = tt
  sort-Ordered key descending (r ∷ rows) =
      insert-Ordered key descending r (sort key descending rows) (sort-Ordered key descending rows)

  abbrev pub find_in : (Row → Bool) → (Row → ℕ) → Bool → List Row → Option (List Row)
  find_in p key descending rows = some (sort key descending (keep_if p rows))

  pub find_in-Law :
      (p : Row → Bool) (key : Row → ℕ) (descending : Bool) (rows : List Row)
      → FindLaw p key descending rows (find_in p key descending rows)
  find_in-Law p key descending rows = (
    sort-Ordered key descending (keep_if p rows),
    λ q. count-sort key descending q (keep_if p rows),
  )

  abbrev pub update_in : (Row → Bool) → (Row → Row) → List Row → Updated × List Row
  update_in p f rows = (updated (count_if p rows), update_where p f rows)

  pub create_in-Law :
      (clash : Row → Row → Bool) (row : Row) (rows : List Row)
      → CreateLaw clash row rows (create_in clash row rows).0 (create_in clash row rows).1
  create_in-Law clash row rows = go (any (clash row) rows) refl
    where
      go :
          (b : Bool)
          → any (clash row) rows ≡ b
          → let out : Created × List Row =
              if b then (duplicated, rows) else (inserted, rows ++ row ∷ []) in
            CreateLaw clash row rows out.0 out.1
      go true h = (refl, h)
      go false h = (refl, h)

  differ : (p : Row → Bool) (r r' : Row) → r ≡ r' → p r ≡ false → p r' ≡ true → ⊥
  differ p r r' e h k = ground (arith, ap p e)

  -- The law for the rows behind one that does not pass.
  skip-Law :
      (p : Row → Bool) (key : Row → ℕ) (r : Row) (rows : List Row) (f : Found Row)
      → p r ≡ false
      → FirstLaw p key rows f
      → FirstLaw p key (r ∷ rows) f
  skip-Law p key r rows (found q) out (hit, (i, at), least) = (hit, (suc i, at), skipped)
    where
      skipped : (j : ℕ) (r' : Row) → get_elem? (r ∷ rows) j ≡ some r' → p r' ≡ true → key q ≤ key r'
      skipped zero r' e k = absurd (differ p r r' (some-injective _ _ e) out k)
      skipped (suc j) r' e k = least j r' e k
  skip-Law p key r rows absent out h = ground arith
  skip-Law p key r rows read_failed out h = h

  better-Law :
      (p : Row → Bool) (key : Row → ℕ) (r : Row) (rows : List Row) (f : Found Row)
      → p r ≡ true
      → FirstLaw p key rows f
      → FirstLaw p key (r ∷ rows) (better key r f)
  better-Law p key r rows read_failed hit h = h
  better-Law p key r rows absent hit h = (hit, (zero, refl), least)
    where
      least : (j : ℕ) (r' : Row) → get_elem? (r ∷ rows) j ≡ some r' → p r' ≡ true → key r ≤ key r'
      least zero r' e k = omega (arith, ap key (some-injective _ _ e))
      least (suc j) r' e k = absurd (any-at p rows j r' h e k)
  better-Law p key r rows (found q) hit (hit', (i, at), least) =
      elim (Bool-cases (leb (key r) (key q))) [
        | inl le ↦ rw le (hit, (zero, refl), front (ground arith))
        | inr gt ↦ rw gt (hit', (suc i, at), behind (ground arith))
      ]
    where
      front :
          key r ≤ key q
          → (j : ℕ) (r' : Row) → get_elem? (r ∷ rows) j ≡ some r'
          → p r' ≡ true
          → key r ≤ key r'
      front h zero r' e k = omega (arith, ap key (some-injective _ _ e))
      front h (suc j) r' e k = omega (arith, least j r' e k)

      behind :
          key q ≤ key r
          → (j : ℕ) (r' : Row) → get_elem? (r ∷ rows) j ≡ some r'
          → p r' ≡ true
          → key q ≤ key r'
      behind h zero r' e k = omega (arith, ap key (some-injective _ _ e))
      behind h (suc j) r' e k = least j r' e k

  pub first_in-Law :
      (p : Row → Bool) (key : Row → ℕ) (rows : List Row) → FirstLaw p key rows (first_in p key rows)
  first_in-Law p key [] = refl
  first_in-Law p key (r ∷ rows) = elim (Bool-cases (p r)) [
    | inl hit ↦ rw hit (better-Law p key r rows (first_in p key rows) hit (first_in-Law p key rows))
    | inr miss ↦
        rw miss (skip-Law p key r rows (first_in p key rows) miss (first_in-Law p key rows))
  ]

  better-reads :
      (key : Row → ℕ) (r : Row) (f : Found Row) → f ≢ read_failed → better key r f ≢ read_failed
  better-reads key r (found q) h = go (leb (key r) (key q))
    where
      go : (b : Bool) → (if b then found r else found q) ≢ read_failed
      go true = λ e. absurd (ground arith)
      go false = λ e. absurd (ground arith)
  better-reads key r absent h = λ e. absurd (ground arith)
  better-reads key r read_failed h = h

  pick-reads :
      (b : Bool) (f g : Found Row)
      → f ≢ read_failed
      → g ≢ read_failed
      → (if b then f else g) ≢ read_failed
  pick-reads true f g hf hg = hf
  pick-reads false f g hf hg = hg

  -- A read never fails.
  pub first_in-reads :
      (p : Row → Bool) (key : Row → ℕ) (rows : List Row) → first_in p key rows ≢ read_failed
  first_in-reads p key [] = λ e. absurd (ground arith)
  first_in-reads p key (r ∷ rows) =
      pick-reads (p r) (better key r (first_in p key rows)) (first_in p key rows)
        (better-reads key r (first_in p key rows) (first_in-reads p key rows))
        (first_in-reads p key rows)

  abbrev pub memory : (clash : Row → Row → Bool) → Table Row clash
  memory clash = record {
    Db = List Row;
    rows = λ db. db;
    create = create_in clash;
    first = first_in;
    find = find_in;
    update = update_in;
    commits = λ db. true;
    create_lem = create_in-Law clash;
    first_lem = first_in-Law;
    find_lem = find_in-Law;
    update_lem = λ p f db. (refl, refl);
  }

  -- The table of a database that has become read-only.
  abbrev pub read_only : (clash : Row → Row → Bool) → Table Row clash
  read_only clash = record {
    Db = List Row;
    rows = λ db. db;
    create = λ row db. (create_failed, db);
    first = first_in;
    find = find_in;
    update = λ p f db. (update_failed, db);
    commits = λ db. true;
    create_lem = λ row db. refl;
    first_lem = first_in-Law;
    find_lem = find_in-Law;
    update_lem = λ p f db. refl;
  }

module _ {Row : Type 0} (clash : Row → Row → Bool) (w : Writing Row) where
  abbrev pub save_in : ℕ → Row → List Row → Bool × List Row
  save_in stamp row rows =
      if any (w.conflicts row) rows then (false, rows) else (true, saved_rows w stamp row rows)

  pub save_in-Law :
      (stamp : ℕ) (row : Row) (rows : List Row)
      → SaveLaw w stamp row rows (save_in stamp row rows).0 (save_in stamp row rows).1
  save_in-Law stamp row rows = go (any (w.conflicts row) rows) refl
    where
      go :
          (b : Bool)
          → any (w.conflicts row) rows ≡ b
          → let out : Bool × List Row =
              if b then (false, rows) else (true, saved_rows w stamp row rows) in
            SaveLaw w stamp row rows out.0 out.1
      go true h = refl
      go false h = (h, refl)

  abbrev pub keyed : Keyed Row clash w
  keyed = record {
    table = memory clash;
    save = save_in;
    delete = λ p db. (updated (count_if p db), keep_if (λ r. not (p r)) db);
    save_lem = save_in-Law;
    delete_lem = λ p db. (refl, refl);
  }
