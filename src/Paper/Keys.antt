-- ===== src/Paper/Keys.antt =====
-- What `Save` does on every branch, and that a saved entry is found under its key.
use research_monitor.Base.{
  ℕ, not, sym, ◌≡◌, ◌≢◌, refl, ◌∙◌, ◌⊎◌, Bool, true, false, String, List, [], ◌∷◌, ◌++◌, some, any,
  str_eq, eq_iff, arith,
}
use research_monitor.Sql.{Created, inserted, duplicated, create_failed, CreateLaw, Table}
use research_monitor.Paper.{Entry}
use research_monitor.Paper.Catalogue.{
  Row, ListCodec, Answer, value, not_found, catalogue_unavailable, has_key, clash, filled, stamped,
  from_domain, created, save,
}

abbrev pub entry_key : Entry → Row → Bool
entry_key e = has_key e.source e.source_id

-- The entry as the catalogue shows it: as it was saved, but for a zero time of update, which has
-- become the time of the save.
abbrev pub Kept : ℕ → Entry → Entry → Type 0
Kept now e e' =
    ((e.updated_at ≢ 0) × (e' ≡ e)) ⊎ ((e.updated_at ≡ 0) × (e' ≡ record e { updated_at = now }))

-- The row of an entry.
abbrev pub new_row : String → ℕ → String → String → Entry → Row
new_row uuid now authors categories e = record {
  id = uuid;
  source = e.source;
  source_id = e.source_id;
  version = e.version;
  title = e.title;
  authors = authors;
  abstract = e.abstract;
  primary_category = e.primary_category;
  categories = categories;
  submitted_at = e.submitted_at;
  updated_at = filled now e.updated_at;
  pdf_url = e.pdf_url;
  abs_url = e.abs_url;
  created_at = now;
}

abbrev pub SaveLaw : Row → List Row → Answer Bool → List Row → Type 0
SaveLaw m before (value true) after = (after ≡ before ++ m ∷ []) × (any (clash m) before ≡ false)
SaveLaw m before (value false) after = (after ≡ before) × (any (clash m) before ≡ true)
SaveLaw m before _ after = after ≡ before

-- The id is no row's.
abbrev pub Unused : String → List Row → Type 0
Unused uuid rows = any (λ r. str_eq r.id uuid) rows ≡ false

clash-key :
    (m : Row) (rows : List Row)
    → Unused m.id rows
    → any (clash m) rows ≡ any (has_key m.source m.source_id) rows
clash-key m [] h = refl
clash-key m (r ∷ rows) h = ground (arith, clash-key m rows)

any-last : (p : Row → Bool) (rows : List Row) (m : Row) → p m ≡ true → any p (rows ++ m ∷ []) ≡ true
any-last p [] m h = ground arith
any-last p (r ∷ rows) m h = ground (arith, any-last p rows m)

entry_key_self :
    (uuid : String) (now : ℕ) (a c : String) (e : Entry)
    → entry_key e (new_row uuid now a c e) ≡ true
entry_key_self uuid now a c e =
    ground (arith, eq_iff e.source e.source, eq_iff e.source_id e.source_id)

abbrev shown_entry : ℕ → Entry → Entry
shown_entry now e = record e { updated_at = filled now e.updated_at }

module _ (t : Table Row clash) (codec : ListCodec) (uuid : String) (now : ℕ) (e : Entry) where
  open t use {Db, rows, create, create_lem, first, first_lem}

  created_lem :
      (m : Row) (before : List Row) (c : Created × Db)
      → CreateLaw clash m before c.0 (rows c.1)
      → SaveLaw m before (created t codec c).0 (rows (created t codec c).1)
  created_lem m before (inserted, db) h = h
  created_lem m before (duplicated, db) h = h
  created_lem m before (create_failed, db) h = h

  abbrev pub SavedLaw : Db → Answer Bool × Db → Type 0
  SavedLaw db out =
      (authors : String) × (categories : String) × (codec.marshal e.authors ≡ some authors)
      × (codec.marshal e.categories ≡ some categories)
      × SaveLaw (new_row uuid now authors categories e) (rows db) out.0 (rows out.1)

  pub save_lem : (db : Db) → SavedLaw db (save t codec uuid now e db)
  unfolding save from_domain stamped
  save_lem db =
      let (authors, ma) = codec.marshal-some e.authors in
      let (categories, mc) = codec.marshal-some e.categories in
      let m = new_row uuid now authors categories e in
      (
        authors,
        categories,
        ma,
        mc,
        rw (ma, mc) (created_lem m (rows db) (create m db) (create_lem m db)),
      )

  -- What the answer of `Save` tells of the key.
  abbrev pub KeyLaw : List Row → Answer Bool → List Row → Type 0
  KeyLaw before (value is_new) after =
      (any (entry_key e) before ≡ not is_new) × (any (entry_key e) after ≡ true)
  KeyLaw before _ after = after ≡ before

  SaveLaw-key :
      (a c : String) (before after : List Row) (out : Answer Bool)
      → Unused uuid before
      → SaveLaw (new_row uuid now a c e) before out after
      → KeyLaw before out after
  SaveLaw-key a c before after (value true) unused (same, free) = (
    sym (clash-key (new_row uuid now a c e) before unused) ∙ free,
    rw same
        (any-last (entry_key e) before (new_row uuid now a c e) (entry_key_self uuid now a c e)),
  )
  SaveLaw-key a c before after (value false) unused (same, hit) =
      let k : any (entry_key e) before ≡ true =
        sym (clash-key (new_row uuid now a c e) before unused) ∙ hit in
      (k, rw same k)
  SaveLaw-key a c before after not_found unused h = h
  SaveLaw-key a c before after catalogue_unavailable unused h = h

  -- Under an unused uuid, `Save` reports a new entry exactly if no row had its key before, and a row
  -- has the key afterwards; if it fails, the rows are what they were.
  pub save_key :
      (db : Db)
      → Unused uuid (rows db)
      → KeyLaw (rows db) (save t codec uuid now e db).0 (rows (save t codec uuid now e db).1)
  save_key db unused =
      let (a, c, _, _, law) = save_lem db in
      SaveLaw-key a c (rows db) (rows (save t codec uuid now e db).1) (save t codec uuid now e db).0
        unused law
