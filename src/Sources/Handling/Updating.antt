-- ===== src/Sources/Handling/Updating.antt =====
-- The outcome of `PATCH /sources/:id` and of `DELETE /sources/:id`.
use research_monitor.Base.{
  ℕ, zero, suc, ◌≡◌, refl, sym, ap, ◌∙◌, inl, inr, Bool, true, false, String, Option, none, some,
  eq_iff, if◌then◌else◌, arith,
}
use mathlib.Core.Path.{subst}
use mathlib.Core.Option.{some-injective}
use research_monitor.Text.{is_blank}
use research_monitor.Sql.{
  Found, found, absent, read_failed, FirstLaw, Updated, updated, update_failed, update_where,
}
use research_monitor.Sql.Rows.{any-at_true, count_if-zero}
use research_monitor.Sql.Keyed.{Keyed, saved_rows, SaveLaw, DeleteLaw}
use research_monitor.Http.{serve}
use research_monitor.Sources.Types.{
  Source, UpdateRequest, to_response, Failure, invalid, Result, err, checked_name, validate_update,
}
use research_monitor.Sources.Repository.{
  Row, from_domain, to_domain, has_id, clash, writing, saved, read_one, find_by_id, removed,
}
use research_monitor.Sources.UseCase.{
  or_else, edited, written, update_valid, loaded, update_save, update_loaded, update, remove,
  replied, removed_reply,
}
use research_monitor.Sources.Handling.{
  Stands, Given, IsPatched, PatchLaw, DropLaw, id_lookup, stores,
}

abbrev IsInvalid : Failure → Type 0
IsInvalid e = (message : String) × (e ≡ invalid message)

checked_name-IsInvalid :
    (name : Option String) (e : Failure) → checked_name name ≡ some e → IsInvalid e
unfolding is_blank
checked_name-IsInvalid none e h = absurd (ground arith)
checked_name-IsInvalid (some name) e h = go (is_blank name) h
  where
    go :
        (blank : Bool)
        → (if blank then some (invalid "name cannot be empty") else none) ≡ some e
        → IsInvalid e
    go true h = (_, sym (some-injective _ _ h))
    go false h = absurd (ground arith)

or_else-Given : {A : Type 0} (o : Option A) (a : A) → Given o a (or_else o a)
or_else-Given none a = refl
or_else-Given (some b) a = refl

-- A request for the id of a row has this row's id.
same_id : (id : String) (m : Row) → has_id id m ≡ true → m.id ≡ id
same_id id m h = (eq_iff m.id id).0 h

module _ (k : Keyed Row clash writing) (id : String) where
  open k use {table, save_lem, delete_lem}
  open table use {Db, rows, first, first_lem}

  module _ (now stamp : ℕ) (req : UpdateRequest) (db : Db) where
    abbrev Law : Result Source × Db → Type 0
    Law out =
        PatchLaw (id_lookup k db id) (stores k db stamp) id now stamp (some req) (rows db)
          (serve (replied 200 to_response out.0)) (rows out.1)

    -- What is saved over a row that stands is written in its place.
    in_place :
        (m : Row)
        → Stands (rows db) (has_id id) m
        → saved_rows writing stamp (from_domain (edited req now (to_domain m))) (rows db)
          ≡ update_where
              (has_id id)
              (λ _. writing.touched stamp (from_domain (edited req now (to_domain m))))
              (rows db)
    in_place m ((i, at), hit) =
        rw (same_id id m hit) (rw (any-at_true (has_id id) (rows db) i m at hit) refl)

    edited-IsPatched : (m : Row) → IsPatched req now m (from_domain (edited req now (to_domain m)))
    edited-IsPatched m = record {
      id = refl;
      name = or_else-Given req.name m.name;
      kind = refl;
      url = refl;
      is_active = or_else-Given req.is_active m.is_active;
      last_fetched_at = refl;
      created_at = refl;
      updated_at = refl;
    }

    saved_lem :
        validate_update req ≡ none
        → (m : Row) → Stands (rows db) (has_id id) m
        → (out : Bool × Db)
        → SaveLaw writing stamp
            (from_domain (edited req now (to_domain m)))
            (rows db)
            out.0
            (rows out.1)
        → stores k db stamp (from_domain (edited req now (to_domain m))) ≡ out.0
        → Law (written k (edited req now (to_domain m)) (saved k out))
    unfolding serve
    saved_lem valid m stands (true, after) (free, same) ran = (
      refl,
      (
        req,
        m,
        from_domain (edited req now (to_domain m)),
        refl,
        valid,
        stands,
        edited-IsPatched m,
        refl,
        free,
        same ∙ in_place m stands,
      ),
    )
    saved_lem valid m stands (false, after) same failed =
        let m' = from_domain (edited req now (to_domain m)) in
        (
          same,
          inr (req, refl, valid, inr (refl, refl, inr (m, m', stands, edited-IsPatched m, failed))),
        )

    found_lem :
        validate_update req ≡ none
        → (f : Found Row) → id_lookup k db id ≡ f
        → FirstLaw (has_id id) (λ _. 0) (rows db) f
        → Law (update_loaded k stamp db (loaded k now req (read_one k f)))
    unfolding serve update_save
    found_lem valid (found m) e (hit, at, _) =
        saved_lem valid m (at, hit) (k.save stamp (from_domain (edited req now (to_domain m))) db)
          (save_lem stamp (from_domain (edited req now (to_domain m))) db) refl
    found_lem valid absent e nobody = (refl, inr (req, refl, valid, inl (refl, refl, nobody)))
    found_lem valid read_failed e _ = (refl, inr (req, refl, valid, inr (refl, refl, inl e)))

    update_valid_lem :
        (v : Option Failure)
        → validate_update req ≡ v
        → Law (update_loaded k stamp db (update_valid k id now req db v))
    unfolding serve update_save find_by_id validate_update
    update_valid_lem none valid =
        found_lem valid (first (has_id id) (λ _. 0) db) refl (first_lem (has_id id) (λ _. 0) db)
    update_valid_lem (some e) refused =
        let (message, same) = checked_name-IsInvalid req.name e refused in
        subst (λ x. Law (err x, db)) (sym same)
          (refl, inl (refl, (message, refused ∙ ap some same, refl)))

    pub update_lem : Law (update k id now stamp req db)
    unfolding serve update
    update_lem = update_valid_lem (validate_update req) refl

  abbrev DropOutcome : Db → Option Failure × Db → Type 0
  DropOutcome db out =
      DropLaw (k.delete (has_id id) db).0 id (rows db) (serve (removed_reply out.0)) (rows out.1)

  removed_lem :
      (db : Db) (out : Updated × Db)
      → DeleteLaw (has_id id) (rows db) out.0 (rows out.1)
      → (k.delete (has_id id) db).0 ≡ out.0
      → DropOutcome db (removed k out)
  unfolding serve
  removed_lem db (update_failed, after) same failed = (same, inr (refl, refl, failed))
  removed_lem db (updated zero, after) (same, n) ran =
      let (nobody, kept) = count_if-zero (has_id id) (rows db) n in
      (same ∙ kept, inl (refl, refl, nobody))
  removed_lem db (updated (suc n), after) (same, count) ran = (refl, omega (arith, count), same)

  pub remove_lem : (db : Db) → DropOutcome db (remove k id db)
  unfolding serve remove
  remove_lem db = removed_lem db (k.delete (has_id id) db) (delete_lem (has_id id) db) refl
