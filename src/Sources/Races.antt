-- ===== src/Sources/Races.antt =====
-- An update that races with a deletion: another request runs between the read and the write of
-- `Update`.
use research_monitor.Base.{
  ℕ, ◌≡◌, refl, sym, ap, ◌∙◌, inl, inr, Bool, true, false, not, String, List, [], ◌∷◌, ◌++◌, Option,
  none, some, any, keep_if, eq_iff, zero, suc, arith, Bool-cases,
}
use research_monitor.Sql.{
  Found, found, absent, read_failed, FirstLaw, Updated, updated, update_failed,
}
use research_monitor.Sql.Keyed.{Keyed, SaveLaw, DeleteLaw}
use research_monitor.Sources.Types.{
  Source, UpdateRequest, Failure, Result, ok, err, validate_update,
}
use research_monitor.Sources.Repository.{
  Row, from_domain, has_id, clash, writing, saved, read_one, removed,
}
use research_monitor.Sources.UseCase.{
  loaded, update_valid, update_load, written, update_save, remove,
}

any-keep_not : (p : Row → Bool) (rows : List Row) → any p (keep_if (λ m. not (p m)) rows) ≡ false
any-keep_not p [] = refl
any-keep_not p (m ∷ rows) = elim (Bool-cases (p m)) [
  | inl hit ↦ rw hit (any-keep_not p rows)
  | inr miss ↦ rw miss (rw miss (any-keep_not p rows))
]

abbrev id_or : String → Result Source → String
id_or id (ok s) = s.id
id_or id (err e) = id

module _ (k : Keyed Row clash writing) (id : String) (now stamp : ℕ) (req : UpdateRequest) where
  open k use {table, save_lem, delete_lem}
  open table use {Db, rows, first, first_lem}

  load-id : (db : Db) → id_or id (update_load k id now req db) ≡ id
  unfolding update_load
  load-id db = valid (validate_update req)
    where
      read :
          (f : Found Row)
          → FirstLaw (has_id id) (λ _. 0) (rows db) f
          → id_or id (loaded k now req (read_one k f)) ≡ id
      read (found m) (hit, _, _) = (eq_iff m.id id).0 hit
      read absent h = refl
      read read_failed h = refl

      valid : (v : Option Failure) → id_or id (update_valid k id now req db v) ≡ id
      valid none = read (first (has_id id) (λ _. 0) db) (first_lem (has_id id) (λ _. 0) db)
      valid (some e) = refl

  -- A deletion that succeeds leaves no row with the id.
  remove-gone :
      (db : Db) → (remove k id db).0 ≡ none → any (has_id id) (rows (remove k id db).1) ≡ false
  unfolding remove
  remove-gone db = go (k.delete (has_id id) db) (delete_lem (has_id id) db)
    where
      go :
          (out : Updated × Db)
          → DeleteLaw (has_id id) (rows db) out.0 (rows out.1)
          → (removed k out).0 ≡ none
          → any (has_id id) (rows (removed k out).1) ≡ false
      go (update_failed, after) same h = absurd (ground arith)
      go (updated zero, after) same h = absurd (ground arith)
      go (updated (suc n), after) (same, _) h =
          ap (any (has_id id)) same ∙ any-keep_not (has_id id) (rows db)

  -- A source that was read for an update and is deleted before the update is written comes back: when
  -- the deletion has succeeded, no row has the id, and yet the write, if it succeeds, inserts the
  -- edited source as a new row, which is active whatever the update asked for.
  pub update_resurrects :
      (before : Db) (s : Source)
      → update_load k id now req before ≡ ok s
      → (remove k id before).0 ≡ none
      → (update_save k stamp s (remove k id before).1).0 ≡ ok s
      → (any (has_id id) (rows (remove k id before).1) ≡ false)
        × (s.id ≡ id)
        × (rows (update_save k stamp s (remove k id before).1).1
            ≡ rows (remove k id before).1 ++ record (from_domain s) { is_active = true } ∷ [])
  unfolding update_save
  update_resurrects before s read deleted saved_ok =
      let gone = remove-gone before deleted in
      let own : s.id ≡ id = ap (id_or id) (sym read) ∙ load-id before in
      (
        gone,
        own,
        go (k.save stamp (from_domain s) (remove k id before).1)
            (save_lem stamp (from_domain s) (remove k id before).1) saved_ok
            (ap (λ x. any (has_id x) (rows (remove k id before).1)) own ∙ gone),
      )
    where
      go :
          (out : Bool × Db)
          → SaveLaw writing stamp (from_domain s) (rows (remove k id before).1) out.0 (rows out.1)
          → (written k s (saved k out)).0 ≡ ok s
          → any (has_id s.id) (rows (remove k id before).1) ≡ false
          → rows (written k s (saved k out)).1
            ≡ rows (remove k id before).1 ++ record (from_domain s) { is_active = true } ∷ []
      go (true, after) (_, same) h out = same ∙ rw out refl
      go (false, after) same h out = absurd (ground arith)
