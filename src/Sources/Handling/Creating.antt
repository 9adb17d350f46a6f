-- ===== src/Sources/Handling/Creating.antt =====
-- The outcome of `POST /sources`.
use research_monitor.Base.{
  ℕ, Bool-cases, ◌≡◌, refl, sym, ap, ◌∙◌, inl, inr, Bool, true, false, String, Option, none, some,
  any, if◌then◌else◌, arith,
}
use mathlib.Core.Path.{subst}
use mathlib.Core.Option.{some-injective}
use research_monitor.Text.{is_blank}
use research_monitor.Sql.{Found, found, absent, read_failed, FirstLaw, Table}
use research_monitor.Sql.Keyed.{Keyed, saved_rows, SaveLaw}
use research_monitor.Http.{serve}
use research_monitor.Sources.Types.{
  Source, CreateRequest, to_response, Failure, invalid, Result, err, kind_is_valid, url_is_valid,
  validate_create,
}
use research_monitor.Sources.Repository.{
  Row, from_domain, has_id, has_url, clash, writing, saved, read_one, find_by_url,
}
use research_monitor.Sources.UseCase.{
  new_source, url_free, create_valid, written, create_save, create_checked, create, replied,
}
use research_monitor.Sources.Handling.{created_row, Added, PostLaw, url_lookup, stores}

-- A request that is refused is invalid, with a message.
abbrev IsInvalid : Failure → Type 0
IsInvalid e = (message : String) × (e ≡ invalid message)

validate_create-IsInvalid :
    (r : CreateRequest) (e : Failure) → validate_create r ≡ some e → IsInvalid e
unfolding validate_create
validate_create-IsInvalid r e = go (is_blank r.name) (kind_is_valid r.kind) (url_is_valid r.url)
  where
    go :
        (blank kind url : Bool)
        → (if blank
            then some (invalid "name is required")
            else if kind
            then if url then none else some (invalid "url must start with http:// or https://")
            else some (invalid "kind must be 'rss' or 'api'"))
          ≡ some e
        → IsInvalid e
    go true kind url h = (_, sym (some-injective _ _ h))
    go false true true h = absurd (ground arith)
    go false true false h = (_, sym (some-injective _ _ h))
    go false false url h = (_, sym (some-injective _ _ h))

module _ (k : Keyed Row clash writing) (uuid : String) (now stamp : ℕ) (req : CreateRequest)
    (db : Table.Db k.table) where
  open k use {table, save_lem}
  open table use {Db, rows, first, first_lem}

  abbrev Law : Result Source × Db → Type 0
  Law out =
      PostLaw (url_lookup k db) (stores k db stamp) uuid now stamp (some req) (rows db)
        (serve (replied 201 to_response out.0)) (rows out.1)

  added :
      (after : Db)
      → rows after ≡ saved_rows writing stamp (created_row uuid now req) (rows db)
      → Added stamp (created_row uuid now req) (rows db) (rows after)
  added after same = elim (Bool-cases (any (has_id uuid) (rows db))) [
    | inl there ↦ inr (there, same ∙ (rw there refl))
    | inr fresh ↦ inl (fresh, same ∙ (rw fresh refl))
  ]

  saved_lem :
      validate_create req ≡ none
      → any (has_url req.url) (rows db) ≡ false
      → (out : Bool × Db)
      → SaveLaw writing stamp (from_domain (new_source uuid now req)) (rows db) out.0 (rows out.1)
      → stores k db stamp (created_row uuid now req) ≡ out.0
      → Law (written k (new_source uuid now req) (saved k out))
  unfolding serve
  saved_lem valid free (true, after) (_, same) ran =
      (refl, (req, refl, valid, free, refl, added after same))
  saved_lem valid free (false, after) same failed =
      (same, inr (req, refl, valid, inr (refl, refl, inr failed)))

  looked_up_lem :
      validate_create req ≡ none
      → (f : Found Row) → url_lookup k db req ≡ f
      → FirstLaw (has_url req.url) (λ _. 0) (rows db) f
      → Law (create_checked k uuid now stamp req db (url_free k (read_one k f)))
  unfolding serve create_save
  looked_up_lem valid (found m) e (hit, at, _) =
      (refl, inr (req, refl, valid, inl (refl, refl, (m, (at, hit)))))
  looked_up_lem valid absent e free =
      saved_lem valid free (k.save stamp (from_domain (new_source uuid now req)) db)
        (save_lem stamp (from_domain (new_source uuid now req)) db) refl
  looked_up_lem valid read_failed e _ = (refl, inr (req, refl, valid, inr (refl, refl, inl e)))

  create_valid_lem :
      (v : Option Failure)
      → validate_create req ≡ v
      → Law (create_checked k uuid now stamp req db (create_valid k req db v))
  unfolding serve create_save find_by_url
  create_valid_lem none valid =
      looked_up_lem valid (first (has_url req.url) (λ _. 0) db) refl
        (first_lem (has_url req.url) (λ _. 0) db)
  create_valid_lem (some e) refused =
      let (message, same) = validate_create-IsInvalid req e refused in
      subst (λ x. Law (err x, db)) (sym same)
        (refl, inl (refl, (message, refused ∙ ap some same, refl)))

  pub create_lem : Law (create k uuid now stamp req db)
  unfolding serve create
  create_lem = create_valid_lem (validate_create req) refl
