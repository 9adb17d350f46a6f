-- ===== src/Sources/Handling.antt =====
-- What each request does to the sources and answers, on every branch.
pub mod Creating
pub mod Updating
pub mod Outcome
use research_monitor.Base.{
  ℕ, ◌++◌, zero, suc, ◌<◌, ◌≡◌, refl, sym, ap, ◌∙◌, ◌⊎◌, inl, inr, Bool, true, false, ◌||◌, not,
  String, List, [], ◌∷◌, Option, none, some, any, get_elem?, count_if, keep_if, str_eq, eq_iff,
  if◌then◌else◌, arith, Bool-cases,
}
use mathlib.Core.Path.{subst}
use mathlib.Core.Option.{some-injective}
use research_monitor.Text.{is_blank}
use research_monitor.Sql.{
  Found, found, absent, read_failed, FirstLaw, Updated, updated, update_failed, update_where, Table,
}
use research_monitor.Sql.Rows.{any-at_true, count_if-zero}
use research_monitor.Sql.Keyed.{Keyed, saved_rows, SaveLaw, DeleteLaw}
use research_monitor.Http.{
  ErrorBody, error_body, Response, data_response, empty_response, error_response, internal, serve,
}
use research_monitor.Sources.Types.{
  Source, CreateRequest, UpdateRequest, SourceView, to_response, Failure, invalid, not_found,
  conflict, storage, Result, ok, err, kind_is_valid, url_is_valid, validate_create, checked_name,
  validate_update,
}
use research_monitor.Sources.Repository.{
  Row, from_domain, to_domain, has_id, has_url, clash, writing, saved, save, read_one, find_by_id,
  find_by_url, removed, delete,
}
use research_monitor.Sources.UseCase.{
  new_source, edited, url_free, create_valid, create_check, written, create_save, create_checked,
  create, update_valid, update_load, update_save, update_loaded, update, remove, replied,
  removed_reply, Request, post, patch, delete_one, Reply, with_source, without, handle,
}

-- A row of the table.
abbrev pub Stands : List Row → (Row → Bool) → Row → Type 0
Stands rows p m = ((i : ℕ) × (get_elem? rows i ≡ some m)) × (p m ≡ true)

-- No other row has the url of this one.
abbrev pub UrlFree : List Row → Row → Type 0
UrlFree rows m = any (writing.conflicts m) rows ≡ false

abbrev pub Bad : {A : Type 0} → (A → Option Failure) → Option A → ErrorBody → Type 0
Bad validate none body = body ≡ error_body 400 "invalid json body"
Bad validate (some req) body =
    (message : String) × (validate req ≡ some (invalid message)) × (body ≡ error_body 400 message)

abbrev pub Good : {A : Type 0} → (A → Option Failure) → Option A → Type 0
Good {A} validate body = (req : A) × (body ≡ some req) × (validate req ≡ none)

-- The row of a new source: it is active and has not been fetched.
abbrev pub created_row : String → ℕ → CreateRequest → Row
created_row uuid now req = record {
  id = uuid;
  name = req.name;
  kind = req.kind;
  url = req.url;
  is_active = true;
  last_fetched_at = none;
  created_at = now;
  updated_at = now;
}

-- The body of the answer shows the fields of a row.
abbrev pub row_view : Row → SourceView
row_view m = record {
  id = m.id;
  name = m.name;
  kind = m.kind;
  url = m.url;
  is_active = m.is_active;
  last_fetched_at = m.last_fetched_at;
  created_at = m.created_at;
  updated_at = m.updated_at;
}

-- A field is as a request gives it, and as it was where the request does not.
abbrev pub Given : {A : Type 0} → Option A → A → A → Type 0
Given none old new = new ≡ old
Given (some given) old new = new ≡ given

-- The row that a patch makes of a row.
pub record IsPatched (req : UpdateRequest) (now : ℕ) (m m' : Row) : Type 0 where
  pub id : m'.id ≡ m.id
  pub name : Given req.name m.name m'.name
  pub kind : m'.kind ≡ m.kind
  pub url : m'.url ≡ m.url
  pub is_active : Given req.is_active m.is_active m'.is_active
  pub last_fetched_at : m'.last_fetched_at ≡ m.last_fetched_at
  pub created_at : m'.created_at ≡ m.created_at
  pub updated_at : m'.updated_at ≡ now

-- The row with the time that the statement stamps on it.
abbrev pub stamped_row : ℕ → Row → Row
stamped_row stamp m = record m { updated_at = stamp }

-- A new row is appended, or takes the place of the one that has its id.
abbrev pub Added : ℕ → Row → List Row → List Row → Type 0
Added stamp m before after =
    ((any (has_id m.id) before ≡ false) × (after ≡ before ++ m ∷ []))
    ⊎ ((any (has_id m.id) before ≡ true)
        × (after ≡ update_where (has_id m.id) (λ _. stamped_row stamp m) before))

-- `read` is what the lookup by the url answers, and `stores` tells whether a row can be saved.
abbrev pub PostLaw :
    (CreateRequest → Found Row)
    → (Row → Bool)
    → String
    → ℕ
    → ℕ
    → Option CreateRequest
    → List Row
    → Response SourceView
    → List Row
    → Type 0
PostLaw read stores uuid now stamp body before (data_response status view) after =
    (status ≡ 201)
    × ((req : CreateRequest) × (body ≡ some req)
        × (validate_create req ≡ none)
        × (any (has_url req.url) before ≡ false)
        × (view ≡ row_view (created_row uuid now req))
        × Added stamp (created_row uuid now req) before after)
PostLaw read stores uuid now stamp body before (empty_response status) after = ⊥
PostLaw read stores uuid now stamp body before (error_response status e) after =
    (after ≡ before)
    × (((status ≡ 400) × Bad validate_create body e)
        ⊎ ((req : CreateRequest) × (body ≡ some req)
            × (validate_create req ≡ none)
            × (((status ≡ 409)
                  × (e ≡ error_body 409 "source url already exists")
                  × ((m : Row) × Stands before (has_url req.url) m))
                ⊎ ((status ≡ 500)
                    × (e ≡ internal)
                    × ((read req ≡ read_failed) ⊎ (stores (created_row uuid now req) ≡ false))))))

abbrev pub PatchLaw :
    Found Row
    → (Row → Bool)
    → String
    → ℕ
    → ℕ
    → Option UpdateRequest
    → List Row
    → Response SourceView
    → List Row
    → Type 0
PatchLaw read stores id now stamp body before (data_response status view) after =
    (status ≡ 200)
    × ((req : UpdateRequest) × (m : Row) × (m' : Row) × (body ≡ some req)
        × (validate_update req ≡ none)
        × Stands before (has_id id) m
        × IsPatched req now m m'
        × (view ≡ row_view m')
        × UrlFree before m'
        × (after ≡ update_where (has_id id) (λ _. stamped_row stamp m') before))
PatchLaw read stores id now stamp body before (empty_response status) after = ⊥
PatchLaw read stores id now stamp body before (error_response status e) after =
    (after ≡ before)
    × (((status ≡ 400) × Bad validate_update body e)
        ⊎ ((req : UpdateRequest) × (body ≡ some req)
            × (validate_update req ≡ none)
            × (((status ≡ 404)
                  × (e ≡ error_body 404 "source not found")
                  × (any (has_id id) before ≡ false))
                ⊎ ((status ≡ 500)
                    × (e ≡ internal)
                    × ((read ≡ read_failed)
                        ⊎ ((m : Row) × (m' : Row) × Stands before (has_id id) m
                            × IsPatched req now m m'
                            × (stores m' ≡ false)))))))

abbrev pub DropLaw : Updated → String → List Row → Response (Unit {0}) → List Row → Type 0
DropLaw deleted id before (data_response status body) after = ⊥
DropLaw deleted id before (empty_response status) after =
    (status ≡ 204)
    × (0 < count_if (has_id id) before)
    × (after ≡ keep_if (λ m. not (has_id id m)) before)
DropLaw deleted id before (error_response status e) after =
    (after ≡ before)
    × (((status ≡ 404) × (e ≡ error_body 404 "source not found") × (any (has_id id) before ≡ false))
        ⊎ ((status ≡ 500) × (e ≡ internal) × (deleted ≡ update_failed)))

module _ (k : Keyed Row clash writing) (db : Table.Db k.table) where
  open k use {table}
  open table use {rows, first}

  abbrev pub url_lookup : CreateRequest → Found Row
  url_lookup req = first (has_url req.url) (λ _. 0) db

  abbrev pub id_lookup : String → Found Row
  id_lookup id = first (has_id id) (λ _. 0) db

  abbrev pub stores : ℕ → Row → Bool
  stores stamp m = (k.save stamp m db).0

  abbrev pub HandleLaw : Request → Reply → List Row → Type 0
  HandleLaw (post uuid now stamp body) (with_source r) after =
      PostLaw url_lookup (stores stamp) uuid now stamp body (rows db) r after
  HandleLaw (patch id now stamp body) (with_source r) after =
      PatchLaw (id_lookup id) (stores stamp) id now stamp body (rows db) r after
  HandleLaw (delete_one id) (without r) after =
      DropLaw (k.delete (has_id id) db).0 id (rows db) r after
  HandleLaw _ _ after = ⊥
