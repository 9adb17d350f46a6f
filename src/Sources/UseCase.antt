-- ===== src/Sources/UseCase.antt =====
-- The use case of sources, and its handlers. An operation that reads and then writes is two steps,
-- since another request may run between them.
use research_monitor.Base.{
  ℕ, Bool, true, false, String, List, [], Option, none, some, if◌then◌else◌,
}
use research_monitor.Sql.Keyed.{Keyed}
use research_monitor.Http.{
  Response, serve, GoError, Handled, wrote, status_only, raised, new_http_error,
}
use research_monitor.Sources.Types.{
  Source, CreateRequest, UpdateRequest, SourceView, to_response, to_response_list, Failure,
  not_found, conflict, go_error, Result, ok, err, validate_create, validate_update,
}
use research_monitor.Sources.Repository.{
  Row, clash, writing, save, find_by_id, find_by_url, list, delete,
}

abbrev pub is_not_found : Failure → Bool
is_not_found not_found = true
is_not_found _ = false

-- The source that `Create` builds.
abbrev pub new_source : String → ℕ → CreateRequest → Source
new_source uuid now req = record {
  id = uuid;
  name = req.name;
  kind = req.kind;
  url = req.url;
  is_active = true;
  last_fetched_at = none;
  created_at = now;
  updated_at = now;
}

abbrev pub or_else {ℓ} : {A : Type ℓ} → Option A → A → A
or_else none a = a
or_else (some b) a = b

-- The fields that `Update` sets.
abbrev pub edited : UpdateRequest → ℕ → Source → Source
edited req now s = record s {
  name = or_else req.name s.name;
  is_active = or_else req.is_active s.is_active;
  updated_at = now;
}

module _ (k : Keyed Row clash writing) where
  open k use {table}
  open table use {Db}

  -- The lookup of `Create`: `none` lets it go on.
  abbrev pub url_free : Result Source → Option Failure
  url_free (ok s) = some conflict
  url_free (err e) = if is_not_found e then none else some e

  abbrev pub create_valid : CreateRequest → Db → Option Failure → Option Failure
  unfolding find_by_url
  create_valid req db (some e) = some e
  create_valid req db none = url_free (find_by_url k req.url db)

  -- What `Create` does before it saves.
  unfoldable pub create_check : CreateRequest → Db → Option Failure
  unfolding find_by_url validate_create
  create_check req db = create_valid req db (validate_create req)

  abbrev pub written : Source → Option Failure × Db → Result Source × Db
  written s (none, db) = (ok s, db)
  written s (some e, db) = (err e, db)

  unfoldable pub create_save : String → ℕ → ℕ → CreateRequest → Db → Result Source × Db
  unfolding save
  create_save uuid now stamp req db =
      written (new_source uuid now req) (save k stamp (new_source uuid now req) db)

  abbrev pub create_checked :
      String → ℕ → ℕ → CreateRequest → Db → Option Failure → Result Source × Db
  unfolding create_save
  create_checked uuid now stamp req db (some e) = (err e, db)
  create_checked uuid now stamp req db none = create_save uuid now stamp req db

  -- `Create`
  unfoldable pub create : String → ℕ → ℕ → CreateRequest → Db → Result Source × Db
  unfolding create_check create_save
  create uuid now stamp req db = create_checked uuid now stamp req db (create_check req db)

  unfoldable pub get : String → Db → Result Source
  unfolding find_by_id
  get id db = find_by_id k id db

  unfoldable pub list_all : Db → Result (List Source)
  unfolding list
  list_all db = list k db

  abbrev pub loaded : ℕ → UpdateRequest → Result Source → Result Source
  loaded now req (ok s) = ok (edited req now s)
  loaded now req (err e) = err e

  abbrev pub update_valid : String → ℕ → UpdateRequest → Db → Option Failure → Result Source
  unfolding find_by_id
  update_valid id now req db (some e) = err e
  update_valid id now req db none = loaded now req (find_by_id k id db)

  -- What `Update` does before it saves.
  unfoldable pub update_load : String → ℕ → UpdateRequest → Db → Result Source
  unfolding find_by_id validate_update
  update_load id now req db = update_valid id now req db (validate_update req)

  unfoldable pub update_save : ℕ → Source → Db → Result Source × Db
  unfolding save
  update_save stamp s db = written s (save k stamp s db)

  abbrev pub update_loaded : ℕ → Db → Result Source → Result Source × Db
  unfolding update_save
  update_loaded stamp db (err e) = (err e, db)
  update_loaded stamp db (ok s) = update_save stamp s db

  -- `Update`
  unfoldable pub update : String → ℕ → ℕ → UpdateRequest → Db → Result Source × Db
  unfolding update_load update_save
  update id now stamp req db = update_loaded stamp db (update_load id now req db)

  unfoldable pub remove : String → Db → Option Failure × Db
  unfolding delete
  remove id db = delete k id db

-- The handlers; `none` says that a body could not be bound.
abbrev pub replied : {A B : Type 0} → ℕ → (A → B) → Result A → Handled B
replied status view (ok a) = wrote status (view a)
replied status view (err e) = raised (go_error e)

abbrev pub bad_body : GoError
bad_body = new_http_error 400 "invalid json body" []

abbrev pub removed_reply : Option Failure → Handled (Unit {0})
removed_reply none = status_only 204
removed_reply (some e) = raised (go_error e)

module _ (k : Keyed Row clash writing) where
  open k use {table}
  open table use {Db}

  unfoldable pub create_handler :
      String → ℕ → ℕ → Option CreateRequest → Db → Handled SourceView × Db
  unfolding create
  create_handler uuid now stamp none db = (raised bad_body, db)
  create_handler uuid now stamp (some req) db =
      let out = create k uuid now stamp req db in (replied 201 to_response out.0, out.1)

  unfoldable pub list_handler : Db → Handled (List SourceView)
  unfolding list_all
  list_handler db = replied 200 to_response_list (list_all k db)

  unfoldable pub get_handler : String → Db → Handled SourceView
  unfolding get
  get_handler id db = replied 200 to_response (get k id db)

  unfoldable pub update_handler :
      String → ℕ → ℕ → Option UpdateRequest → Db → Handled SourceView × Db
  unfolding update
  update_handler id now stamp none db = (raised bad_body, db)
  update_handler id now stamp (some req) db =
      let out = update k id now stamp req db in (replied 200 to_response out.0, out.1)

  unfoldable pub delete_handler : String → Db → Handled (Unit {0}) × Db
  unfolding remove
  delete_handler id db = let out = remove k id db in (removed_reply out.0, out.1)

-- The requests of the routes (internal/http/route/source_route.go) that write, and their replies.
pub data Request : Type 0 where
  post : String → ℕ → ℕ → Option CreateRequest → Request
  patch : String → ℕ → ℕ → Option UpdateRequest → Request
  delete_one : String → Request

pub data Reply : Type 0 where
  with_source : Response SourceView → Reply
  without : Response (Unit {0}) → Reply

module _ (k : Keyed Row clash writing) where
  open k use {table}
  open table use {Db}

  unfoldable pub handle : Request → Db → Reply × Db
  unfolding create_handler update_handler delete_handler serve
  handle (post uuid now stamp body) db =
      let out = create_handler k uuid now stamp body db in (with_source (serve out.0), out.1)
  handle (patch id now stamp body) db =
      let out = update_handler k id now stamp body db in (with_source (serve out.0), out.1)
  handle (delete_one id) db = let out = delete_handler k id db in (without (serve out.0), out.1)
