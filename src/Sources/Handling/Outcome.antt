-- ===== src/Sources/Handling/Outcome.antt =====
-- The outcome of every request that writes.
use research_monitor.Base.{refl, inl, none, some}
use research_monitor.Sql.Keyed.{Keyed}
use research_monitor.Sources.Repository.{Row, clash, writing}
use research_monitor.Sources.UseCase.{Request, post, patch, delete_one, handle}
use research_monitor.Sources.Handling.{HandleLaw}
use research_monitor.Sources.Handling.Creating.{create_lem}
use research_monitor.Sources.Handling.Updating.{update_lem, remove_lem}

module _ (k : Keyed Row clash writing) where
  open k use {table}
  open table use {Db, rows}

  -- The requests that write, on every branch. A `POST` answers 201 only for a valid request whose url
  -- no row has, and stores the new source that it shows: active, never fetched, with the name, the kind
  -- and the url of the request and the present as both its times; it answers 409 only if a row has
  -- the url. A `PATCH` answers 200 only if a row has the id and no other row has its url, shows this
  -- row with the given name and activity and the present as its time of update, and exactly the rows
  -- with the id are rewritten so, with the time of the statement as the time of update. A `DELETE`
  -- answers 204 only if a row has the id, and exactly the rows with the id are gone. Any other answer
  -- leaves the rows as they were: 400 for a body that cannot be bound or is not valid, 404 if no row
  -- has the id, and 500 only if the lookup failed or the statement that writes did.
  pub handle_lem :
      (req : Request) (db : Db) → HandleLaw k db req (handle k req db).0 (rows (handle k req db).1)
  unfolding handle
  handle_lem (post uuid now stamp none) db = (refl, inl (refl, refl))
  handle_lem (post uuid now stamp (some req)) db = create_lem k uuid now stamp req db
  handle_lem (patch id now stamp none) db = (refl, inl (refl, refl))
  handle_lem (patch id now stamp (some req)) db = update_lem k id now stamp req db
  handle_lem (delete_one id) db = remove_lem k id db
