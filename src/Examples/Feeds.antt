-- ===== src/Examples/Feeds.antt =====
-- Sources, applied.
use research_monitor.Base.{◌≡◌, refl, true, false, List, [], ◌∷◌, ◌++◌, none, some, any}
use research_monitor.Sql.Keyed.{Keyed}
use research_monitor.Sources.Types.{Source, UpdateRequest, ok}
use research_monitor.Sources.Repository.{Row, from_domain, to_domain, has_id, clash, writing}
use research_monitor.Sources.UseCase.{post, patch, handle, edited, update_load, update_save, remove}
use research_monitor.Sources.Handling.{HandleLaw}
use research_monitor.Sources.Handling.Outcome.{handle_lem}
use research_monitor.Sources.Races.{update_resurrects}
use research_monitor.Examples.Memory.{keyed}

abbrev store : Keyed Row clash writing
store = keyed clash writing

abbrev feed : Row
feed = record {
  id = "s1";
  name = "one";
  kind = "rss";
  url = "http://one";
  is_active = true;
  last_fetched_at = none;
  created_at = 1;
  updated_at = 1;
}

abbrev feeds : List Row
feeds = feed ∷ []

abbrev renaming : UpdateRequest
renaming = record { name = some "uno"; is_active = some false }

handle_lem_example :
    HandleLaw store feeds
      (patch "s1" 5 6 (some renaming))
      (handle store (patch "s1" 5 6 (some renaming)) feeds).0
      (handle store (patch "s1" 5 6 (some renaming)) feeds).1
handle_lem_example = handle_lem store (patch "s1" 5 6 (some renaming)) feeds

-- A url that is taken, and one that is not.
taken_url :
    (handle store
      (post "s2" 7 7 (some (record { name = "two"; kind = "api"; url = "http://one" })))
      feeds).1
    ≡ feeds
unfolding handle
taken_url = refl

abbrev renamed : Source
renamed = edited renaming 5 (to_domain feed)

loaded : update_load store "s1" 5 renaming feeds ≡ ok renamed
unfolding update_load
loaded = refl

deleted : (remove store "s1" feeds).0 ≡ none
unfolding remove
deleted = refl

saved : (update_save store 6 renamed (remove store "s1" feeds).1).0 ≡ ok renamed
unfolding update_save remove
saved = refl

update_resurrects_example :
    (any (has_id "s1") (remove store "s1" feeds).1 ≡ false)
    × (renamed.id ≡ "s1")
    × ((update_save store 6 renamed (remove store "s1" feeds).1).1
        ≡ (remove store "s1" feeds).1 ++ record (from_domain renamed) { is_active = true } ∷ [])
update_resurrects_example =
    update_resurrects store "s1" 5 6 renaming feeds renamed loaded deleted saved
