-- ===== src/Examples/Catalogue.antt =====
-- The extraction catalogue, applied.
use research_monitor.Base.{◌≡◌, ◌≢◌, ◌⊎◌, refl, List, [], ◌∷◌, String, none, some, get_elem?, ◌>>=◌}
use research_monitor.Text.{codes}
use research_monitor.Sql.{Table}
use research_monitor.Extraction.Types.{
  RequestPayload, Extraction, Artifact, pending, running, done, ok,
}
use research_monitor.Extraction.Row.{Row, clash, from_domain, to_domain}
use research_monitor.Extraction.Trip.{to_domain-from_domain}
use research_monitor.Extraction.Repository.{
  to_running, transition, claim_pending, list_pending_ids, upsert, recover_running_on_startup,
}
use research_monitor.Extraction.Repository.Effects.{
  TransitionLaw, gate, transition_exact, RecoverLaw, restart_failure, recover_lem,
}
use research_monitor.Extraction.Repository.Upserts.{new_row, UpsertLaw, upsert_lem}
use research_monitor.Extraction.Repository.Edges.{Moves}
use research_monitor.Extraction.Repository.Clean.{
  Op, submit, claim, complete, apply, apply_all, Takes, apply-Moves,
}
use research_monitor.Extraction.Repository.Sound.{IsSound, apply_all-IsSound}
use research_monitor.Extraction.Repository.Claims.{claim_once}
use research_monitor.Extraction.Repository.Waiting.{PendingLaw, list_pending_ids_lem}
use research_monitor.Examples.Memory.{memory}
use research_monitor.Examples.Codecs.{payload_codec, encode, fields}

abbrev pub table : Table Row clash
table = memory clash

abbrev pub payload : String → RequestPayload
payload id = record { source_type = "paper"; source_id = id; pdf_path = "/srv/a.pdf" }

abbrev pub column : String → String
column id = encode (fields (payload id))

-- One row that waits.
abbrev pub waiting_row : Row
waiting_row = new_row "x" (column "p") 5 (payload "p")

abbrev pub artifact : Artifact
artifact = record {
  title = codes "T";
  body_markdown = codes "b";
  metadata = record { content_type = "paper"; word_count = 1 };
}

abbrev history : List Op
history =
    submit "x" 5 (payload "p")
    ∷ (claim 6 "x" ∷ (complete 7 "x" artifact ∷ (submit "y" 8 (payload "p") ∷ [])))

apply_all-IsSound_example : IsSound (apply_all table payload_codec history [])
apply_all-IsSound_example =
    apply_all-IsSound table payload_codec history [] (record { clean = tt; distinct = tt })

apply-Moves_example :
    (r' : Row) × (get_elem? (apply table payload_codec (claim 6 "x") (waiting_row ∷ [])) 0
      ≡ some r')
    × ((r' ≡ waiting_row) ⊎ (Moves waiting_row r' × Takes (claim 6 "x") waiting_row r'))
apply-Moves_example =
    apply-Moves table payload_codec (claim 6 "x") (waiting_row ∷ []) 0 waiting_row refl

won : (claim_pending table 6 "x" (waiting_row ∷ [])).0 ≡ ok tt
unfolding claim_pending
won = refl

claim_once_example :
    (claim_pending table 9 "x" (
      apply_all table payload_codec
        (complete 7 "x" artifact ∷ [])
        (claim_pending table 6 "x" (waiting_row ∷ [])).1)).0
    ≢ ok tt
claim_once_example =
    claim_once table payload_codec "x" 6 9 (complete 7 "x" artifact ∷ []) (waiting_row ∷ [])
      (refl, tt) won

transition_exact_example :
    TransitionLaw
      (gate "x" pending)
      (to_running 6)
      (waiting_row ∷ [])
      (table.update (gate "x" pending) (to_running 6) (waiting_row ∷ [])).0
      (transition table "x" pending (to_running 6) (waiting_row ∷ [])).0
      (transition table "x" pending (to_running 6) (waiting_row ∷ [])).1
transition_exact_example = transition_exact table "x" pending (to_running 6) (waiting_row ∷ [])

abbrev pub running_row : Row
running_row = record waiting_row { status = running }

recover_lem_example :
    RecoverLaw
      (restart_failure 9)
      (running_row ∷ [])
      (recover_running_on_startup table 9 (running_row ∷ [])).0
      (recover_running_on_startup table 9 (running_row ∷ [])).1
recover_lem_example = recover_lem table 9 (running_row ∷ [])

upsert_lem_example :
    UpsertLaw "y" 8
      (payload "p")
      (column "p")
      (running_row ∷ [])
      (upsert table payload_codec "y" 8 (payload "p") (running_row ∷ [])).0
      (upsert table payload_codec "y" 8 (payload "p") (running_row ∷ [])).1
upsert_lem_example =
    upsert_lem table payload_codec "y" 8 (payload "p") (column "p") (running_row ∷ []) refl

abbrev pub finished : Extraction
finished = record {
  id = "x";
  source_type = "paper";
  source_id = "p";
  status = done;
  request_payload = payload "p";
  artifact = some artifact;
  failure = none;
  created_at = 5;
  updated_at = 7;
}

to_domain-from_domain_example :
    (from_domain payload_codec "u" finished >>= to_domain payload_codec) ≡ some finished
to_domain-from_domain_example = to_domain-from_domain payload_codec "u" finished (refl, refl)

-- A queue of two rows, the younger first, with a row that runs between them.
abbrev queue : List Row
queue = new_row "y" (column "q") 8 (payload "q") ∷ (running_row ∷ (waiting_row ∷ []))

oldest_first : list_pending_ids table queue ≡ ok ("x" ∷ ("y" ∷ []))
unfolding list_pending_ids
oldest_first = refl

list_pending_ids_lem_example : PendingLaw queue (list_pending_ids table queue)
list_pending_ids_lem_example = list_pending_ids_lem table queue
