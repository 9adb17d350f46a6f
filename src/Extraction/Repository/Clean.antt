-- ===== src/Extraction/Repository/Clean.antt =====
-- The table of extractions under any operations: what each operation does to a row.
use research_monitor.Base.{
  ℕ, zero, suc, ◌≡◌, refl, ap, ◌∙◌, inl, inr, ◌⊎◌, Bool, true, false, String, List, [], ◌∷◌, ◌++◌,
  Option, none, some, any, get_elem?, eq_iff, Bool-cases, arith, if◌then◌else◌,
}
use research_monitor.Sql.{update_where, Table}
use research_monitor.Extraction.Types.{
  JobStatus, pending, running, done, failed, process_restart, expired, FailureReason, Artifact,
  RequestPayload, PriorState, Result, ok, err, invalid_transition,
}
use research_monitor.Extraction.Row.{Row, Codec, clash}
use research_monitor.Extraction.Repository.{
  reset, has_status, expected_prior, to_running, to_done, to_failed, claim_pending, mark_done,
  mark_failed, recover_running_on_startup, upsert,
}
use research_monitor.Extraction.Repository.Effects.{
  GateLaw, gate, transition_lem, RecoverLaw, restart_failure, recover_lem,
}
use research_monitor.Extraction.Repository.Upserts.{
  new_row, renewed_row, has_source, UpsertLaw, upsert_lem,
}
use research_monitor.Extraction.Repository.Edges.{
  Moves, same_status-eq, reset-Moves, to_running-Moves, to_done-Moves, to_failed-Moves,
}

-- A call of an operation that writes, with what it reads of the clock and of the uuid generator.
pub data Op : Type 0 where
  submit : String → ℕ → RequestPayload → Op
  claim : ℕ → String → Op
  complete : ℕ → String → Artifact → Op
  fail : ℕ → String → FailureReason → List ℕ → Op
  recover : ℕ → Op

module _ (t : Table Row clash) (codec : Codec) where
  open t use {Db}

  unfoldable pub apply : Op → Db → Db
  apply (submit uuid now payload) db = (upsert t codec uuid now payload db).1
  apply (claim now id) db = (claim_pending t now id db).1
  apply (complete now id artifact) db = (mark_done t now id artifact db).1
  apply (fail now id reason message) db = (mark_failed t now id reason message db).1
  apply (recover now) db = (recover_running_on_startup t now db).1

  unfoldable pub apply_all : List Op → Db → Db
  apply_all [] db = db
  apply_all (op ∷ ops) db = apply_all ops (apply op db)

-- The only way in which an operation changes a row.
abbrev pub Takes : Op → Row → Row → Type 0
Takes (submit uuid now payload) r r' =
    (r.source_type ≡ payload.source_type)
    × (r.source_id ≡ payload.source_id)
    × (r'.status ≡ pending)
Takes (claim now id) r r' = (r.id ≡ id) × (r.status ≡ pending) × (r'.status ≡ running)
Takes (complete now id artifact) r r' = (r.id ≡ id) × (r.status ≡ running) × (r'.status ≡ done)
Takes (fail now id expired message) r r' =
    (r.id ≡ id) × (r.status ≡ pending) × (r'.status ≡ failed) × (r'.failure_reason ≡ expired)
Takes (fail now id reason message) r r' =
    (r.id ≡ id) × (r.status ≡ running) × (r'.status ≡ failed) × (r'.failure_reason ≡ reason)
Takes (recover now) r r' =
    (r.status ≡ running) × (r'.status ≡ failed) × (r'.failure_reason ≡ process_restart)

-- The effect of one operation on the rows.
pub data Change (op : Op) (before after : List Row) : Type 0 where
  same : after ≡ before → Change op before after
  appended :
      (uuid column : String) (now : ℕ) (payload : RequestPayload)
      → after ≡ before ++ new_row uuid column now payload ∷ []
      → any (clash (new_row uuid column now payload)) before ≡ false
      → Change op before after
  changed :
      (p : Row → Bool) (f : Row → Row)
      → ((r : Row) → p r ≡ true → Moves r (f r))
      → ((r : Row) → p r ≡ true → Takes op r (f r))
      → after ≡ update_where p f before
      → Change op before after

gate-parts :
    (id : String) (status : JobStatus) (r : Row)
    → gate id status r ≡ true
    → (r.id ≡ id) × (r.status ≡ status)
gate-parts id status r h =
    ((eq_iff r.id id).0 (ground arith), same_status-eq r.status status (ground arith))

gate-Change :
    (op : Op) (id : String) (status : JobStatus) (f : Row → Row) {before after : List Row}
    (out : Result (Unit {0}))
    → ((r : Row) → r.status ≡ status → Moves r (f r))
    → ((r : Row) → r.id ≡ id → r.status ≡ status → Takes op r (f r))
    → GateLaw (gate id status) f before out after
    → Change op before after
gate-Change op id status f (ok _) m takes (_, e) =
    changed (gate id status) f (λ r h. m r (gate-parts id status r h).1)
      (λ r h. let (same_id, at) = gate-parts id status r h in takes r same_id at) e
gate-Change op id status f (err invalid_transition) m takes (_, e) = same e
gate-Change op id status f (err s) m takes h = same h

recover-Change :
    (now : ℕ) {before after : List Row} (out : Result ℕ)
    → RecoverLaw (restart_failure now) before out after
    → Change (recover now) before after
unfolding to_failed
recover-Change now (ok n) (_, e, _) =
    changed (has_status running) (restart_failure now)
      (λ r h.
        to_failed-Moves _ _ now r
          (same_status-eq r.status running h ∙ (unfold expected_prior in refl)))
      (λ r h. (same_status-eq r.status running h, refl, refl)) e
recover-Change now (err s) e = same e

upsert-Change :
    (uuid : String) (now : ℕ) (payload : RequestPayload) (column : String) {before after : List Row}
    (out : Result (String × Option PriorState))
    → UpsertLaw uuid now payload column before out after
    → Change (submit uuid now payload) before after
unfolding reset
upsert-Change uuid now payload column (ok (id, none)) (_, e, free) =
    appended uuid column now payload e free
upsert-Change uuid now payload column (ok (id, some prior)) (_, e) =
    changed (has_source payload) (renewed_row column now) (λ r _. reset-Moves column now r)
      (λ r h. (
        (eq_iff r.source_type payload.source_type).0 (ground arith),
        (eq_iff r.source_id payload.source_id).0 (ground arith),
        refl,
      ))
      e
upsert-Change uuid now payload column (err s) (_, e) = same e

fail-Takes :
    (now : ℕ) (id : String) (reason : FailureReason) (message : List ℕ) (r : Row)
    → r.id ≡ id
    → r.status ≡ expected_prior reason
    → Takes (fail now id reason message) r (to_failed reason message now r)
unfolding to_failed expected_prior
fail-Takes now id expired message r same_id at = (same_id, at, refl, refl)
fail-Takes now id reason message r same_id at = (same_id, at, refl, refl)

module _ (t : Table Row clash) (codec : Codec) where
  open t use {Db, rows}

  pub apply-Change : (op : Op) (db : Db) → Change op (rows db) (rows (apply t codec op db))
  unfolding apply claim_pending mark_done mark_failed to_running to_done
  apply-Change (submit uuid now payload) db =
      let (column, marshalled) = codec.marshal-some payload in
      upsert-Change uuid now payload column (upsert t codec uuid now payload db).0
        (upsert_lem t codec uuid now payload column db marshalled)
  apply-Change (claim now id) db =
      gate-Change (claim now id) id pending (to_running now) (claim_pending t now id db).0
        (to_running-Moves now) (λ r same_id at. (same_id, at, refl))
        (transition_lem t id pending (to_running now) db)
  apply-Change (complete now id artifact) db =
      gate-Change (complete now id artifact) id running (to_done artifact now)
        (mark_done t now id artifact db).0 (to_done-Moves artifact now)
        (λ r same_id at. (same_id, at, refl))
        (transition_lem t id running (to_done artifact now) db)
  apply-Change (fail now id reason message) db =
      gate-Change (fail now id reason message) id (expected_prior reason)
        (to_failed reason message now) (mark_failed t now id reason message db).0
        (to_failed-Moves reason message now) (fail-Takes now id reason message)
        (transition_lem t id (expected_prior reason) (to_failed reason message now) db)
  apply-Change (recover now) db =
      recover-Change now (recover_running_on_startup t now db).0 (recover_lem t now db)

get_elem?-left :
    (xs : List Row) (y : Row) (i : ℕ) {r : Row}
    → get_elem? xs i ≡ some r
    → get_elem? (xs ++ y ∷ []) i ≡ some r
get_elem?-left [] y i h = absurd (ground arith)
get_elem?-left (x ∷ xs) y zero h = h
get_elem?-left (x ∷ xs) y (suc i) h = get_elem?-left xs y i h

update_where-at :
    (p : Row → Bool) (f : Row → Row) (xs : List Row) (i : ℕ) {r : Row}
    → get_elem? xs i ≡ some r
    → get_elem? (update_where p f xs) i ≡ some (if p r then f r else r)
update_where-at p f [] i h = absurd (ground arith)
update_where-at p f (x ∷ xs) zero h = ground arith
update_where-at p f (x ∷ xs) (suc i) h = update_where-at p f xs i h

Change-at :
    {op : Op} {before after : List Row} (i : ℕ) (r : Row)
    → Change op before after
    → get_elem? before i ≡ some r
    → (r' : Row) × (get_elem? after i ≡ some r') × ((r' ≡ r) ⊎ (Moves r r' × Takes op r r'))
Change-at i r (same e) h = (r, rw e h, inl refl)
Change-at {before = before} i r (appended uuid column now payload e free) h =
    (r, rw e (get_elem?-left before _ i h), inl refl)
Change-at {before = before} i r (changed p f m takes e) h = elim (Bool-cases (p r)) [
  | inl hit ↦
      let q : (if p r then f r else r) ≡ f r = rw hit in
      (f r, rw e (update_where-at p f before i h ∙ ap some q), inr (m r hit, takes r hit))
  | inr miss ↦
      let q : (if p r then f r else r) ≡ r = rw miss in
      (r, rw e (update_where-at p f before i h ∙ ap some q), inl refl)
]

-- Whatever an operation answers, each row stays in its place under its id and its source, keeps the
-- columns empty that its status leaves empty, and is unchanged unless the operation is one of these: a
-- submission of its source, which makes it pending; a claim of its id, pending to running; a
-- completion of its id, running to done; a failure of its id, pending to failed for the reason
-- expired and running to failed for any other, with that reason; the recovery, running to failed with
-- the reason process_restart. So a done or failed row changes only by a new submission.
pub apply-Moves :
    (t : Table Row clash) (codec : Codec) (op : Op) (db : t.Db) (i : ℕ) (r : Row)
    → get_elem? (t.rows db) i ≡ some r
    → (r' : Row) × (get_elem? (t.rows (apply t codec op db)) i ≡ some r')
      × ((r' ≡ r) ⊎ (Moves r r' × Takes op r r'))
apply-Moves t codec op db i r h = Change-at i r (apply-Change t codec op db) h
