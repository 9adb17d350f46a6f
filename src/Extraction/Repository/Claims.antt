-- ===== src/Extraction/Repository/Claims.antt =====
-- A claim is exclusive: no row that was claimed is pending before it is submitted again.
use research_monitor.Base.{
  ℕ, ◌≡◌, ◌≢◌, refl, Bool, true, false, String, List, [], ◌∷◌, any, All, arith,
}
use research_monitor.Sql.{update_where, Table}
use research_monitor.Extraction.Types.{pending, running, Result, ok, err, invalid_transition}
use research_monitor.Extraction.Row.{Row, Codec, clash}
use research_monitor.Extraction.Repository.{
  has_status, expected_prior, to_running, to_done, to_failed, claim_pending, mark_done, mark_failed,
  recover_running_on_startup,
}
use research_monitor.Extraction.Repository.Effects.{
  GateLaw, gate, transition_lem, RecoverLaw, restart_failure, recover_lem,
}
use research_monitor.Extraction.Repository.Clean.{
  Op, submit, claim, complete, fail, recover, apply, apply_all,
}

abbrev pub is_submit : Op → Bool
is_submit (submit _ _ _) = true
is_submit _ = false

-- No row with this id is pending.
abbrev Held : String → List Row → Type 0
Held id rows = any (gate id pending) rows ≡ false

abbrev Leaves : (Row → Row) → Type 0
Leaves f = (r : Row) → has_status pending (f r) ≡ false

update_where-Held :
    (id : String) (p : Row → Bool) (f : Row → Row)
    → Leaves f
    → (rows : List Row) → Held id rows
    → Held id (update_where p f rows)
update_where-Held id p f leaves [] h = refl
update_where-Held id p f leaves (r ∷ rows) h =
    ground (arith, leaves r, update_where-Held id p f leaves rows)

claimed-Held :
    (id : String) (f : Row → Row)
    → Leaves f
    → (rows : List Row) → Held id (update_where (gate id pending) f rows)
claimed-Held id f leaves [] = refl
claimed-Held id f leaves (r ∷ rows) = ground (arith, leaves r, claimed-Held id f leaves rows)

gate-Held :
    (id : String) (p : Row → Bool) (f : Row → Row)
    → Leaves f
    → (before after : List Row) (out : Result (Unit {0})) → GateLaw p f before out after
    → Held id before
    → Held id after
gate-Held id p f leaves before after (ok _) (_, e) h =
    rw e (update_where-Held id p f leaves before h)
gate-Held id p f leaves before after (err invalid_transition) (_, e) h = rw e h
gate-Held id p f leaves before after (err s) e h = rw e h

recover-Held :
    (id : String) (now : ℕ) (before after : List Row) (out : Result ℕ)
    → RecoverLaw (restart_failure now) before out after
    → Held id before
    → Held id after
unfolding to_failed
recover-Held id now before after (ok n) (_, e, _) h =
    rw e (update_where-Held id (has_status running) (restart_failure now) (λ r. refl) before h)
recover-Held id now before after (err s) e h = rw e h

module _ (t : Table Row clash) (codec : Codec) (id : String) where
  open t use {Db, rows}

  apply-Held :
      (op : Op) (db : Db)
      → is_submit op ≡ false
      → Held id (rows db)
      → Held id (rows (apply t codec op db))
  unfolding apply claim_pending mark_done mark_failed to_running to_done to_failed
  apply-Held (submit uuid now payload) db n h = absurd (ground arith)
  apply-Held (claim now id') db n h =
      gate-Held id (gate id' pending) (to_running now) (λ r. refl) _ _
        (claim_pending t now id' db).0 (transition_lem t id' pending (to_running now) db) h
  apply-Held (complete now id' artifact) db n h =
      gate-Held id (gate id' running) (to_done artifact now) (λ r. refl) _ _
        (mark_done t now id' artifact db).0 (transition_lem t id' running (to_done artifact now) db)
        h
  apply-Held (fail now id' reason message) db n h =
      gate-Held id (gate id' (expected_prior reason)) (to_failed reason message now) (λ r. refl) _ _
        (mark_failed t now id' reason message db).0
        (transition_lem t id' (expected_prior reason) (to_failed reason message now) db) h
  apply-Held (recover now) db n h =
      recover-Held id now _ _ (recover_running_on_startup t now db).0 (recover_lem t now db) h

  apply_all-Held :
      (ops : List Op) (db : Db)
      → All (λ op. is_submit op ≡ false) ops
      → Held id (rows db)
      → Held id (rows (apply_all t codec ops db))
  unfolding apply_all
  apply_all-Held [] db n h = h
  apply_all-Held (op ∷ ops) db (n, ns) h =
      apply_all-Held ops (apply t codec op db) ns (apply-Held op db n h)

  ok-Held :
      (before after : List Row) (now : ℕ) (out : Result (Unit {0}))
      → GateLaw (gate id pending) (to_running now) before out after
      → out ≡ ok tt
      → Held id after
  unfolding to_running
  ok-Held before after now (ok _) (_, e) h =
      rw e (claimed-Held id (to_running now) (λ r. refl) before)
  ok-Held before after now (err s) g h = absurd (ground arith)

  Held-refused :
      (before after : List Row) (now : ℕ) (out : Result (Unit {0}))
      → GateLaw (gate id pending) (to_running now) before out after
      → Held id before
      → out ≢ ok tt
  Held-refused before after now (ok _) (hit, _) h e = absurd (ground arith)
  Held-refused before after now (err s) g h e = absurd (ground arith)

  -- Once a claim of an id has succeeded, no later claim of it does, whatever claims, completions,
  -- failures and recoveries of any ids come between, as long as nothing is submitted.
  pub claim_once :
      (now later : ℕ) (ops : List Op) (db : Db)
      → All (λ op. is_submit op ≡ false) ops
      → (claim_pending t now id db).0 ≡ ok tt
      → (claim_pending t later id (apply_all t codec ops (claim_pending t now id db).1)).0 ≢ ok tt
  unfolding claim_pending
  claim_once now later ops db quiet won =
      let after = (claim_pending t now id db).1 in
      Held-refused _ _ later (claim_pending t later id (apply_all t codec ops after)).0
        (transition_lem t id pending (to_running later) (apply_all t codec ops after))
        (apply_all-Held ops after quiet (
          ok-Held _ _ now (claim_pending t now id db).0
            (transition_lem t id pending (to_running now) db) won))
