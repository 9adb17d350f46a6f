-- ===== src/Extraction/Worker/Draining.antt =====
-- The loop of `drain` ends: on a reliable table every round settles a waiting row.
use research_monitor.Base.{
  ℕ, ◌<◌, ◌≡◌, ◌≢◌, refl, ◌⊎◌, inl, inr, true, false, List, [], ◌∷◌, Option, none, some, length,
  All, get_elem?, arith, Bool-cases,
}
use research_monitor.Sql.{Found, found, absent, read_failed, FirstLaw, Table}
use research_monitor.Extraction.Types.{pending, running, expired, Extraction, Result, ok, err}
use research_monitor.Extraction.Row.{Row, Codec, clash}
use research_monitor.Extraction.Repository.{
  has_status, expected_prior, to_running, to_failed, transition, claim_pending, mark_failed,
  found_pending, peek_next_pending,
}
use research_monitor.Extraction.UseCase.{ProcessError, process}
use research_monitor.Extraction.Worker.{
  Round, Settings, queue_empty, Turn, leave, again, is_late, after_process, after_claim, handle,
  peeked, drain_round, drain,
}
use research_monitor.Extraction.Worker.Settling.{
  IsReliable, waiting, Decodes, Progress, Progress-trans, transition-Progress, transition-lt,
}
use research_monitor.Extraction.Worker.Steps.{
  to_failed-Settles, process-Progress, All-at, to_domain-id, none-waiting,
}

-- A round in which the context is not cancelled where `drain` reads it.
pub record IsQuiet (r : Round) : Type 0 where
  pub start : r.cancelled ≡ false
  pub at_claim : r.cancelled_at_claim ≡ false
  pub at_end : r.cancelled_after ≡ false

module _ (t : Table Row clash) (codec : Codec) (s : Settings) (reliable : IsReliable t) where
  open t use {Db, rows, first, first_lem}

  -- What a round that goes on has done.
  abbrev Advances : Db → Turn Db → Type 0
  Advances db turn =
      (db' : Db) × (turn ≡ again db')
      × Progress codec (rows db) (rows db')
      × (waiting (rows db') < waiting (rows db))

  after_process-again :
      (r : Round)
      → IsQuiet r
      → (x : Option ProcessError) (db : Db) → after_process t codec s r (x, db) ≡ again db
  after_process-again r quiet none db = refl
  after_process-again r quiet (some e) db = rw (quiet.at_end)

  claimed-Advances :
      (r : Round) (e : Extraction) (db : Db) (x : Result (Unit {0}) × Db)
      → IsQuiet r
      → x.0 ≡ ok tt
      → Progress codec (rows db) (rows x.1)
      → waiting (rows x.1) < waiting (rows db)
      → Advances db (after_claim t codec s r e x)
  unfolding after_claim
  claimed-Advances r e db (err f, after) quiet won p lt = absurd (ground arith)
  claimed-Advances r e db (ok _, after) quiet won p lt =
      let e' : Extraction = record e { status = running } in
      let done = process t r.extract r.finish_stamp s.max_words r.cancelled_in_process e' after in
      let q =
        process-Progress t codec r.extract r.finish_stamp s.max_words r.cancelled_in_process e'
          after in
      (
        done.1,
        after_process-again r quiet done.0 done.1,
        Progress-trans p q,
        omega (arith, q.fewer),
      )

  handle-Advances :
      (r : Round) (e : Extraction) (db : Db) (i : ℕ) (row : Row)
      → IsQuiet r
      → get_elem? (rows db) i ≡ some row
      → has_status pending row ≡ true
      → e.id ≡ row.id
      → Advances db (handle t codec s r e db)
  unfolding handle mark_failed claim_pending to_running expected_prior
  handle-Advances r e db i row quiet at w same = elim (Bool-cases (is_late s r.now e)) [
    | inl late ↦
        let f : Row → Row = to_failed expired (s.expiry_message e.created_at) r.stamp in
        let set = to_failed-Settles expired (s.expiry_message e.created_at) r.stamp in
        rw (late, same)
          (
            (transition t row.id pending f db).1,
            refl,
            transition-Progress t codec row.id pending f set db,
            (transition-lt t codec reliable f set db i row at w).1,
          )
    | inr early ↦
        let step =
          transition-lt t codec reliable (to_running r.stamp) (λ q. (refl, refl)) db i row at w in
        rw (early, same)
          (claimed-Advances r (record e { id = row.id }) db
            (transition t row.id pending (to_running r.stamp) db) quiet (step.0)
            (transition-Progress t codec row.id pending (to_running r.stamp) (λ q. (refl, refl)) db)
            (step.1))
  ]

  -- What one round does to the queue: it leaves an empty one, or settles at least one row.
  abbrev RoundLaw : Db → Turn Db → Type 0
  RoundLaw db turn = ((turn ≡ leave queue_empty db) × (waiting (rows db) ≡ 0)) ⊎ Advances db turn

  found_lem :
      (r : Round) (db : Db) (f : Found Row)
      → IsQuiet r
      → All (Decodes codec) (rows db)
      → f ≢ read_failed
      → FirstLaw (has_status pending) (λ q. q.created_at) (rows db) f
      → RoundLaw db (peeked t codec s r db (found_pending t codec f))
  unfolding found_pending peeked
  found_lem r db read_failed quiet d readable h = absurd (readable refl)
  found_lem r db absent quiet d readable h = inl (refl, none-waiting (rows db) h)
  found_lem r db (found row) quiet d readable (w, (i, at), _) =
      let (payload, decoded) = All-at (Decodes codec) (rows db) i d at in
      let (e, read, same) = to_domain-id codec row payload decoded in
      rw (read, peeked, found_pending) (inr (handle-Advances r e db i row quiet at w same))

  round_lem :
      (r : Round) (db : Db)
      → IsQuiet r
      → All (Decodes codec) (rows db)
      → RoundLaw db (drain_round t codec s r db)
  unfolding drain_round peek_next_pending
  round_lem r db quiet d = simp (quiet.start) (
      found_lem r db (first (has_status pending) (λ q. q.created_at) db) quiet d
        (reliable.reads (has_status pending) (λ q. q.created_at) db)
        (first_lem (has_status pending) (λ q. q.created_at) db))

  -- `drain` empties the queue: on a reliable table whose payloads decode, with no cancellation, it
  -- returns because the queue is empty, and no row is pending then, after at most one round for each
  -- row that was pending and one more.
  pub drain_empties :
      (rounds : List Round) (db : Db)
      → All IsQuiet rounds
      → All (Decodes codec) (rows db)
      → waiting (rows db) < length rounds
      → ((drain t codec s rounds db).0 ≡ queue_empty)
        × (waiting (rows (drain t codec s rounds db).1) ≡ 0)
  unfolding drain
  drain_empties [] db quiet d enough = absurd (omega arith)
  drain_empties (r ∷ rounds) db (quiet, quiets) d enough = elim (round_lem r db quiet d) [
    | inl (turn, none_left) ↦ rw (turn, drain) (refl, none_left)
    | inr (db', turn, p, lt) ↦
        rw (turn, drain) (drain_empties rounds db' quiets (p.decodes d) (omega arith))
  ]
