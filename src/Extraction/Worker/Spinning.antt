-- ===== src/Extraction/Worker/Spinning.antt =====
-- The loop of `drain` while the table refuses every update: it never leaves.
use research_monitor.Base.{
  ℕ, ◌≡◌, ◌≢◌, refl, inl, inr, Bool, true, String, List, [], ◌∷◌, any, All, arith, Bool-cases,
}
use research_monitor.Sql.{
  Found, found, absent, read_failed, FirstLaw, Updated, updated, update_failed, UpdateLaw, Table,
}
use research_monitor.Extraction.Types.{
  JobStatus, pending, expired, Extraction, Result, ok, err, catalogue_unavailable,
}
use research_monitor.Extraction.Row.{Row, Codec, clash}
use research_monitor.Extraction.Repository.{
  has_status, expected_prior, to_running, to_failed, checked, transition, claim_pending,
  mark_failed, found_pending, peek_next_pending,
}
use research_monitor.Extraction.Repository.Effects.{gate}
use research_monitor.Extraction.Worker.{
  Round, Settings, unfinished, Turn, again, is_late, after_claim, handle, peeked, drain_round,
  drain,
}
use research_monitor.Extraction.Worker.Settling.{Decodes}
use research_monitor.Extraction.Worker.Steps.{All-at, to_domain-id}
use research_monitor.Extraction.Worker.Draining.{IsQuiet}

-- The table answers reads and refuses every update.
pub record IsReadOnly (t : Table Row clash) : Type 0 where
  pub reads :
      (p : Row → Bool) (key : Row → ℕ) (db : Table.Db t) → Table.first t p key db ≢ read_failed
  pub refuses :
      (p : Row → Bool) (f : Row → Row) (db : Table.Db t) → (Table.update t p f db).0 ≡ update_failed

module _ (t : Table Row clash) (codec : Codec) (s : Settings) (read_only : IsReadOnly t) where
  open t use {Db, rows, first, first_lem, update, update_lem}

  -- The turn goes on and left the rows as they were.
  abbrev Repeats : Db → Turn Db → Type 0
  Repeats db turn = (db' : Db) × (turn ≡ again db') × (rows db' ≡ rows db)

  checked-refused :
      (p : Row → Bool) (f : Row → Row) (before : List Row) (u : Updated × Db)
      → UpdateLaw p f before u.0 (rows u.1)
      → u.0 ≡ update_failed
      → ((checked t u).0 ≡ err catalogue_unavailable) × (rows (checked t u).1 ≡ before)
  checked-refused p f before (update_failed, db) h failed = (refl, h)
  checked-refused p f before (updated n, db) h failed = absurd (ground arith)

  transition-refused :
      (id : String) (status : JobStatus) (f : Row → Row) (db : Db)
      → ((transition t id status f db).0 ≡ err catalogue_unavailable)
        × (rows (transition t id status f db).1 ≡ rows db)
  unfolding transition
  transition-refused id status f db =
      checked-refused (gate id status) f (rows db) (update (gate id status) f db)
        (update_lem (gate id status) f db) (read_only.refuses (gate id status) f db)

  claim-Repeats :
      (r : Round) (e : Extraction) (db : Db) (x : Result (Unit {0}) × Db)
      → IsQuiet r
      → x.0 ≡ err catalogue_unavailable
      → rows x.1 ≡ rows db
      → Repeats db (after_claim t codec s r e x)
  unfolding after_claim
  claim-Repeats r e db (ok _, after) quiet refused same = absurd (ground arith)
  claim-Repeats r e db (err f, after) quiet refused same = simp (quiet.at_claim) (after, refl, same)

  handle-Repeats :
      (r : Round) (e : Extraction) (db : Db) → IsQuiet r → Repeats db (handle t codec s r e db)
  unfolding handle mark_failed claim_pending
  handle-Repeats r e db quiet = elim (Bool-cases (is_late s r.now e)) [
    | inl late ↦
        let f = to_failed expired (s.expiry_message e.created_at) r.stamp in
        rw late (
          (transition t e.id (expected_prior expired) f db).1,
          refl,
          (transition-refused e.id (expected_prior expired) f db).1,
        )
    | inr early ↦
        let (refused, same) = transition-refused e.id pending (to_running r.stamp) db in
        rw early (
          claim-Repeats r e db (transition t e.id pending (to_running r.stamp) db) quiet refused
            same)
  ]

  found-Repeats :
      (r : Round) (db : Db) (f : Found Row)
      → IsQuiet r
      → All (Decodes codec) (rows db)
      → any (has_status pending) (rows db) ≡ true
      → f ≢ read_failed
      → FirstLaw (has_status pending) (λ q. q.created_at) (rows db) f
      → Repeats db (peeked t codec s r db (found_pending t codec f))
  unfolding peeked found_pending
  found-Repeats r db read_failed quiet d waits readable h = absurd (readable refl)
  found-Repeats r db absent quiet d waits readable h = absurd (ground arith)
  found-Repeats r db (found row) quiet d waits readable (w, (i, at), _) =
      let (payload, decoded) = All-at (Decodes codec) (rows db) i d at in
      let (e, read, same) = to_domain-id codec row payload decoded in
      rw (read, peeked, found_pending) (handle-Repeats r e db quiet)

  round-Repeats :
      (r : Round) (db : Db)
      → IsQuiet r
      → All (Decodes codec) (rows db)
      → any (has_status pending) (rows db) ≡ true
      → Repeats db (drain_round t codec s r db)
  unfolding drain_round peek_next_pending
  round-Repeats r db quiet d waits = simp (quiet.start) (
      found-Repeats r db (first (has_status pending) (λ q. q.created_at) db) quiet d waits
        (read_only.reads (has_status pending) (λ q. q.created_at) db)
        (first_lem (has_status pending) (λ q. q.created_at) db))

  -- While the table answers reads and refuses every update, the payload of every row decodes, and the
  -- context is not cancelled, `drain` does not return once a row is pending, however many rounds it
  -- makes.
  pub drain_spins :
      (rounds : List Round) (db : Db)
      → All IsQuiet rounds
      → All (Decodes codec) (rows db)
      → any (has_status pending) (rows db) ≡ true
      → (drain t codec s rounds db).0 ≡ unfinished
  unfolding drain
  drain_spins [] db quiet d waits = refl
  drain_spins (r ∷ rounds) db (quiet, quiets) d waits =
      let (db', turn, same) = round-Repeats r db quiet d waits in
      rw (turn, drain) (drain_spins rounds db' quiets (rw same d) (rw same waits))
