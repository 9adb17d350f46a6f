-- ===== src/Extraction/Worker/Settling.antt =====
-- What one write of the worker does to the rows that still wait, when the table is reliable.
use research_monitor.Base.{
  ℕ, zero, suc, ◌≤◌, ◌<◌, ◌≡◌, ◌≢◌, refl, sym, Bool, true, false, String, List, [], ◌∷◌, some, any,
  count_if, All, get_elem?, arith, if◌then◌else◌, eq_iff,
}
use research_monitor.Sql.{
  read_failed, Updated, updated, update_failed, update_where, UpdateLaw, Table,
}
use research_monitor.Extraction.Types.{
  JobStatus, pending, RequestPayload, Result, ok, err, invalid_transition,
}
use research_monitor.Extraction.Row.{Row, Codec, clash}
use research_monitor.Extraction.Repository.{has_status, checked, transition}
use research_monitor.Extraction.Repository.Effects.{GateLaw, gate, any-count, transition_lem}

-- No statement fails.
pub record IsReliable (t : Table Row clash) : Type 0 where
  pub reads :
      (p : Row → Bool) (key : Row → ℕ) (db : Table.Db t) → Table.first t p key db ≢ read_failed
  pub writes :
      (p : Row → Bool) (f : Row → Row) (db : Table.Db t) → (Table.update t p f db).0 ≢ update_failed

abbrev pub waiting : List Row → ℕ
waiting rows = count_if (has_status pending) rows

-- The payload column of the row decodes.
abbrev pub Decodes : Codec → Row → Type 0
Decodes codec r = (p : RequestPayload) × (codec.unmarshal r.request_payload ≡ some p)

-- A change that takes a row out of the queue and keeps its payload.
abbrev pub Settles : (Row → Row) → Type 0
Settles f =
    (r : Row) → (has_status pending (f r) ≡ false) × ((f r).request_payload ≡ r.request_payload)

pub record Progress (codec : Codec) (before after : List Row) : Type 0 where
  pub fewer : waiting after ≤ waiting before
  pub decodes : All (Decodes codec) before → All (Decodes codec) after

pub Progress-refl : (codec : Codec) (rs : List Row) → Progress codec rs rs
Progress-refl codec rs = record { fewer = omega arith; decodes = λ h. h }

pub Progress-trans :
    {codec : Codec} {a b c : List Row}
    → Progress codec a b
    → Progress codec b c
    → Progress codec a c
Progress-trans p q = record {
  fewer = omega (arith, p.fewer, q.fewer);
  decodes = λ h. q.decodes (p.decodes h);
}

module _ (p : Row → Bool) (f : Row → Row) (settles : Settles f) where
  waiting-update : (rs : List Row) → waiting (update_where p f rs) ≤ waiting rs
  waiting-update [] = omega arith
  waiting-update (r ∷ rs) = ground (arith, (settles r).0, waiting-update rs)

  waiting-update_lt :
      (rs : List Row) (i : ℕ) {r : Row}
      → get_elem? rs i ≡ some r
      → p r ≡ true
      → has_status pending r ≡ true
      → waiting (update_where p f rs) < waiting rs
  waiting-update_lt [] i h hit w = absurd (ground arith)
  waiting-update_lt (r ∷ rs) zero h hit w = ground (arith, (settles r).0, waiting-update rs)
  waiting-update_lt (r ∷ rs) (suc i) h hit w =
      ground (arith, (settles r).0, waiting-update_lt rs i h hit w)

  update-Decodes :
      (codec : Codec) (rs : List Row)
      → All (Decodes codec) rs
      → All (Decodes codec) (update_where p f rs)
  update-Decodes codec [] h = tt
  update-Decodes codec (r ∷ rs) ((payload, h), hs) = (
    (
      payload,
      (elim (p r) as (λ b. codec.unmarshal (if b then f r else r).request_payload ≡ some payload) [
        | true ↦ rw ((settles r).1) h
        | false ↦ h
      ]),
    ),
    update-Decodes codec rs hs,
  )

  gate-Progress :
      (codec : Codec) (before after : List Row) (out : Result (Unit {0}))
      → GateLaw p f before out after
      → Progress codec before after
  gate-Progress codec before after (ok _) (_, e) =
      rw e (record { fewer = waiting-update before; decodes = update-Decodes codec before })
  gate-Progress codec before after (err invalid_transition) (_, e) =
      rw e (Progress-refl codec before)
  gate-Progress codec before after (err s) e = rw e (Progress-refl codec before)

any-at :
    (p : Row → Bool) (rs : List Row) (i : ℕ) {r : Row}
    → get_elem? rs i ≡ some r
    → p r ≡ true
    → any p rs ≡ true
any-at p [] i h hit = absurd (ground arith)
any-at p (r ∷ rs) zero h hit = ground arith
any-at p (r ∷ rs) (suc i) h hit = ground (arith, any-at p rs i h hit)

module _ (t : Table Row clash) where
  open t use {Db, rows, update, update_lem}

  checked-ok :
      (p : Row → Bool) (f : Row → Row) (before : List Row) (u : Updated × Db)
      → UpdateLaw p f before u.0 (rows u.1)
      → u.0 ≢ update_failed
      → any p before ≡ true
      → (checked t u).0 ≡ ok tt
  checked-ok p f before (update_failed, db) h writes hit = absurd (writes refl)
  checked-ok p f before (updated zero, db) (same, n) writes hit =
      let out : any p before ≡ false = any-count p before (sym n) in absurd (ground arith)
  checked-ok p f before (updated (suc n), db) h writes hit = refl

  GateLaw-ok :
      (p : Row → Bool) (f : Row → Row) (before after : List Row) (out : Result (Unit {0}))
      → GateLaw p f before out after
      → out ≡ ok tt
      → after ≡ update_where p f before
  GateLaw-ok p f before after (ok _) (_, e) won = e
  GateLaw-ok p f before after (err s) h won = absurd (ground arith)

  -- On a reliable table a transition whose row is there succeeds.
  pub transition-ok :
      IsReliable t
      → (id : String) (status : JobStatus) (f : Row → Row) (db : Db)
      → any (gate id status) (rows db) ≡ true
      → ((transition t id status f db).0 ≡ ok tt)
        × (rows (transition t id status f db).1 ≡ update_where (gate id status) f (rows db))
  unfolding transition
  transition-ok reliable id status f db hit =
      let won : (transition t id status f db).0 ≡ ok tt =
        checked-ok (gate id status) f (rows db) (update (gate id status) f db)
          (update_lem (gate id status) f db) (reliable.writes (gate id status) f db) hit in
      (
        won,
        GateLaw-ok (gate id status) f (rows db) (rows (transition t id status f db).1)
            (transition t id status f db).0 (transition_lem t id status f db) won,
      )

module _ (t : Table Row clash) (codec : Codec) where
  open t use {Db, rows, update, update_lem}

  pub transition-Progress :
      (id : String) (status : JobStatus) (f : Row → Row)
      → Settles f
      → (db : Db) → Progress codec (rows db) (rows (transition t id status f db).1)
  transition-Progress id status f settles db =
      gate-Progress (gate id status) f settles codec (rows db)
        (rows (transition t id status f db).1) (transition t id status f db).0
        (transition_lem t id status f db)

  gate-lt :
      (p : Row → Bool) (f : Row → Row)
      → Settles f
      → (before after : List Row) (out : Result (Unit {0})) → GateLaw p f before out after
      → out ≡ ok tt
      → (i : ℕ) (r : Row) → get_elem? before i ≡ some r
      → p r ≡ true
      → has_status pending r ≡ true
      → waiting after < waiting before
  gate-lt p f settles before after (ok _) (_, e) won i r at hit w =
      rw e (waiting-update_lt p f settles before i at hit w)
  gate-lt p f settles before after (err s) h won i r at hit w = absurd (ground arith)

  -- On a reliable table a transition from pending, at the id of a row that is pending, succeeds and
  -- takes that row out of the queue.
  pub transition-lt :
      IsReliable t
      → (f : Row → Row) → Settles f
      → (db : Db) (i : ℕ) (r : Row) → get_elem? (rows db) i ≡ some r
      → has_status pending r ≡ true
      → ((transition t r.id pending f db).0 ≡ ok tt)
        × (waiting (rows (transition t r.id pending f db).1) < waiting (rows db))
  unfolding transition
  transition-lt reliable f settles db i r at w =
      let hit : gate r.id pending r ≡ true = ground (arith, eq_iff r.id r.id) in
      let won : (transition t r.id pending f db).0 ≡ ok tt =
        checked-ok t (gate r.id pending) f (rows db) (update (gate r.id pending) f db)
          (update_lem (gate r.id pending) f db) (reliable.writes (gate r.id pending) f db)
          (any-at (gate r.id pending) (rows db) i at hit) in
      (
        won,
        gate-lt (gate r.id pending) f settles (rows db) (rows (transition t r.id pending f db).1)
            (transition t r.id pending f db).0 (transition_lem t r.id pending f db) won i r at hit
            w,
      )
