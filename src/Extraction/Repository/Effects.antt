-- ===== src/Extraction/Repository/Effects.antt =====
-- What each operation of the repository does to the rows, on every branch.
use research_monitor.Base.{
  ℕ, zero, suc, ◌≡◌, refl, sym, ◌∙◌, ◌⊎◌, inl, inr, Bool, true, false, ◌&&◌, String, List, [], ◌∷◌,
  any, count_if, str_eq, arith,
}
use research_monitor.Sql.{Updated, updated, update_failed, update_where, UpdateLaw, Table}
use research_monitor.Text.{codes}
use research_monitor.Extraction.Types.{
  JobStatus, running, process_restart, Result, ok, err, invalid_transition, catalogue_unavailable,
}
use research_monitor.Extraction.Row.{Row, clash}
use research_monitor.Extraction.Repository.{
  has_status, to_failed, checked, recovered, transition, recover_running_on_startup,
}

-- A gated update: it succeeds only where a row passes the gate, and else the rows stay.
abbrev pub GateLaw : (Row → Bool) → (Row → Row) → List Row → Result (Unit {0}) → List Row → Type 0
GateLaw p f before (ok _) after = (any p before ≡ true) × (after ≡ update_where p f before)
GateLaw p f before (err invalid_transition) after = (any p before ≡ false) × (after ≡ before)
GateLaw p f before (err _) after = after ≡ before

abbrev pub gate : String → JobStatus → Row → Bool
gate id status r = str_eq r.id id && has_status status r

pub any-count : (p : Row → Bool) (rows : List Row) → count_if p rows ≡ 0 → any p rows ≡ false
any-count p [] h = refl
any-count p (r ∷ rows) h = ground (arith, any-count p rows)

any-count_suc :
    (p : Row → Bool) (rows : List Row) (n : ℕ) → suc n ≡ count_if p rows → any p rows ≡ true
any-count_suc p [] n h = absurd (omega arith)
any-count_suc p (r ∷ rows) n h = ground (arith, any-count_suc p rows n)

update_where-none :
    (p : Row → Bool) (f : Row → Row) (rows : List Row)
    → any p rows ≡ false
    → update_where p f rows ≡ rows
update_where-none p f [] h = refl
update_where-none p f (r ∷ rows) h = ground (arith, update_where-none p f rows)

module _ (t : Table Row clash) where
  open t use {Db, rows, update, update_lem}

  checked_lem :
      (p : Row → Bool) (f : Row → Row) (before : List Row) (u : Updated × Db)
      → UpdateLaw p f before u.0 (rows u.1)
      → GateLaw p f before (checked t u).0 (rows (checked t u).1)
  checked_lem p f before (update_failed, db) h = h
  checked_lem p f before (updated zero, db) (same, n) =
      let out : any p before ≡ false = any-count p before (sym n) in
      (out, same ∙ update_where-none p f before out)
  checked_lem p f before (updated (suc n), db) (same, count) =
      (any-count_suc p before n count, same)

  pub transition_lem :
      (id : String) (status : JobStatus) (f : Row → Row) (db : Db)
      → GateLaw
          (gate id status)
          f
          (rows db)
          (transition t id status f db).0
          (rows (transition t id status f db).1)
  unfolding transition
  transition_lem id status f db =
      checked_lem (gate id status) f (rows db) (update (gate id status) f db)
        (update_lem (gate id status) f db)

-- A gated update, by what the statement itself answers: its failure is `catalogue_unavailable`, and
-- nothing else is.
abbrev pub TransitionLaw :
    (Row → Bool) → (Row → Row) → List Row → Updated → Result (Unit {0}) → List Row → Type 0
TransitionLaw p f before update_failed out after =
    (out ≡ err catalogue_unavailable) × (after ≡ before)
TransitionLaw p f before (updated _) out after =
    ((out ≡ ok tt) × (any p before ≡ true) × (after ≡ update_where p f before))
    ⊎ ((out ≡ err invalid_transition) × (any p before ≡ false) × (after ≡ before))

module _ (t : Table Row clash) where
  open t use {Db, rows, update, update_lem}

  checked_exact :
      (p : Row → Bool) (f : Row → Row) (before : List Row) (u : Updated × Db)
      → UpdateLaw p f before u.0 (rows u.1)
      → TransitionLaw p f before u.0 (checked t u).0 (rows (checked t u).1)
  checked_exact p f before (update_failed, db) h = (refl, h)
  checked_exact p f before (updated zero, db) (same, n) =
      let out : any p before ≡ false = any-count p before (sym n) in
      inr (refl, out, same ∙ update_where-none p f before out)
  checked_exact p f before (updated (suc n), db) (same, count) =
      inl (refl, any-count_suc p before n count, same)

  -- Where the statement of a transition runs, the transition succeeds exactly if a row has this id
  -- and the expected status, and then changes such rows as told; without one it reports
  -- `invalid_transition` and no row changes. Where the statement fails, it reports
  -- `catalogue_unavailable` and no row changes.
  pub transition_exact :
      (id : String) (status : JobStatus) (f : Row → Row) (db : Db)
      → TransitionLaw
          (gate id status)
          f
          (rows db)
          (update (gate id status) f db).0
          (transition t id status f db).0
          (rows (transition t id status f db).1)
  unfolding transition
  transition_exact id status f db =
      checked_exact (gate id status) f (rows db) (update (gate id status) f db)
        (update_lem (gate id status) f db)

-- The recovery: on success no row is running, and the rows that were running have failed.
abbrev pub RecoverLaw : (Row → Row) → List Row → Result ℕ → List Row → Type 0
RecoverLaw f before (ok n) after =
    (n ≡ count_if (has_status running) before)
    × (after ≡ update_where (has_status running) f before)
    × (any (has_status running) after ≡ false)
RecoverLaw f before (err _) after = after ≡ before

abbrev pub restart_failure : ℕ → Row → Row
restart_failure now =
    to_failed process_restart (codes "process exited while extraction was in flight") now

none-running :
    (now : ℕ) (rows : List Row)
    → any (has_status running) (update_where (has_status running) (restart_failure now) rows)
      ≡ false
unfolding to_failed
none-running now [] = refl
none-running now (r ∷ rows) = ground (arith, none-running now rows)

module _ (t : Table Row clash) where
  open t use {Db, rows, update, update_lem}

  recovered_lem :
      (now : ℕ) (before : List Row) (u : Updated × Db)
      → UpdateLaw (has_status running) (restart_failure now) before u.0 (rows u.1)
      → RecoverLaw (restart_failure now) before (recovered t u).0 (rows (recovered t u).1)
  recovered_lem now before (update_failed, db) h = h
  recovered_lem now before (updated n, db) (same, count) =
      (count, same, rw same (none-running now before))

  -- `RecoverRunningOnStartup` moves every running row to failed with `process_restart`, counts
  -- them, and leaves no row running; on an error the rows stay as they were.
  pub recover_lem :
      (now : ℕ) (db : Db)
      → RecoverLaw
          (restart_failure now)
          (rows db)
          (recover_running_on_startup t now db).0
          (rows (recover_running_on_startup t now db).1)
  unfolding recover_running_on_startup
  recover_lem now db =
      recovered_lem now (rows db) (update (has_status running) (restart_failure now) db)
        (update_lem (has_status running) (restart_failure now) db)
