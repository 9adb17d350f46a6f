-- ===== src/Extraction/Service/Alone.antt =====
-- The worker by single statements, with no other goroutine between them, against `drain_round`.
use research_monitor.Base.{
  ℕ, zero, suc, ◌≡◌, refl, sym, ap, ◌∙◌, inl, inr, Option, none, some, Bool-cases,
}
use research_monitor.Sql.{Table}
use research_monitor.Extraction.Types.{running, expired, Extraction, Result, ok, err}
use research_monitor.Extraction.Row.{Row, Codec, clash}
use research_monitor.Extraction.Repository.{peek_next_pending, claim_pending, mark_failed}
use research_monitor.Extraction.UseCase.{ProcessError, process}
use research_monitor.Extraction.Worker.{
  Round, Settings, Stop, context_done, Turn, leave, again, is_late, after_process, after_claim,
  handle, peeked, drain_round,
}
use research_monitor.Extraction.Service.{
  Phase, idle, draining, stopped, holding, Service, after_peek, after_claiming, after_processing,
  advance,
}

module _ (t : Table Row clash) (codec : Codec) (s : Settings) (cap : ℕ) where
  open t use {Db}

  -- That many statements of the worker in one round.
  unfoldable pub iterate : Round → ℕ → Service Db → Service Db
  unfolding advance
  iterate r zero v = v
  iterate r (suc n) v = iterate r n (advance t codec s cap r v.phase v)

  abbrev pub at_draining : Db → ℕ → ℕ → Service Db
  at_draining db signals unsent = record {
    db = db;
    signals = signals;
    unsent = unsent;
    phase = draining;
  }

  abbrev phase_of : Stop → Phase
  phase_of context_done = stopped
  phase_of _ = idle

  -- The service after a turn of `drain`.
  abbrev pub turned : ℕ → ℕ → Turn Db → Service Db
  turned signals unsent (again db) = at_draining db signals unsent
  turned signals unsent (leave stop db) = record {
    db = db;
    signals = signals;
    unsent = unsent;
    phase = phase_of stop;
  }

  module _ (r : Round) (signals unsent : ℕ) where
    abbrev at : Db → Phase → Service Db
    at db p = record { db = db; signals = signals; unsent = unsent; phase = p }

    -- Some number of statements leads from the first to what the turn says.
    abbrev Comes : Service Db → Turn Db → Type 0
    Comes v turn = (n : ℕ) × (iterate r n v ≡ turned signals unsent turn)

    processed :
        (o : Option ProcessError) (db : Db)
        → at db (after_processing t codec s cap r o)
          ≡ turned signals unsent (after_process t codec s r (o, db))
    processed none db = refl
    processed (some e) db = elim (Bool-cases r.cancelled_after) [
      | inl done ↦ simp done refl
      | inr on ↦ simp on refl
    ]

    alone_claim :
        (e : Extraction) (db : Db) (x : Result (Unit {0}) × Db)
        → Comes
            (after_claiming t codec s cap r e (at db (holding e)) x)
            (after_claim t codec s r e x)
    unfolding iterate advance
    alone_claim e db (err f, after) = elim (Bool-cases r.cancelled_at_claim) [
      | inl done ↦ (0, simp done refl)
      | inr on ↦ (0, simp on refl)
    ]
    alone_claim e db (ok _, after) =
        let out =
          process t r.extract r.finish_stamp s.max_words r.cancelled_in_process
            (record e { status = running }) after in
        (1, processed out.0 out.1)

    -- One statement, and then those that follow it.
    one_more :
        (v v' : Service Db) (turn turn' : Turn Db)
        → advance t codec s cap r v.phase v ≡ v'
        → turn ≡ turn'
        → Comes v' turn'
        → Comes v turn
    unfolding iterate
    one_more v v' turn turn' step same (n, comes) =
        (suc n, ap (iterate r n) step ∙ (comes ∙ ap (turned signals unsent) (sym same)))

    alone_handle : (e : Extraction) (db : Db) → Comes (at db (holding e)) (handle t codec s r e db)
    unfolding handle advance
    alone_handle e db = elim (Bool-cases (is_late s r.now e)) [
      | inl late ↦
          let after = (mark_failed t r.stamp e.id expired (s.expiry_message e.created_at) db).1 in
          one_more (at db (holding e)) (at after draining) (handle t codec s r e db) (again after)
            (rw late refl) (rw late refl) (0, (unfold iterate in refl))
      | inr early ↦
          one_more (at db (holding e))
            (after_claiming t codec s cap r e (at db (holding e)) (claim_pending t r.stamp e.id db))
            (handle t codec s r e db) (after_claim t codec s r e (claim_pending t r.stamp e.id db))
            (rw early refl) (rw early refl) (alone_claim e db (claim_pending t r.stamp e.id db))
    ]

    alone_peek :
        (db : Db) (x : Result (Option Extraction))
        → Comes
            (after_peek t codec s cap (at_draining db signals unsent) x)
            (peeked t codec s r db x)
    unfolding iterate peeked
    alone_peek db (err f) = (0, refl)
    alone_peek db (ok none) = (0, refl)
    alone_peek db (ok (some e)) = alone_handle e db

    -- A round of `drain` is a number of single statements of the worker: with no other goroutine
    -- between them, they lead to the same rows and to the same place in the loop.
    pub drain_round-advance :
        (db : Db) → Comes (at_draining db signals unsent) (drain_round t codec s r db)
    unfolding drain_round advance
    drain_round-advance db = elim (Bool-cases r.cancelled) [
      | inl done ↦
          one_more (at_draining db signals unsent) (at db stopped) (drain_round t codec s r db)
            (leave context_done db) (simp done refl) (simp done refl) (0, (unfold iterate in refl))
      | inr on ↦
          one_more (at_draining db signals unsent)
            (after_peek t codec s cap (at_draining db signals unsent)
              (peek_next_pending t codec db))
            (drain_round t codec s r db) (peeked t codec s r db (peek_next_pending t codec db))
            (simp on refl) (simp on refl) (alone_peek db (peek_next_pending t codec db))
    ]
