-- ===== src/Extraction/Repository/Edges.antt =====
-- The life of a row: every operation of the repository, whatever it answers, moves each row along
-- an edge of the status diagram or leaves it alone.
use research_monitor.Base.{ℕ, ◌≡◌, refl, inl, inr, true, false, String, List, [], Bool-cases, arith}
use research_monitor.Extraction.Types.{
  JobStatus, pending, running, done, failed, FailureReason, unset, expired, Artifact, same_status,
  is_done, is_failed,
}
use research_monitor.Extraction.Row.{Row}
use research_monitor.Extraction.Repository.{
  reset, is_expired_reason, expected_prior, to_running, to_done, to_failed,
}

-- Columns that a status leaves empty are empty.
pub record IsClean (r : Row) : Type 0 where
  pub no_title : is_done r.status ≡ false → r.title ≡ []
  pub no_body : is_done r.status ≡ false → r.body_markdown ≡ []
  pub no_type : is_done r.status ≡ false → r.metadata_content_type ≡ ""
  pub no_words : is_done r.status ≡ false → r.metadata_word_count ≡ 0
  pub no_cause : is_failed r.status ≡ false → r.failure_reason ≡ unset
  pub no_message : is_failed r.status ≡ false → r.failure_message ≡ []

-- The edges of the diagram.
pub data Edge (r r' : Row) : Type 0 where
  resubmitted : r'.status ≡ pending → Edge r r'
  claimed : r.status ≡ pending → r'.status ≡ running → Edge r r'
  finished : r.status ≡ running → r'.status ≡ done → Edge r r'
  broken :
      r.status ≡ running
      → r'.status ≡ failed
      → is_expired_reason r'.failure_reason ≡ false
      → Edge r r'
  lapsed : r.status ≡ pending → r'.status ≡ failed → r'.failure_reason ≡ expired → Edge r r'

pub record Moves (r r' : Row) : Type 0 where
  pub same_id : r'.id ≡ r.id
  pub same_type : r'.source_type ≡ r.source_type
  pub same_source_id : r'.source_id ≡ r.source_id
  pub edge : Edge r r'
  pub clean : IsClean r → IsClean r'

pub same_status-eq : (s t : JobStatus) → same_status s t ≡ true → s ≡ t
same_status-eq s t h = ground arith

pub reset-Moves : (column : String) (now : ℕ) (r : Row) → Moves r (reset column now r)
unfolding reset
reset-Moves column now r = record {
  same_id = refl;
  same_type = refl;
  same_source_id = refl;
  edge = resubmitted refl;
  clean = λ c. record {
    no_title = λ _. refl;
    no_body = λ _. refl;
    no_type = λ _. refl;
    no_words = λ _. refl;
    no_cause = λ _. refl;
    no_message = λ _. refl;
  };
}

pub to_running-Moves : (now : ℕ) (r : Row) → r.status ≡ pending → Moves r (to_running now r)
unfolding to_running
to_running-Moves now r p = record {
  same_id = refl;
  same_type = refl;
  same_source_id = refl;
  edge = claimed p refl;
  clean = λ c. record {
    no_title = λ _. c.no_title (rw p);
    no_body = λ _. c.no_body (rw p);
    no_type = λ _. c.no_type (rw p);
    no_words = λ _. c.no_words (rw p);
    no_cause = λ _. c.no_cause (rw p);
    no_message = λ _. c.no_message (rw p);
  };
}

pub to_done-Moves :
    (a : Artifact) (now : ℕ) (r : Row) → r.status ≡ running → Moves r (to_done a now r)
unfolding to_done
to_done-Moves a now r p = record {
  same_id = refl;
  same_type = refl;
  same_source_id = refl;
  edge = finished p refl;
  clean = λ c. record {
    no_title = λ h. absurd (cc);
    no_body = λ h. absurd (cc);
    no_type = λ h. absurd (cc);
    no_words = λ h. absurd (cc);
    no_cause = λ _. c.no_cause (rw p);
    no_message = λ _. c.no_message (rw p);
  };
}

pub to_failed-Moves :
    (reason : FailureReason) (message : List ℕ) (now : ℕ) (r : Row)
    → r.status ≡ expected_prior reason
    → Moves r (to_failed reason message now r)
unfolding to_failed expected_prior
to_failed-Moves reason message now r p = record {
  same_id = refl;
  same_type = refl;
  same_source_id = refl;
  edge = elim (Bool-cases (is_expired_reason reason)) [
    | inl e ↦ lapsed (ground arith) refl (ground arith)
    | inr n ↦ broken (ground arith) refl n
  ];
  clean = λ c. record {
    no_title = λ _. c.no_title (ground arith);
    no_body = λ _. c.no_body (ground arith);
    no_type = λ _. c.no_type (ground arith);
    no_words = λ _. c.no_words (ground arith);
    no_cause = λ h. absurd (cc);
    no_message = λ h. absurd (cc);
  };
}
