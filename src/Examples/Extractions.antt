-- ===== src/Examples/Extractions.antt =====
-- The use case, the worker and the normaliser of extractions, applied.
use research_monitor.Base.{All, ◌≡◌, refl, List, [], ◌∷◌, none, false, arith}
use research_monitor.Text.{codes, trim_space}
use research_monitor.Extraction.Types.{Extraction, running, ExtractInput, validate}
use research_monitor.Extraction.Row.{Row, clash}
use research_monitor.Extraction.Lines.{split_lines, is_references_heading}
use research_monitor.Extraction.Normalize.{is_row, is_dropped, normalize}
use research_monitor.Extraction.Normalize.Body.{IsTidy, normalize-IsTidy}
use research_monitor.Extraction.Normalize.Fixed.{NoRow}
use research_monitor.Extraction.Normalize.Calm.{is_calm, ends_with_newline}
use research_monitor.Extraction.Repository.{upsert}
use research_monitor.Extraction.Repository.Upserts.{new_row}
use research_monitor.Extraction.UseCase.{Extracted, output}
use research_monitor.Extraction.Worker.{Round, Settings, queue_empty, unfinished, drain}
use research_monitor.Extraction.Worker.Settling.{IsReliable, waiting}
use research_monitor.Extraction.Worker.Draining.{IsQuiet, drain_empties}
use research_monitor.Extraction.Worker.Spinning.{drain_spins}
use research_monitor.Extraction.Service.{idle, Service, self_signal, upserted, submitting}
use research_monitor.Extraction.Service.Wakes.{Heard, Serves, start, after, no_lost_wake}
use research_monitor.Examples.Memory.{read_only, first_in-reads}
use research_monitor.Examples.Codecs.{payload_codec}
use research_monitor.Examples.Catalogue.{table, payload, column, waiting_row, finished}

reliable : IsReliable table
reliable = record {
  reads = λ p key db. first_in-reads p key db;
  writes = λ p f db e. absurd (ground arith);
}

-- An extractor that answers with five words.
abbrev answer : ExtractInput → Extracted
answer _ = output (record { markdown = codes "# T\none two three"; title_hint = [] })

abbrev in_work : Extraction
in_work = record finished { status = running; artifact = none }

abbrev round : Round
round = record {
  cancelled = false;
  now = 6;
  stamp = 6;
  cancelled_at_claim = false;
  extract = answer;
  cancelled_in_process = false;
  finish_stamp = 7;
  cancelled_after = false;
}

round-IsQuiet : IsQuiet round
round-IsQuiet = record { start = refl; at_claim = refl; at_end = refl }

abbrev settings : Settings
settings = record { job_expiry = 100; max_words = 50; expiry_message = λ _. codes "late" }

abbrev queue : List Row
queue = waiting_row ∷ (new_row "z" (column "q") 4 (payload "q") ∷ [])

drain_empties_example :
    ((drain table payload_codec settings (round ∷ (round ∷ (round ∷ []))) queue).0 ≡ queue_empty)
    × (waiting (drain table payload_codec settings (round ∷ (round ∷ (round ∷ []))) queue).1 ≡ 0)
drain_empties_example =
    drain_empties table payload_codec settings reliable (round ∷ (round ∷ (round ∷ []))) queue
      (round-IsQuiet, (round-IsQuiet, (round-IsQuiet, tt)))
      ((payload "p", refl), ((payload "q", refl), tt)) (omega arith)

drain_spins_example :
    (drain (read_only clash) payload_codec settings (round ∷ (round ∷ [])) queue).0 ≡ unfinished
drain_spins_example =
    drain_spins (read_only clash) payload_codec settings
      (record { reads = λ p key db. first_in-reads p key db; refuses = λ p f db. refl })
      (round ∷ (round ∷ [])) queue (round-IsQuiet, (round-IsQuiet, tt))
      ((payload "p", refl), ((payload "q", refl), tt)) refl

normalize-IsTidy_example :
    IsTidy
      (normalize (codes "# T\n\n\n\n![a](b)\nx\n# References\n[1]\n") (codes "f")).body_markdown
normalize-IsTidy_example =
    normalize-IsTidy (codes "# T\n\n\n\n![a](b)\nx\n# References\n[1]\n") (codes "f")

-- A submission arrives while the worker waits, and has not sent its signal yet.
abbrev at_start : Service (List Row)
at_start = record { db = []; signals = self_signal 1 0; unsent = 0; phase = idle }

abbrev after_submission : Service (List Row)
after_submission =
    upserted table payload_codec settings 1 at_start
      (upsert table payload_codec "x" 5 (payload "p") [])

submission_reached :
    Serves table payload_codec settings 1
      (omega arith)
      (λ p key db. first_in-reads p key db)
      []
      after_submission
unfolding validate
submission_reached = after start (submitting "x" 5 (payload "p") at_start refl)

no_lost_wake_example : Heard {Db = List Row} (λ db. db) after_submission
unfolding upsert
no_lost_wake_example =
    no_lost_wake table payload_codec settings 1 (omega arith) (λ p key db. first_in-reads p key db)
      [] tt submission_reached refl

plain_text : IsTidy (codes "# T\n\none two")
unfolding split_lines is_calm ends_with_newline is_references_heading is_dropped trim_space
plain_text = record {
  lines = (
    record { no_heading = refl; no_block = refl },
    (
      record { no_heading = refl; no_block = refl },
      (record { no_heading = refl; no_block = refl }, tt),
    ),
  );
  calm = refl;
  no_end = refl;
}

plain_rows : All NoRow (split_lines (codes "# T\n\none two"))
unfolding split_lines is_row
plain_rows = (refl, (refl, (refl, tt)))
