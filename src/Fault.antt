-- ===== src/Fault.antt =====
-- Go errors. An error is the sentinels that its chain holds, for `errors.Is`, and its text, as
-- bytes. `fmt.Errorf("…%w…", e)` and `errors.Join` add to the chain and never take from it.
use research_monitor.Base.{ℕ, Bool, List, any}

pub record Fault (S : Type 0) : Type 0 where
  pub wraps : List S
  pub text : List ℕ

-- `errors.Is(err, sentinel)`, the sentinel given by its test.
abbrev pub is_err : {S : Type 0} → (S → Bool) → Fault S → Bool
is_err p e = any p e.wraps
