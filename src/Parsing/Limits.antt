-- ===== src/Parsing/Limits.antt =====
-- ulpf/parsing/limits.py: the budget of records.
use ocsf_forge.Prelude.{ℕ, Option, none, some, Result, ok, ◌>>◌, raise_if, ltb, ◌==◌}

pub data LimitError : Type 0 where
  max_events_not_positive input_limit : LimitError

-- A maximum that is not positive counts as 0.
unfoldable pub check_event_limit : ℕ → Option ℕ → Result LimitError (Unit {0})
check_event_limit count none = ok tt
check_event_limit count (some maximum) = do
  raise_if (maximum == 0) max_events_not_positive
  raise_if (ltb maximum count) input_limit
  ok tt
