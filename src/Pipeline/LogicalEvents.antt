-- ===== src/Pipeline/LogicalEvents.antt =====
-- `_logical_events` of ulpf/pipeline.py: lines grouped into events.
use ocsf_forge.Prelude.{
  ℕ, suc, ◌+◌, Bool, false, not, ◌&&◌, ◌||◌, Option, List, [], ◌∷◌, ◌++◌, length, is_nil, Result,
  ok, ◌>>=◌, ◌>>◌, if◌then◌else◌,
}
use ocsf_forge.Text.{Text, CharClass, codes, starts_with, strip, lstrip}
use ocsf_forge.Parsing.Limits.{LimitError, check_event_limit}

-- `"\n".join(lines)`.
abbrev pub join_lines : List Text → Text
join_lines [] = []
join_lines (t ∷ []) = t
join_lines (t ∷ u ∷ ts) = t ++ (b'\n' ∷ join_lines (u ∷ ts))

-- The local variables of the loop.
pub record Grouping : Type 0 where
  pub events : List (ℕ × Text)
  pub offset : ℕ
  pub chunks : List Text
  pub accepts_continuations : Bool

abbrev pub no_lines : Grouping
no_lines = record { events = []; offset = 0; chunks = []; accepts_continuations = false }

-- The events with the one that the chunks make.
abbrev pub closed : Grouping → List (ℕ × Text)
closed g = if is_nil g.chunks then g.events else g.events ++ (g.offset, join_lines g.chunks) ∷ []

module _ (chars : CharClass) where
  abbrev pub starts_with_space : Text → Bool
  starts_with_space [] = false
  starts_with_space (c ∷ line) = chars.is_space c

  abbrev pub continues : Grouping → Text → Bool
  continues g line =
      let stripped = lstrip chars line in
      g.accepts_continuations
      && (not (is_nil g.chunks)
          && (starts_with_space line
              || (starts_with (codes "at ") stripped
                  || (starts_with (codes "Caused by:") stripped
                      || starts_with (codes "Suppressed:") stripped))))

  abbrev pub is_blank : Text → Bool
  is_blank line = is_nil (strip chars line)

module _ (chars : CharClass) (is_log4j : Text → Bool) where
  abbrev pub opened : Grouping → ℕ → Text → Grouping
  opened g index line = record {
    events = closed g;
    offset = index;
    chunks = line ∷ [];
    accepts_continuations = is_log4j line;
  }

  -- One turn of the loop.
  unfoldable pub step : Option ℕ → Grouping → ℕ → Text → Result LimitError Grouping
  step max_events g index line =
      if continues chars g line
      then ok (record g { chunks = g.chunks ++ line ∷ [] })
      else if is_blank chars line
      then ok g
      else check_event_limit (length (closed g) + 1) max_events >> ok (opened g index line)

  unfoldable pub group_from :
      Option ℕ → Grouping → ℕ → List Text → Result LimitError (List (ℕ × Text))
  unfolding step
  group_from max_events g index [] = ok (closed g)
  group_from max_events g index (line ∷ lines) =
      step max_events g index line >>= λ h. group_from max_events h (suc index) lines

  -- `_logical_events`.
  unfoldable pub logical_events : List Text → Option ℕ → Result LimitError (List (ℕ × Text))
  unfolding group_from
  logical_events lines max_events = group_from max_events no_lines 0 lines
