-- ===== src/Detection/Worker.antt =====
-- ulpf/detection/worker.py and store.py: one scan over a store.
use ocsf_forge.Prelude.{
  ℕ, ◌+◌, ◌-◌, ◌*◌, List, [], ◌∷◌, length, count_if, Result, ok, raise, raise_if, ltb, leb, ◌==◌,
  if◌then◌else◌,
}
use ocsf_forge.Text.{Text, CharClass, text_eq}
use ocsf_forge.Json.{Items}
use ocsf_forge.Detection.Settings.{DetectionSettings}
use ocsf_forge.Detection.Events.{AuthenticationEvent, eligible, Detection}
use ocsf_forge.Detection.Rules.{EvaluateError, evaluate}
use ocsf_forge.Storage.Actions.{Action, pure, lift_result, ◌>>=◌, ◌>>◌}

-- What a scan raises: an error of its own, or one of the store, with its text.
pub data ScanError : Type 0 where
  bad_scan no_events_allowed too_many_read : ScanError
  evaluating : EvaluateError → ScanError
  storing : Text → ScanError

-- The SELECT of `read_authentication` with its LIMIT, and the size check and MERGE of
-- `write_findings`.
pub record Store : Type 1 where
  pub State : Type 0
  pub select : ℕ → ℕ → ℕ → State → State × Result Text (List AuthenticationEvent)
  pub merge_findings : List Detection → State → State × Result Text (Unit {0})

-- The result of `run_once`, its times apart.
pub record Summary : Type 0 where
  pub events_read : ℕ
  pub events_eligible : ℕ
  pub findings_matched : ℕ

abbrev pub storing_error : {A : Type 0} → Result Text A → Result ScanError A
storing_error (ok a) = ok a
storing_error (raise message) = raise (storing message)

abbrev pub evaluated : Result EvaluateError (List Detection) → Result ScanError (List Detection)
evaluated (ok findings) = ok findings
evaluated (raise e) = raise (evaluating e)

abbrev pub on_store : {S A : Type 0} → (S → S × Result Text A) → Action S ScanError A
on_store m s = ((m s).0, storing_error (m s).1)

abbrev pub put_finding : Detection → List Detection → List Detection
put_finding d [] = d ∷ []
put_finding d (f ∷ findings) =
    if text_eq d.event.event_id f.event.event_id then d ∷ findings else f ∷ put_finding d findings

-- `{finding.event_id: finding for finding in findings}`.
abbrev pub unique_findings : List Detection → List Detection → List Detection
unique_findings found [] = found
unique_findings found (d ∷ findings) = unique_findings (put_finding d found) findings

abbrev pub microseconds : ℕ → ℕ
microseconds seconds = seconds * 1000000

module _ (store : Store) where
  unfoldable pub read_authentication :
      ℕ → ℕ → ℕ → Action store.State ScanError (List AuthenticationEvent)
  read_authentication start stop max_events = do
    lift_result (raise_if (max_events == 0) no_events_allowed)
    rows ← on_store (store.select start stop (max_events + 1))
    lift_result (raise_if (ltb max_events (length rows)) too_many_read)
    pure rows

  abbrev pub write_unique : List Detection → Action store.State ScanError (Unit {0})
  write_unique [] = pure tt
  write_unique (d ∷ findings) = on_store (store.merge_findings (d ∷ findings))

  unfoldable pub write_findings : List Detection → Action store.State ScanError (Unit {0})
  write_findings findings = write_unique (unique_findings [] findings)

  module _ (u : CharClass) (isoformat : ℕ → Text) (digest : Items → Text)
      (config : DetectionSettings) where
    -- `run_once` for a range of aware datetimes in microseconds since 1970, at least a window later.
    unfoldable pub run_once : ℕ → ℕ → ℕ → Action store.State ScanError Summary
    unfolding read_authentication write_findings
    run_once observed start stop = do
      lift_result (raise_if (leb stop start) bad_scan)
      events ←
          read_authentication (start - microseconds config.window_seconds) stop config.max_events
      findings ←
          lift_result (evaluated (evaluate u isoformat digest events start stop config observed))
      write_findings findings
      pure (record {
        events_read = length events;
        events_eligible = count_if (eligible u) events;
        findings_matched = length findings;
      })
