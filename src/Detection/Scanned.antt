-- ===== src/Detection/Scanned.antt =====
-- What `run_once` of ulpf/detection/worker.py has done when it answers.
use ocsf_forge.Prelude.{ℕ, ◌+◌, ◌-◌, ◌≤◌, ◌<◌, ◌≡◌, List, length, ok}
use ocsf_forge.Text.{Text, CharClass}
use ocsf_forge.Json.{Items}
use ocsf_forge.Detection.Settings.{DetectionSettings}
use ocsf_forge.Detection.Events.{AuthenticationEvent, Detection}
use ocsf_forge.Detection.Findings.{IsReport}
use ocsf_forge.Detection.Worker.{Store, Summary, microseconds, write_unique}

module _ (store : Store) (u : CharClass) (isoformat : ℕ → Text) (digest : Items → Text)
    (config : DetectionSettings) (observed start stop : ℕ) where
  abbrev pub since : ℕ
  since = start - microseconds config.window_seconds

  abbrev pub read_state : store.State → store.State
  read_state s = (store.select since stop (config.max_events + 1) s).0

  -- The events of the window before the range and of the range are read, no more than the limit,
  -- and the state is what the write of the findings of a report on them left.
  pub record IsScanned (before after : store.State) (summary : Summary) : Type 0 where
    pub range : start < stop
    pub events : List AuthenticationEvent
    pub read : (store.select since stop (config.max_events + 1) before).1 ≡ ok events
    pub bounded : length events ≤ config.max_events
    pub findings : List Detection
    pub report : IsReport u isoformat digest config observed start stop events findings
    pub written : after ≡ (write_unique store findings (read_state before)).0
    pub answered : (write_unique store findings (read_state before)).1 ≡ ok tt
    pub counted :
        (summary.events_read ≡ length events) × (summary.findings_matched ≡ length findings)

  -- What `read_authentication` has done when it answers.
  record IsRead (before after : store.State) (rows : List AuthenticationEvent) : Type 0 where
    selected : (store.select since stop (config.max_events + 1) before).1 ≡ ok rows
    state : after ≡ read_state before
    within : length rows ≤ config.max_events
