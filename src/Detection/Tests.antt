-- ===== src/Detection/Tests.antt =====
-- Runs of the detection rules, and the theorems about them at concrete events.
use ocsf_forge.Prelude.{
  ℕ, ◌*◌, ◌≡◌, ◌↔◌, refl, ◌&&◌, keep, take, List, [], ◌∷◌, ◌++◌, map, ok, raise, arith, leb, ltb,
}
use ocsf_forge.Text.{Text, ascii, codes}
use ocsf_forge.Json.{Items, nil, item, str, int}
use ocsf_forge.Detection.Settings.{
  DetectionSettings, default_settings, check_settings, IsSound, check_settings_iff, short_lookback,
}
use ocsf_forge.Detection.Events.{AuthenticationEvent, Detection}
use ocsf_forge.Detection.Counter.{tally, decrement}
use ocsf_forge.Detection.Order.{sort}
use ocsf_forge.Detection.Rules.{run, no_windows, emit_all}
use ocsf_forge.Detection.Specification.{all_triggered}
use ocsf_forge.Detection.Refinement.{run-eq-all_triggered}
use ocsf_forge.Detection.Findings.{calls}
use ocsf_forge.Detection.Worker.{Store, Summary}

abbrev settings : DetectionSettings
settings = record default_settings {
  failure_threshold = 2;
  spray_threshold = 2;
  window_seconds = 10;
}

-- At `t` seconds, by `user`, with the outcome `status`.
abbrev attempt : Text → ℕ → Text → ℕ → AuthenticationEvent
attempt id t user status = record {
  event_id = id;
  timestamp = t * 1000000;
  hostname = codes "h";
  service = codes "s";
  ip_address = codes "192.0.2.1";
  user = user;
  status_id = status;
  class_uid = 3002;
  activity_id = 1;
}

abbrev attempts : List AuthenticationEvent
attempts =
    attempt (codes "d") 111 (codes "al") 1
    ∷ attempt (codes "a") 100 (codes "al") 2
    ∷ attempt (codes "c") 105 (codes "al") 2
    ∷ attempt (codes "b") 104 (codes "bo") 2
    ∷ attempt (codes "e") 114 (codes "al") 1
    ∷ []

abbrev plain_digest : Items → Text
plain_digest nil = []
plain_digest (item (str s) rest) = s ++ 0 ∷ plain_digest rest
plain_digest (item (int n) rest) = n ∷ 0 ∷ plain_digest rest
plain_digest (item _ rest) = plain_digest rest

abbrev plain_format : ℕ → Text
plain_format n = n ∷ []

abbrev summary : Detection → Text × ℕ × List Text
summary d = (d.rule_id, d.event_count, d.evidence_ids)

-- The failures at 100 and 104 are two users'; at 105 the second failure of one user is reported,
-- and the spray is in the same bucket; at 111 the failure at 100 is too old.
report :
    map summary (
      emit_all plain_format plain_digest settings 0 []
        (run settings 90000000 120000000 no_windows (sort attempts)))
    ≡ (codes "auth.password_spray", 2, codes "a" ∷ codes "b" ∷ [])
      ∷ (codes "auth.repeated_failures", 2, codes "a" ∷ codes "c" ∷ [])
      ∷ []
unfolding emit_all run sort tally decrement
report = refl

abbrev found : List Detection
found =
    emit_all plain_format plain_digest settings 0 []
      (calls ascii plain_format plain_digest settings 0 90000000 120000000 attempts)

run-eq-all_triggered_example :
    run settings 90000000 120000000 no_windows
      (attempt (codes "a") 100 (codes "al") 2 ∷ attempt (codes "b") 105 (codes "al") 2 ∷ [])
    ≡ all_triggered settings 90000000 120000000 []
        (attempt (codes "a") 100 (codes "al") 2 ∷ attempt (codes "b") 105 (codes "al") 2 ∷ [])
run-eq-all_triggered_example =
    run-eq-all_triggered settings 90000000 120000000
      (attempt (codes "a") 100 (codes "al") 2 ∷ attempt (codes "b") 105 (codes "al") 2 ∷ [])
      (omega arith)

check_settings_iff_example :
    (check_settings default_settings ≡ ok default_settings) ↔ IsSound default_settings
check_settings_iff_example = check_settings_iff default_settings

short : check_settings (record default_settings { lookback_seconds = 200 }) ≡ raise short_lookback
unfolding check_settings
short = refl

-- A store of the attempts, which appends what it is given.
abbrev attempt_store : Store
attempt_store = record {
  State = List Detection;
  select = λ start stop limit s.
      (s, ok (take limit (keep (λ e. leb start e.timestamp && ltb e.timestamp stop) attempts)));
  merge_findings = λ findings s. (s ++ findings, ok tt);
}

abbrev scan_summary : Summary
scan_summary = record { events_read = 5; events_eligible = 5; findings_matched = 2 }
