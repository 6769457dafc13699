-- ===== src/Detection/Emit.antt =====
-- ulpf/detection/rules.py: the rules and `emit`.
use ocsf_forge.Prelude.{
  ℕ, ◌-◌, ◌*◌, ◌/◌, false, not, some, List, [], ◌∷◌, ◌++◌, length, take, any, keep, map, ltb, min,
  ◌==◌, if◌then◌else◌,
}
use ocsf_forge.Text.{Text, codes, text_eq}
use ocsf_forge.Json.{Fields, Items, item, nil, int, str, arr, boolean, fields, texts, put}
use ocsf_forge.Models.{default_event}
use ocsf_forge.Detection.Settings.{DetectionSettings}
use ocsf_forge.Detection.Events.{AuthenticationEvent, same_event, Detection}

pub data Rule : Type 0 where
  repeated_failures password_spray success_after_failures : Rule

abbrev pub rule_version : Text
rule_version = codes "1.0.0"

abbrev pub rule_id : Rule → Text
rule_id repeated_failures = codes "auth.repeated_failures"
rule_id password_spray = codes "auth.password_spray"
rule_id success_after_failures = codes "auth.success_after_failures"

abbrev pub title : Rule → Text
title repeated_failures = codes "Repeated login failures"
title password_spray = codes "Possible password spraying"
title success_after_failures = codes "Successful login after repeated failures"

abbrev pub microseconds : ℕ → ℕ
microseconds seconds = seconds * 1000000

-- `representatives`: the first event of each user, in order.
unfoldable pub representatives : List AuthenticationEvent → List AuthenticationEvent
representatives [] = []
representatives (e ∷ l) = e ∷ keep (λ f. not (text_eq f.user e.user)) (representatives l)

abbrev pub event_ids : List AuthenticationEvent → List Text
event_ids = map (λ e. e.event_id)

-- `if trigger not in sample: sample.append(trigger)`.
abbrev pub with_trigger : AuthenticationEvent → List AuthenticationEvent → List AuthenticationEvent
with_trigger trigger sample =
    if any (same_event trigger) sample then sample else sample ++ trigger ∷ []

-- One trigger of a rule: the arguments of `emit`.
pub record Alert : Type 0 where
  pub rule : Rule
  pub trigger : AuthenticationEvent
  pub evidence : List AuthenticationEvent
  pub count : ℕ
  pub threshold : ℕ
  pub subject : Text

abbrev pub first_timestamp : List AuthenticationEvent → ℕ → ℕ
first_timestamp [] default = default
first_timestamp (e ∷ l) default = e.timestamp

-- The ISO text of an instant in UTC, and the SHA-256 of the JSON of a list, are the library's.
module _ (isoformat : ℕ → Text) (digest : Items → Text) (config : DetectionSettings)
    (observed : ℕ) where
  pub finding_id : Alert → Text
  finding_id a =
      let bucket = a.trigger.timestamp / 1000000 / config.window_seconds in
      digest (
        item (str (rule_id a.rule)) (
          item (str rule_version) (
            item (int config.window_seconds) (
              item (int a.threshold) (
                item (str a.trigger.hostname) (
                  item (str a.trigger.service) (
                    item (str a.trigger.ip_address)
                      (item (str a.subject) (item (int bucket) nil)))))))))

  unfoldable pub sample : Alert → List AuthenticationEvent
  unfolding representatives
  sample a = elim a.rule [
    | password_spray ↦
        with_trigger a.trigger (take (config.evidence_limit - 1) (representatives a.evidence))
    | _ ↦ with_trigger a.trigger (
        take
          (min (config.evidence_limit - 1) (a.count - (if a.trigger.status_id == 1 then 1 else 0)))
          a.evidence)
  ]

  -- The finding that `emit` records.
  unfoldable pub finding : Alert → Detection
  unfolding finding_id sample
  finding a =
      let ids = event_ids (sample a) in
      let base = fields (
        (codes "rule_id", str (rule_id a.rule))
        ∷ (codes "rule_version", str rule_version)
        ∷ (codes "window_seconds", int config.window_seconds)
        ∷ (codes "threshold", int a.threshold)
        ∷ (codes "event_count", int a.count)
        ∷ (codes "evidence_event_ids", arr (texts ids))
        ∷ (codes "evidence_truncated", boolean (ltb (length ids) a.count))
        ∷ (codes "hostname", str a.trigger.hostname)
        ∷ (codes "service", str a.trigger.service)
        ∷ []) in
      let metadata : Fields = elim a.rule [
        | password_spray ↦
            put base (codes "distinct_user_count") (int (length (representatives a.evidence)))
        | _ ↦ base
      ] in
      record {
        event = record default_event {
          event_id = finding_id a;
          timestamp = some (isoformat a.trigger.timestamp);
          observed_at = isoformat observed;
          timezone_offset = some (record { west = false; minutes = 0 });
          category_uid = 2;
          class_uid = 2004;
          activity_id = 1;
          type_uid = 200401;
          category = codes "Findings";
          class_name = codes "Detection Finding";
          activity_name = codes "Create";
          severity = codes "High";
          severity_id = 4;
          status = codes "New";
          status_id = 1;
          src_endpoint_ip = a.trigger.ip_address;
          user = a.subject;
          hostname = a.trigger.hostname;
          device_vendor = codes "OCSF Forge";
          device_product = codes "Authentication rules";
          parser_name = rule_id a.rule;
          parser_version = rule_version;
          source_format = codes "detection";
          message = title a.rule;
          metadata = some metadata;
        };
        rule_id = rule_id a.rule;
        rule_version = rule_version;
        first_seen = first_timestamp a.evidence a.trigger.timestamp;
        last_seen = a.trigger.timestamp;
        event_count = a.count;
        evidence_ids = ids;
      }

  -- `findings` is a dict: the first finding with an id is kept.
  unfoldable pub emit : Alert → List Detection → List Detection
  unfolding finding
  emit a findings =
      if any (λ d. text_eq d.event.event_id (finding_id a)) findings
      then findings
      else findings ++ finding a ∷ []
