-- ===== src/Ocsf/Record.antt =====
-- ulpf/models.py: `NormalizedEvent.to_ocsf_dict`.
use ocsf_forge.Prelude.{ℕ, zero, suc, true, Option, none, some, [], ◌∷◌, ◌++◌, ◌==◌, if◌then◌else◌}
use ocsf_forge.Text.{Text, codes}
use ocsf_forge.Json.{
  Value, null, boolean, int, negative, str, obj, Fields, end, field, fields, get, put, truthy,
}
use ocsf_forge.Models.{NormalizedEvent, Offset}
use ocsf_forge.Normalizer.{fallback}
use ocsf_forge.Normalizer.Fields.{Library, show_value, spell_zulu}
use ocsf_forge.Ocsf.Context.{metadata_of, has, project_class}

abbrev pub offset_value : Option Offset → Value
offset_value none = null
offset_value (some o) =
    if o.west then (elim o.minutes [ zero ↦ int 0 | suc n ↦ negative n ]) else int o.minutes

-- `self.timestamp or self.observed_at`.
abbrev pub event_time_text : NormalizedEvent → Text
event_time_text e = elim e.timestamp [ none ↦ e.observed_at | some t ↦ fallback t e.observed_at ]

abbrev pub port_entry : Option ℕ → Fields
port_entry none = end
port_entry (some n) = field (codes "port") (int n) end

-- The entries that are neither `None` nor empty.
abbrev pub endpoint : Text → Option ℕ → Fields
endpoint [] port = port_entry port
endpoint (c ∷ t) port = field (codes "ip") (str (c ∷ t)) (port_entry port)

abbrev pub with_endpoint : Text → Text → Option ℕ → Fields → Fields
with_endpoint key [] none record_ = record_
with_endpoint key ip port record_ = put record_ key (obj (endpoint ip port))

abbrev pub user_entry : Text → Value
user_entry name = obj (fields ((codes "user", obj (fields ((codes "name", str name) ∷ []))) ∷ []))

abbrev pub with_actor : Text → Fields → Fields
with_actor [] record_ = record_
with_actor (c ∷ t) record_ = put record_ (codes "actor") (user_entry (c ∷ t))

-- `record.setdefault(key, value)`.
abbrev pub set_default : Fields → Text → Value → Fields
set_default record_ key value = if has record_ key then record_ else put record_ key value

module _ (lib : Library) where
  -- `str(metadata.get("signature_id") or event_id)`.
  abbrev pub finding_uid : Option Value → Text → Text
  finding_uid none event_id = event_id
  finding_uid (some v) event_id = if truthy v then show_value lib v else event_id

  abbrev pub finding_info : NormalizedEvent → Value
  finding_info e = obj (
      fields (
        (codes "title", str (fallback e.message e.action))
        ∷ (
          codes "uid",
          str (finding_uid (get (metadata_of e.metadata) (codes "signature_id")) e.event_id),
        )
        ∷ []))

  abbrev pub with_class : NormalizedEvent → Fields → Fields
  with_class e record_ =
      if e.class_uid == 2004
      then put (put record_ (codes "finding_info") (finding_info e)) (codes "is_alert")
          (boolean true)
      else if e.class_uid == 6003
      then put (set_default record_ (codes "actor") (user_entry (codes "unknown"))) (codes "api")
          (obj (fields ((codes "operation", str (fallback e.action e.activity_name)) ∷ [])))
      else record_

abbrev pub ocsf_metadata : NormalizedEvent → Value → Value
ocsf_metadata e logged_time = obj (
    fields (
      (codes "uid", str e.event_id)
      ∷ (codes "version", str e.ocsf_version)
      ∷ (codes "logged_time", logged_time)
      ∷ (
        codes "product",
        obj (
            fields (
              (codes "name", str (fallback e.device_product e.parser_name))
              ∷ (codes "vendor_name", str (fallback e.device_vendor (codes "Unknown")))
              ∷ (codes "version", str e.parser_version)
              ∷ [])),
      )
      ∷ []))

abbrev pub base_record : NormalizedEvent → Value → Value → Fields
base_record e event_time logged_time = fields (
    (codes "activity_id", int e.activity_id)
    ∷ (codes "activity_name", str e.activity_name)
    ∷ (codes "category_uid", int e.category_uid)
    ∷ (codes "category_name", str e.category)
    ∷ (codes "class_uid", int e.class_uid)
    ∷ (codes "class_name", str e.class_name)
    ∷ (codes "type_uid", int e.type_uid)
    ∷ (codes "type_name", str (e.class_name ++ (codes ": " ++ e.activity_name)))
    ∷ (codes "severity_id", int e.severity_id)
    ∷ (codes "severity", str e.severity)
    ∷ (codes "status_id", int e.status_id)
    ∷ (codes "status", str e.status)
    ∷ (codes "time", event_time)
    ∷ (codes "timezone_offset", offset_value e.timezone_offset)
    ∷ (codes "message", str e.message)
    ∷ (codes "metadata", ocsf_metadata e logged_time)
    ∷ (codes "unmapped", obj (metadata_of e.metadata))
    ∷ [])

abbrev pub at_times : Option Value → Option Value → (Value → Value → Fields) → Option Fields
at_times none logged f = none
at_times (some time) none f = none
at_times (some time) (some logged) f = some (f time logged)

module _ (lib : Library) (milliseconds : Text → Option Value) where
  -- The record, from the times of the event and of its observation.
  unfoldable pub shaped : NormalizedEvent → Value → Value → Fields
  unfolding project_class
  shaped e event_time logged_time = project_class e (
      with_class lib e (
        with_actor e.user (
          with_endpoint (codes "dst_endpoint") e.dst_endpoint_ip e.dst_endpoint_port (
            with_endpoint (codes "src_endpoint") e.src_endpoint_ip e.src_endpoint_port
              (base_record e event_time logged_time)))))

  -- `to_ocsf_dict`; `milliseconds` is `int(datetime.fromisoformat(t).timestamp() * 1000)`, and
  -- `none` where this raises.
  unfoldable pub to_ocsf_dict : NormalizedEvent → Option Fields
  unfolding shaped
  to_ocsf_dict e =
      at_times (milliseconds (spell_zulu (event_time_text e)))
        (milliseconds (spell_zulu e.observed_at)) (shaped e)
