-- ===== src/Ocsf/Actor.antt =====
-- Which OCSF records of ulpf/models.py have an actor, and what `to_ocsf_dict` returns.
use mathlib.Core.Path.{subst}
use ocsf_forge.Prelude.{
  some-injective, ap, ℕ, ◌≡◌, ◌++◌, refl, sym, ◌∙◌, inl, inr, true, false, Option, none, some, [],
  ◌∷◌, arith, ◌==◌, Bool-cases, if◌then◌else◌,
}
use ocsf_forge.Text.{Text, codes}
use ocsf_forge.Json.{boolean, fields, Value, int, str, obj, Fields, get, put}
use ocsf_forge.Json.Laws.{get-put, get-remove}
use ocsf_forge.Models.{NormalizedEvent}
use ocsf_forge.Normalizer.{fallback}
use ocsf_forge.Normalizer.Fields.{Library, spell_zulu}
use ocsf_forge.Ocsf.Context.{has, with_user, retain_context, metadata_of, dict_of, project_class}
use ocsf_forge.Ocsf.Record.{
  with_endpoint, with_actor, with_class, finding_info, set_default, user_entry, base_record,
  event_time_text, offset_value, at_times, shaped, to_ocsf_dict,
}
use ocsf_forge.Ocsf.Moved.{retain_context-IsMoved}
use ocsf_forge.Ocsf.Shape.{
  get-put_other, get-with_endpoint, get-with_service, get-with_response, get-shaped,
}

abbrev key : Text
key = codes "actor"

-- The actor of a user, if there is one.
abbrev pub user_actor : Text → Option Value
user_actor [] = none
user_actor (c ∷ t) = some (user_entry (c ∷ t))

-- Findings, authentication and HTTP activity have none, API activity always has one.
abbrev pub actor_of : ℕ → Text → Option Value
actor_of class_uid user =
    if class_uid == 2004
    then none
    else if class_uid == 3002
    then none
    else if class_uid == 4002
    then none
    else if class_uid == 6003
    then some (user_entry (fallback user (codes "unknown")))
    else user_actor user

actor-with_actor :
    (user : Text) (r : Fields) → get r key ≡ none → get (with_actor user r) key ≡ user_actor user
actor-with_actor [] r h = h
actor-with_actor (c ∷ t) r h = get-put r key (user_entry (c ∷ t)) key

actor-with_user :
    (user : Text) (r : Fields) → get r key ≡ user_actor user → get (with_user user r) key ≡ none
actor-with_user [] r h = h
actor-with_user (c ∷ t) r h = rw get-remove refl

actor-set_default :
    (user : Text) (r : Fields)
    → get r key ≡ user_actor user
    → get (set_default r key (user_entry (codes "unknown"))) key
      ≡ some (user_entry (fallback user (codes "unknown")))
actor-set_default [] r h = elim (Bool-cases (has r key)) [
  | inl found ↦ absurd (none_found (get r key) h found)
  | inr missing ↦ rw missing (get-put r key (user_entry (codes "unknown")) key)
]
  where
    none_found :
        (o : Option Value) → o ≡ none → (elim o [ none ↦ false | some v ↦ true ]) ≡ true → ⊥
    none_found none e f = cc
    none_found (some v) e f = cc
actor-set_default (c ∷ t) r h = elim (Bool-cases (has r key)) [
  | inl found ↦ rw found h
  | inr missing ↦ absurd (some_missing (get r key) h missing)
]
  where
    some_missing :
        (o : Option Value)
        → o ≡ some (user_entry (c ∷ t))
        → (elim o [ none ↦ false | some v ↦ true ]) ≡ false
        → ⊥
    some_missing none e f = cc
    some_missing (some v) e f = cc

module _ (lib : Library) (e : NormalizedEvent) (r : Fields)
    (user : get r key ≡ user_actor e.user) where
  actor-finding : e.class_uid == 2004 ≡ true → get (project_class e (with_class lib e r)) key ≡ none
  unfolding project_class
  actor-finding is = rw is (
      (retain_context-IsMoved (codes "src_endpoint" ∷ codes "dst_endpoint" ∷ codes "actor" ∷ [])
          (put (put r (codes "finding_info") (finding_info lib e)) (codes "is_alert")
            (boolean true))
          refl).others
        key refl)

  module _ (no1 : e.class_uid == 2004 ≡ false) where
    actor-login : e.class_uid == 3002 ≡ true → get (project_class e (with_class lib e r)) key ≡ none
    unfolding project_class
    actor-login is =
        let other : (e.class_uid == 6003) ≡ false = ground (arith, is) in
        rw (no1, is, other)
          (get-with_service key (get (metadata_of e.metadata) (codes "service"))
              (with_user e.user r) refl
            ∙ actor-with_user e.user r user)

    module _ (no2 : e.class_uid == 3002 ≡ false) where
      actor-http :
          e.class_uid == 4002 ≡ true → get (project_class e (with_class lib e r)) key ≡ none
      unfolding project_class
      actor-http is =
          let other : (e.class_uid == 6003) ≡ false = ground (arith, is) in
          rw (no1, no2, is, other)
            (get-with_response key (metadata_of e.metadata) (retain_context r (codes "actor" ∷ []))
                refl
              ∙ (retain_context-IsMoved (codes "actor" ∷ []) r refl).others key refl)

      module _ (no3 : e.class_uid == 4002 ≡ false) where
        actor-call :
            e.class_uid == 6003 ≡ true
            → get (project_class e (with_class lib e r)) key
              ≡ some (user_entry (fallback e.user (codes "unknown")))
        unfolding project_class
        actor-call is =
            rw (no1, no2, no3, is)
              (get-put_other key (set_default r key (user_entry (codes "unknown"))) (codes "api")
                  (obj (fields ((codes "operation", str (fallback e.action e.activity_name)) ∷ [])))
                  refl
                ∙ actor-set_default e.user r user)

        actor-rest :
            e.class_uid == 6003 ≡ false
            → get (project_class e (with_class lib e r)) key ≡ user_actor e.user
        unfolding project_class
        actor-rest no4 = rw (no1, no2, no3, no4) user

  actor-project_class : get (project_class e (with_class lib e r)) key ≡ actor_of e.class_uid e.user
  actor-project_class = elim (Bool-cases (e.class_uid == 2004)) [
    | inl is ↦ actor-finding is ∙ sym (rw is refl)
    | inr no1 ↦ elim (Bool-cases (e.class_uid == 3002)) [
      | inl is ↦ actor-login no1 is ∙ sym (rw (no1, is) refl)
      | inr no2 ↦ elim (Bool-cases (e.class_uid == 4002)) [
        | inl is ↦ actor-http no1 no2 is ∙ sym (rw (no1, no2, is) refl)
        | inr no3 ↦ elim (Bool-cases (e.class_uid == 6003)) [
          | inl is ↦ actor-call no1 no2 no3 is ∙ sym (rw (no1, no2, no3, is) refl)
          | inr no4 ↦ actor-rest no1 no2 no3 no4 ∙ sym (rw (no1, no2, no3, no4) refl)
        ]
      ]
    ]
  ]

-- A record has the two times, the fields of the event that do not depend on its class, each under
-- its own key, and the actor that its class asks for.
pub record IsShaped (e : NormalizedEvent) (time logged : Value) (r : Fields) : Type 0 where
  pub activity_id : get r (codes "activity_id") ≡ some (int e.activity_id)
  pub activity_name : get r (codes "activity_name") ≡ some (str e.activity_name)
  pub category_uid : get r (codes "category_uid") ≡ some (int e.category_uid)
  pub category_name : get r (codes "category_name") ≡ some (str e.category)
  pub class_uid : get r (codes "class_uid") ≡ some (int e.class_uid)
  pub class_name : get r (codes "class_name") ≡ some (str e.class_name)
  pub type_uid : get r (codes "type_uid") ≡ some (int e.type_uid)
  pub type_name :
      get r (codes "type_name") ≡ some (str (e.class_name ++ (codes ": " ++ e.activity_name)))
  pub severity_id : get r (codes "severity_id") ≡ some (int e.severity_id)
  pub severity : get r (codes "severity") ≡ some (str e.severity)
  pub status_id : get r (codes "status_id") ≡ some (int e.status_id)
  pub status : get r (codes "status") ≡ some (str e.status)
  pub event_time : get r (codes "time") ≡ some time
  pub timezone_offset : get r (codes "timezone_offset") ≡ some (offset_value e.timezone_offset)
  pub message : get r (codes "message") ≡ some (str e.message)
  pub uid : get (dict_of (get r (codes "metadata"))) (codes "uid") ≡ some (str e.event_id)
  pub version :
      get (dict_of (get r (codes "metadata"))) (codes "version") ≡ some (str e.ocsf_version)
  pub logged_time : get (dict_of (get r (codes "metadata"))) (codes "logged_time") ≡ some logged
  pub product :
      get (dict_of (get r (codes "metadata"))) (codes "product")
      ≡ some (
          obj (
            fields (
              (codes "name", str (fallback e.device_product e.parser_name))
              ∷ (codes "vendor_name", str (fallback e.device_vendor (codes "Unknown")))
              ∷ (codes "version", str e.parser_version)
              ∷ [])))
  pub actor : get r (codes "actor") ≡ actor_of e.class_uid e.user

abbrev with_ends : NormalizedEvent → Value → Value → Fields
with_ends e time logged =
    with_endpoint (codes "dst_endpoint") e.dst_endpoint_ip e.dst_endpoint_port (
      with_endpoint (codes "src_endpoint") e.src_endpoint_ip e.src_endpoint_port
        (base_record e time logged))

module _ (lib : Library) (milliseconds : Text → Option Value) where
  shaped-IsShaped :
      (e : NormalizedEvent) (time logged : Value)
      → IsShaped e time logged (shaped lib milliseconds e time logged)
  unfolding shaped
  shaped-IsShaped e time logged = record {
    activity_id = get-shaped (codes "activity_id") refl lib milliseconds e time logged;
    activity_name = get-shaped (codes "activity_name") refl lib milliseconds e time logged;
    category_uid = get-shaped (codes "category_uid") refl lib milliseconds e time logged;
    category_name = get-shaped (codes "category_name") refl lib milliseconds e time logged;
    class_uid = get-shaped (codes "class_uid") refl lib milliseconds e time logged;
    class_name = get-shaped (codes "class_name") refl lib milliseconds e time logged;
    type_uid = get-shaped (codes "type_uid") refl lib milliseconds e time logged;
    type_name = get-shaped (codes "type_name") refl lib milliseconds e time logged;
    severity_id = get-shaped (codes "severity_id") refl lib milliseconds e time logged;
    severity = get-shaped (codes "severity") refl lib milliseconds e time logged;
    status_id = get-shaped (codes "status_id") refl lib milliseconds e time logged;
    status = get-shaped (codes "status") refl lib milliseconds e time logged;
    event_time = get-shaped (codes "time") refl lib milliseconds e time logged;
    timezone_offset = get-shaped (codes "timezone_offset") refl lib milliseconds e time logged;
    message = get-shaped (codes "message") refl lib milliseconds e time logged;
    uid = metadata (codes "uid");
    version = metadata (codes "version");
    logged_time = metadata (codes "logged_time");
    product = metadata (codes "product");
    actor = actor-project_class lib e (with_actor e.user (with_ends e time logged)) (
        actor-with_actor e.user (with_ends e time logged) (
          get-with_endpoint key (codes "dst_endpoint") e.dst_endpoint_ip e.dst_endpoint_port
            (with_endpoint (codes "src_endpoint") e.src_endpoint_ip e.src_endpoint_port
              (base_record e time logged))
            refl
          ∙ get-with_endpoint key (codes "src_endpoint") e.src_endpoint_ip e.src_endpoint_port
              (base_record e time logged) refl));
  }
    where
      metadata :
          (k : Text)
          → get (dict_of (get (shaped lib milliseconds e time logged) (codes "metadata"))) k
            ≡ get (dict_of (get (base_record e time logged) (codes "metadata"))) k
      metadata k =
          ap (λ v. get (dict_of v) k)
            (get-shaped (codes "metadata") refl lib milliseconds e time logged)

  -- If `to_ocsf_dict` returns, both times are readable; the record has the event's own as "time"
  -- and that of its observation as "logged_time" of its metadata; the ids and names of activity,
  -- category, class, type, severity and status, the offset, the message, and the id, version and
  -- product of the metadata are the event's, each under its key; and there is no actor for
  -- findings, authentication and HTTP activity, one always for API activity, and else the one of
  -- the user, if there is one.
  pub to_ocsf_dict-IsShaped :
      (e : NormalizedEvent) (r : Fields)
      → to_ocsf_dict lib milliseconds e ≡ some r
      → (time : Value) × (logged : Value) × (milliseconds (spell_zulu (event_time_text e))
          ≡ some time)
        × (milliseconds (spell_zulu e.observed_at) ≡ some logged)
        × IsShaped e time logged r
  unfolding to_ocsf_dict
  to_ocsf_dict-IsShaped e r h =
      from (milliseconds (spell_zulu (event_time_text e))) (milliseconds (spell_zulu e.observed_at))
        h
    where
      from :
          (a b : Option Value)
          → at_times a b (shaped lib milliseconds e) ≡ some r
          → (time : Value) × (logged : Value) × (a ≡ some time)
            × (b ≡ some logged)
            × IsShaped e time logged r
      from none b h = cc
      from (some time) none h = cc
      from (some time) (some logged) h = (
        time,
        logged,
        refl,
        refl,
        subst (IsShaped e time logged) (some-injective h) (shaped-IsShaped e time logged),
      )
