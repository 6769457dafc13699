-- ===== src/Parsing/Structured.antt =====
-- ulpf/parsing/structured.py: `structured_record`.
use ocsf_forge.Prelude.{
  ℕ, Bool, true, false, not, ◌&&◌, Option, none, some, List, [], ◌∷◌, ◌++◌, map, any, keep, take,
  is_nil, Result, ok, ◌>>=◌, ◌==◌, if◌then◌else◌,
}
use ocsf_forge.Text.{Text, codes, text_eq, is_in, to_lower}
use ocsf_forge.Json.{Value, null, str, arr, obj, Fields, end, field, get, put, truthy}
use ocsf_forge.Normalizer.Fields.{Library, show_value}
use ocsf_forge.Ocsf.Context.{has}
use ocsf_forge.Parsing.Parsed.{Parsed, unparsed}
use ocsf_forge.Parsing.Registry.{ParseError}
use ocsf_forge.Parsing.Authentication.{Authentication, lookup, or_else, authentication_action}

-- `MAPPED_FIELDS`, sorted.
unfoldable pub mapped_fields : List Text
mapped_fields =
    codes "@timestamp"
    ∷ codes "action"
    ∷ codes "actor"
    ∷ codes "app"
    ∷ codes "client_ip"
    ∷ codes "client_port"
    ∷ codes "destination_ip"
    ∷ codes "destination_port"
    ∷ codes "dst_ip"
    ∷ codes "dst_port"
    ∷ codes "event"
    ∷ codes "event_type"
    ∷ codes "host"
    ∷ codes "hostname"
    ∷ codes "ip"
    ∷ codes "level"
    ∷ codes "message"
    ∷ codes "operation"
    ∷ codes "risk"
    ∷ codes "server"
    ∷ codes "server_port"
    ∷ codes "service"
    ∷ codes "severity"
    ∷ codes "source"
    ∷ codes "source_ip"
    ∷ codes "source_port"
    ∷ codes "src_ip"
    ∷ codes "src_port"
    ∷ codes "time"
    ∷ codes "timestamp"
    ∷ codes "user"
    ∷ codes "username"
    ∷ codes "vendor"
    ∷ []

-- `isinstance(value, dict | list)`.
abbrev pub is_container : Option Value → Bool
is_container none = false
is_container (some (arr vs)) = true
is_container (some (obj fs)) = true
is_container (some _) = false

unfoldable pub malformed : Fields → List Text
malformed item = keep (λ key. is_container (get item key)) mapped_fields

-- `", ".join(names)`.
abbrev pub joined : List Text → Text
joined [] = []
joined (t ∷ []) = t
joined (t ∷ u ∷ ts) = t ++ (codes ", " ++ joined (u ∷ ts))

-- `item.get(k1, item.get(k2, ...))`: the value of the first key that there is.
abbrev pub first_of : Fields → List Text → Option Value
first_of item [] = none
first_of item (key ∷ keys) =
    let rest = first_of item keys in if has item key then get item key else rest

-- `{key: value for key, value in item.items() if key not in MAPPED_FIELDS}`.
unfoldable pub unmapped_fields : Fields → Fields
unmapped_fields end = end
unmapped_fields (field k v rest) =
    let kept = unmapped_fields rest in if is_in k mapped_fields then kept else field k v kept

abbrev pub severity_names : List (Text × Text)
severity_names =
    (codes "info", codes "Informational")
    ∷ (codes "information", codes "Informational")
    ∷ (codes "warning", codes "Medium")
    ∷ (codes "warn", codes "Medium")
    ∷ (codes "error", codes "High")
    ∷ (codes "fatal", codes "Critical")
    ∷ (codes "emergency", codes "Critical")
    ∷ []

abbrev pub denials : List Text
denials = codes "login_failure" ∷ codes "denied" ∷ codes "blocked" ∷ codes "failed_login" ∷ []

abbrev pub api_activities : List (Text × (ℕ × Text))
api_activities =
    (codes "create", (1, codes "Create"))
    ∷ (codes "read", (2, codes "Read"))
    ∷ (codes "update", (3, codes "Update"))
    ∷ (codes "delete", (4, codes "Delete"))
    ∷ []

abbrev pub spaces_underscored : Text → Text
spaces_underscored = map (λ c. if c == b' ' then b'_' else c)

abbrev pub is_some {ℓ} : {A : Type ℓ} → Option A → Bool
is_some none = false
is_some (some a) = true

-- `v or w`.
abbrev pub truthy_or : Option Value → Option Value → Option Value
truthy_or none w = w
truthy_or (some v) w = if truthy v then some v else w

abbrev pub is_truthy : Option Value → Bool
is_truthy none = false
is_truthy (some v) = truthy v

-- `dumps` is `json.dumps` with `default=str`.
module _ (lib : Library) (dumps : Value → Text) where
  -- `str(value or t)`.
  abbrev pub text_or : Text → Option Value → Text
  text_or t none = t
  text_or t (some v) = if truthy v then show_value lib v else t

  -- `str(item.get(k1, item.get(k2, ..., t)))`.
  abbrev pub text_of_first : Fields → List Text → Text → Text
  text_of_first item keys t = show_value lib (or_else (str t) (first_of item keys))

  abbrev pub severity_of : Text → Text
  severity_of raw = or_else (lib.title raw) (lookup raw severity_names)

  abbrev pub action_of : Fields → Text
  action_of item =
      text_of_first item (codes "event_type" ∷ codes "action" ∷ codes "operation" ∷ [])
        (codes "Observed")

  abbrev pub is_denied : Text → Bool
  is_denied action = is_in (spaces_underscored (to_lower lib.chars action)) denials

  abbrev pub status_of : Option Authentication → Bool → Text
  status_of none denied = if denied then codes "Failure" else codes "Success"
  status_of (some a) denied = a.outcome

  abbrev pub server_of : Fields → Text
  server_of item = text_or [] (get item (codes "server"))

  -- The canonical text of the address, or nothing.
  abbrev pub server_ip : Text → Text
  server_ip [] = []
  server_ip (c ∷ server) = or_else [] (lib.ip_address (c ∷ server))

  abbrev pub message_or : Fields → Option Value → Value
  message_or item none = str (take 2000 (dumps (obj item)))
  message_or item (some null) = str (take 2000 (dumps (obj item)))
  message_or item (some v) = v

  abbrev pub message_of : Fields → Value
  message_of item = message_or item (first_of item (codes "message" ∷ codes "event" ∷ []))

  abbrev pub activity_of : Option Authentication → Text → ℕ × Text
  activity_of (some a) action = (a.activity, a.name)
  activity_of none action =
      or_else (99, if is_nil action then codes "Other" else action)
        (lookup (to_lower lib.chars action) api_activities)

  abbrev pub service_of : Fields → Option Value
  service_of item = truthy_or (get item (codes "service")) (get item (codes "app"))

  unfoldable pub metadata_fields : Bool → Fields → Fields
  metadata_fields is_auth item =
      let kept = unmapped_fields item in
      if is_auth && is_truthy (service_of item)
      then put kept (codes "service") (str (text_or [] (service_of item)))
      else kept

  abbrev pub value_of_first : Fields → List Text → Value → Option Value
  value_of_first item keys v = some (or_else v (first_of item keys))

  abbrev pub failed_status : Text → Text
  failed_status status = if text_eq status (codes "Failure") then codes "Failed" else status

  -- The record, once it is known whether the action is one of authentication.
  unfoldable pub record_of : Fields → Option Authentication → Parsed
  unfolding metadata_fields
  record_of item auth =
      let action = action_of item in
      let denied = is_denied action in
      let is_auth = is_some auth in
      let status = status_of auth denied in
      let server = server_of item in
      let activity = activity_of auth action in
      let times = codes "timestamp" ∷ codes "@timestamp" ∷ codes "time" ∷ [] in
      record (unparsed []) {
        is_parsed = true;
        timestamp = text_of_first item times [];
        timestamp_missing_ok = not (any (has item) times);
        hostname = text_or [] (
            value_of_first item (codes "host" ∷ codes "hostname" ∷ codes "source" ∷ [])
              (str server));
        user = text_or [] (first_of item (codes "user" ∷ codes "username" ∷ codes "actor" ∷ []));
        message = message_of item;
        severity = some (
            severity_of (
              to_lower lib.chars (
                text_of_first item (codes "severity" ∷ codes "level" ∷ codes "risk" ∷ [])
                  (codes "Informational"))));
        action = some (if denied && is_auth then codes "Login Failure" else action);
        disposition = some (failed_status status);
        status = some status;
        src_endpoint_ip =
            value_of_first item
              (codes "src_ip" ∷ codes "source_ip" ∷ codes "client_ip" ∷ codes "ip" ∷ []) (str []);
        src_endpoint_port =
            value_of_first item (codes "src_port" ∷ codes "source_port" ∷ codes "client_port" ∷ [])
              null;
        dst_endpoint_ip =
            value_of_first item (codes "dst_ip" ∷ codes "destination_ip" ∷ [])
              (str (server_ip server));
        dst_endpoint_port =
            value_of_first item
              (codes "dst_port" ∷ codes "destination_port" ∷ codes "server_port" ∷ []) null;
        device_vendor = text_or (codes "Application") (get item (codes "vendor"));
        device_product =
            some
              (text_or (codes "application") (first_of item (codes "service" ∷ codes "app" ∷ [])));
        metadata = metadata_fields is_auth item;
        ocsf_class = some (if is_auth then codes "Authentication" else codes "API Activity");
        class_uid = if is_auth then 3002 else 6003;
        category = some (
            if is_auth then codes "Identity & Access Management" else codes "Application Activity");
        category_uid = if is_auth then 3 else 6;
        activity_id = activity.0;
        activity_name = some activity.1;
      }

  abbrev pub malformed_record : Fields → List Text → Parsed
  malformed_record item names =
      record (unparsed (codes "Expected scalar fields: " ++ joined names)) { metadata = item }

  unfoldable pub structured_record : Fields → Result ParseError Parsed
  unfolding record_of malformed
  structured_record item =
      let authentic = authentication_action lib (action_of item) item in
      let named = malformed item in
      if is_nil named
      then (authentic >>= λ auth. ok (record_of item auth))
      else ok (malformed_record item named)
