-- ===== src/Ocsf/Context.antt =====
-- ulpf/ocsf.py: the projections for one class.
use ocsf_forge.Prelude.{Bool, true, false, Option, none, some, List, [], ◌∷◌, ◌==◌, if◌then◌else◌}
use ocsf_forge.Text.{Text, codes}
use ocsf_forge.Json.{
  Value, null, int, negative, str, obj, Fields, end, field, fields, get, put, remove,
}
use ocsf_forge.Models.{NormalizedEvent}

abbrev pub pick : Text → Option Value → Fields → Fields
pick name none rest = rest
pick name (some v) rest = field name v rest

-- `{name: record.pop(name) for name in names if name in record}`: the dict, and what is left.
unfoldable pub picked : List Text → Fields → Fields
picked [] record_ = end
picked (name ∷ names) record_ = pick name (get record_ name) (picked names (remove record_ name))

unfoldable pub left_after : List Text → Fields → Fields
left_after [] record_ = record_
left_after (name ∷ names) record_ = left_after names (remove record_ name)

-- `record["unmapped"]`, which `to_ocsf_dict` sets to a dict.
abbrev pub dict_of : Option Value → Fields
dict_of (some (obj d)) = d
dict_of _ = end

abbrev pub has : Fields → Text → Bool
has d key = elim (get d key) [ none ↦ false | some v ↦ true ]

abbrev pub no_fields : Fields → Bool
no_fields end = true
no_fields (field k v d) = false

abbrev pub kept_original : Fields → Fields
kept_original original =
    if has original (codes "normalized_context")
    then fields ((codes "source_fields", obj original) ∷ [])
    else original

unfoldable pub retain_context : Fields → List Text → Fields
unfolding picked left_after
retain_context record_ names =
    let context = picked names record_ in
    let left = left_after names record_ in
    if no_fields context
    then left
    else put left (codes "unmapped") (
        obj (
          put (kept_original (dict_of (get left (codes "unmapped")))) (codes "normalized_context")
            (obj context)))

-- `event.metadata or {}`.
abbrev pub metadata_of : Option Fields → Fields
metadata_of none = end
metadata_of (some d) = d

-- `type(v) is int`.
abbrev pub is_int : Option Value → Bool
is_int (some (int n)) = true
is_int (some (negative n)) = true
is_int _ = false

abbrev pub value_or_null : Option Value → Value
value_or_null none = null
value_or_null (some v) = v

abbrev pub with_user : Text → Fields → Fields
with_user [] record_ = record_
with_user (c ∷ t) record_ =
    remove (put record_ (codes "user") (obj (fields ((codes "name", str (c ∷ t)) ∷ []))))
      (codes "actor")

abbrev pub with_service : Option Value → Fields → Fields
with_service (some (str (c ∷ t))) record_ =
    put record_ (codes "service") (obj (fields ((codes "name", str (c ∷ t)) ∷ [])))
with_service _ record_ = record_

abbrev pub body_length : Option Value → List (Text × Value)
body_length v = if is_int v then (codes "body_length", value_or_null v) ∷ [] else []

abbrev pub with_response : Fields → Fields → Fields
with_response d record_ =
    if is_int (get d (codes "http_status"))
    then put record_ (codes "http_response") (
        obj (
          fields (
            (codes "code", value_or_null (get d (codes "http_status")))
            ∷ body_length (get d (codes "bytes")))))
    else record_

unfoldable pub project_class : NormalizedEvent → Fields → Fields
unfolding retain_context
project_class e record_ =
    if e.class_uid == 2004
    then retain_context record_ (codes "src_endpoint" ∷ codes "dst_endpoint" ∷ codes "actor" ∷ [])
    else if e.class_uid == 3002
    then with_service (get (metadata_of e.metadata) (codes "service")) (with_user e.user record_)
    else if e.class_uid == 4002
    then with_response (metadata_of e.metadata) (retain_context record_ (codes "actor" ∷ []))
    else record_
