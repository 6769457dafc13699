-- ===== src/Parsing/Mapped.antt =====
-- The records of `structured_record` of ulpf/parsing/structured.py.
use mathlib.Core.Path.{subst}
use ocsf_forge.Prelude.{
  ℕ, ◌<◌, ◌≡◌, refl, ap, ◌∙◌, inl, inr, Bool, true, false, ◌&&◌, Option, none, some, List, [], ◌∷◌,
  keep, All, is_nil, Result, ok, raise, Bool-cases, Yields, Yields-ok, Yields-then, arith, split_if,
  some-injective, if◌then◌else◌,
}
use ocsf_forge.Text.{Text, codes, text_eq, text_eq_iff, is_in, strip, to_lower}
use ocsf_forge.Json.{Value, str, Fields, end, field, get}
use ocsf_forge.Json.Laws.{get-put}
use ocsf_forge.Normalizer.{class_categories, category_of}
use ocsf_forge.Normalizer.Fields.{Library}
use ocsf_forge.Parsing.Parsed.{Parsed}
use ocsf_forge.Parsing.Registry.{ParseError}
use ocsf_forge.Parsing.Authentication.{
  Authentication, auth_actions, lookup, or_else, underscored, known_outcomes, agreed, settled,
  classified, authentication_action,
}
use ocsf_forge.Parsing.Structured.{
  mapped_fields, is_container, malformed, unmapped_fields, is_some, is_truthy, service_of, text_or,
  metadata_fields, activity_of, action_of, api_activities, record_of, malformed_record,
  structured_record,
}

-- What a table finds has what its entries have.
lookup-All {ℓ κ} :
    {A : Type ℓ} (P : A → Type κ) (key : Text) (table : List (Text × A))
    → All (λ entry. P entry.1) table
    → (a : A) → lookup key table ≡ some a
    → P a
lookup-All P key [] h a e = cc
lookup-All P key ((k, v) ∷ table) (p, ps) a e =
    split_if (text_eq key k) e (λ _ is. subst P (some-injective is) p)
      (λ _ later. lookup-All P key table ps a later)

keep-nil {ℓ} :
    {A : Type ℓ} (test : A → Bool) (xs : List A)
    → is_nil (keep test xs) ≡ true
    → All (λ x. test x ≡ false) xs
keep-nil test [] h = tt
keep-nil test (x ∷ xs) h = elim (Bool-cases (test x)) [
  | inl passes ↦ absurd (ground (arith, passes, h))
  | inr fails ↦ (fails, keep-nil test xs (ground (arith, fails, h)))
]

-- The records that are parsed.
pub record IsMapped (item : Fields) (p : Parsed) : Type 0 where
  pub scalar : All (λ key. is_container (get item key) ≡ false) mapped_fields
  pub class_category : category_of class_categories p.class_uid ≡ some p.category_uid
  pub activity : 0 < p.activity_id
  pub kept : (j : Text) → is_in j mapped_fields ≡ false → get p.metadata j ≡ get item j

pub differ :
    (j k : Text) (names : List Text)
    → is_in j names ≡ false
    → is_in k names ≡ true
    → text_eq j k ≡ false
differ j k names no_ yes_ = elim (Bool-cases (text_eq j k)) [
  | inl same ↦ absurd (clash j k ((text_eq_iff j k).0 same) no_ yes_)
  | inr other ↦ other
]
  where
    clash : (j k : Text) → j ≡ k → is_in j names ≡ false → is_in k names ≡ true → ⊥
    clash j k same no_ yes_ = absurd cc

service-mapped : is_in (codes "service") mapped_fields ≡ true
unfolding mapped_fields
service-mapped = refl

get-unmapped_fields :
    (item : Fields) (j : Text)
    → is_in j mapped_fields ≡ false
    → get (unmapped_fields item) j ≡ get item j
unfolding unmapped_fields
get-unmapped_fields end j h = refl
get-unmapped_fields (field k v rest) j h = elim (Bool-cases (is_in k mapped_fields)) [
  | inl mapped ↦ rw (mapped, differ j k mapped_fields h mapped) (get-unmapped_fields rest j h)
  | inr free ↦ rw free (ap (λ o. if text_eq j k then some v else o) (get-unmapped_fields rest j h))
]

module _ (lib : Library) (dumps : Value → Text) where
  get-metadata_fields :
      (is_auth : Bool) (item : Fields) (j : Text)
      → is_in j mapped_fields ≡ false
      → get (metadata_fields lib dumps is_auth item) j ≡ get item j
  unfolding metadata_fields
  get-metadata_fields is_auth item j h =
      elim (Bool-cases (is_auth && is_truthy (service_of lib dumps item))) [
        | inl served ↦ rw served (
            get-put (unmapped_fields item) (codes "service")
              (str (text_or lib dumps [] (service_of lib dumps item))) j
            ∙ rw (differ j (codes "service") mapped_fields h service-mapped)
                (get-unmapped_fields item j h))
        | inr bare ↦ rw bare (get-unmapped_fields item j h)
      ]

  -- The activities of the tables are positive.
  abbrev Active : Option Authentication → Type 0
  Active o = (a : Authentication) → o ≡ some a → 0 < a.activity

  settled-Active :
      (a : Authentication) (r : Result ParseError Text)
      → 0 < a.activity
      → Yields Active (settled a r)
  settled-Active a (raise e) h = record { yields = λ o k. absurd cc }
  settled-Active a (ok outcome) h =
      Yields-ok Active (some (record a { outcome = outcome }))
        (λ b e. subst (λ (x : Authentication). 0 < x.activity) (some-injective e) h)

  classified-Active :
      (o : Option Authentication) (item : Fields) → Active o → Yields Active (classified lib o item)
  classified-Active none item h = Yields-ok Active none (λ a e. absurd cc)
  classified-Active (some a) item h =
      settled-Active a (agreed (known_outcomes lib a.outcome item)) (h a refl)

  authentication_action-Active :
      (action : Text) (item : Fields) → Yields Active (authentication_action lib action item)
  unfolding authentication_action auth_actions
  authentication_action-Active action item = classified-Active _ item (
      lookup-All (λ (a : Authentication). 0 < a.activity)
        (underscored lib (to_lower lib.chars (strip lib.chars action))) auth_actions (omega arith))

  activity_of-positive :
      (auth : Option Authentication) (action : Text)
      → Active auth
      → 0 < (activity_of lib dumps auth action).0
  activity_of-positive (some a) action h = h a refl
  activity_of-positive none action h = from (lookup (to_lower lib.chars action) api_activities) (
      lookup-All (λ (a : ℕ × Text). 0 < a.0) (to_lower lib.chars action) api_activities
        (omega arith))
    where
      from :
          (o : Option (ℕ × Text))
          → ((a : ℕ × Text) → o ≡ some a → 0 < a.0)
          → 0 < (or_else (99, if is_nil action then codes "Other" else action) o).0
      from none h = omega arith
      from (some a) h = h a refl

  record_of-IsMapped :
      (item : Fields) (auth : Option Authentication)
      → is_nil (malformed item) ≡ true
      → Active auth
      → IsMapped item (record_of lib dumps item auth)
  unfolding record_of malformed
  record_of-IsMapped item auth scalar active = record {
    scalar = keep-nil (λ key. is_container (get item key)) mapped_fields scalar;
    class_category = in_table auth;
    activity = activity_of-positive auth (action_of lib dumps item) active;
    kept = get-metadata_fields (is_some auth) item;
  }
    where
      in_table :
          (o : Option Authentication)
          → category_of class_categories (if is_some o then 3002 else 6003)
            ≡ some (if is_some o then 3 else 6)
      in_table none = refl
      in_table (some a) = refl

  abbrev Mapped : Fields → Parsed → Type 0
  Mapped item p = p.is_parsed ≡ true → IsMapped item p

  structured_record-Mapped :
      (item : Fields) → Yields (Mapped item) (structured_record lib dumps item)
  unfolding structured_record
  structured_record-Mapped item = elim (Bool-cases (is_nil (malformed item))) [
    | inl scalar ↦ rw scalar (
        Yields-then (authentication_action lib (action_of lib dumps item) item) (λ auth e.
          Yields-ok (Mapped item) (record_of lib dumps item auth) (λ _.
            record_of-IsMapped item auth scalar
              ((authentication_action-Active (action_of lib dumps item) item).yields auth e))))
    | inr nested ↦ rw nested (
        Yields-ok (Mapped item) (malformed_record lib dumps item (malformed item)) (λ e. absurd cc))
  ]

  -- If `structured_record` returns a record that is parsed, none of the mapped fields of its item is
  -- a dict or a list, its class is one of the table, in its category, with a positive activity, and
  -- each field of the item that is not mapped is in its metadata.
  pub structured_record-IsMapped :
      (item : Fields) (p : Parsed)
      → structured_record lib dumps item ≡ ok p
      → p.is_parsed ≡ true
      → IsMapped item p
  structured_record-IsMapped item p h = (structured_record-Mapped item).yields p h
