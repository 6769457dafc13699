-- ===== src/Normalizer/Accepted.antt =====
-- Which records `OCSFNormalizer.normalize` of ulpf/normalizer.py accepts, and what its events are.
use ocsf_forge.Prelude.{
  ℕ, ◌+◌, ◌*◌, ◌≤◌, ◌<◌, ◌≡◌, refl, ◌↔◌, ◌⊎◌, inl, inr, Bool, true, false, ◌&&◌, Option, none, some,
  List, [], ◌∷◌, ◌++◌, all, arith, ltb, leb, ◌==◌, ltb→lt, lt→ltb, Bool-cases, Option-cases, is_nil,
}
use ocsf_forge.Text.{Text, codes}
use ocsf_forge.Json.{Value}
use ocsf_forge.Models.{NormalizedEvent, severity_ids}
use ocsf_forge.Parsing.Parsed.{Parsed}
use ocsf_forge.Normalizer.{
  Source, class_categories, category_of, get_id, nonempty, or_else, category_errors,
  severity_errors, severity_of, time_of, validation_errors, succeeds, normalize,
}
use ocsf_forge.Normalizer.Fields.{
  Library, Moment, Parsing, aware, naive, refused, Number, at_least_zero, below_zero, TimeReading,
  is_nothing, spell_zulu, show_value, int_of, port, checked_port, ip, ip_of_value, timestamp_of,
  reading_of, numeric_reading,
}

-- An accepted event has a class of the table in its category, and ids made from them.
pub record IsClassified (e : NormalizedEvent) : Type 0 where
  pub class_category : category_of class_categories e.class_uid ≡ some e.category_uid
  pub activity : 0 < e.activity_id
  pub type : e.type_uid ≡ e.class_uid * 100 + e.activity_id
  pub severity : get_id severity_ids e.severity ≡ some e.severity_id
  pub time : (u : Text) × (e.timestamp ≡ some u)

module _ (lib : Library) where
  -- A port that is missing, or a whole number of sixteen bits.
  unfoldable pub IsPort : Option Value → Type 0
  IsPort o =
      (is_nothing o ≡ true)
      ⊎ ((v : Value) × (n : ℕ) × (o ≡ some v)
          × (int_of lib v ≡ some (at_least_zero n))
          × (n ≤ 65535))

  -- An address that is missing, or that `ip_address` reads.
  unfoldable pub IsIp : Option Value → Type 0
  IsIp o =
      (is_nothing o ≡ true)
      ⊎ ((v : Value) × (t : Text) × (o ≡ some v) × (lib.ip_address (show_value lib v) ≡ some t))

  checked_port_iff :
      (o : Option Number) (v : Value) (label : Text)
      → ((checked_port lib o v label).1 ≡ [])
        ↔ ((n : ℕ) × (o ≡ some (at_least_zero n)) × (n ≤ 65535))
  checked_port_iff (some (at_least_zero n)) v label = elim (Bool-cases (leb n 65535)) [
    | inl fits ↦ rw fits ((λ _. (n, refl, ground arith)), λ _. refl)
    | inr over ↦ rw over ((λ h. cc), λ (m, e, le). ground arith)
  ]
  checked_port_iff (some below_zero) v label = ((λ h. cc), λ (m, e, le). cc)
  checked_port_iff none v label = ((λ h. cc), λ (m, e, le). cc)

  port_iff : (o : Option Value) (label : Text) → ((port lib o label).1 ≡ []) ↔ IsPort o
  unfolding port IsPort
  port_iff none label = ((λ _. inl refl), λ _. refl)
  port_iff (some v) label = elim (Bool-cases (is_nothing (some v))) [
    | inl missing ↦ rw missing ((λ _. inl refl), λ _. refl)
    | inr given ↦ rw given (
      (λ h.
          let found = (checked_port_iff (int_of lib v) v label).0 h in
          inr (v, found.0, refl, found.1, found.2)),
      λ k. elim k [
        | inl e ↦ absurd cc
        | inr (u, n, e, k, le) ↦ (checked_port_iff (int_of lib v) v label).1 (n, cc, le)
      ],
    )
  ]

  ip_iff : (o : Option Value) (label : Text) → ((ip lib o label).1 ≡ []) ↔ IsIp o
  unfolding ip IsIp
  ip_iff none label = ((λ _. inl refl), λ _. refl)
  ip_iff (some v) label = elim (Bool-cases (is_nothing (some v))) [
    | inl missing ↦ rw missing ((λ _. inl refl), λ _. refl)
    | inr given ↦ rw given (elim (Option-cases (lib.ip_address (show_value lib v))) [
      | inl fails ↦
          rw (fails, ip_of_value)
            ((λ h. absurd cc), λ k. elim k [ inl e ↦ absurd cc | inr (u, t, e, k) ↦ absurd cc ])
      | inr (t, reads) ↦ rw (reads, ip_of_value) ((λ _. inr (v, t, refl, reads)), λ _. refl)
    ])
  ]

  all_four_iff :
      (a b c d : Bool)
      → (a && b && c && d ≡ true) ↔ ((a ≡ true) × (b ≡ true) × (c ≡ true) × (d ≡ true))
  all_four_iff a b c d = ground arith

  or_else-some : (o : Option ℕ) (n : ℕ) → o ≡ some n → o ≡ some (or_else o 0)
  or_else-some none n h = cc
  or_else-some (some m) n h = refl

  -- Either a time or an error, not both.
  IsSound : TimeReading → Type 0
  IsSound r = (r.error ≡ []) ↔ ((u : Text) × (r.timestamp ≡ some u))

  timestamp_of-IsSound :
      (t : Text) (observed : Moment) (missing_ok : Bool)
      → IsSound (timestamp_of lib t observed missing_ok)
  unfolding timestamp_of IsSound
  timestamp_of-IsSound [] observed true = ((λ _. (observed.iso, refl)), λ _. refl)
  timestamp_of-IsSound [] observed false = ((λ h. cc), λ (u, e). cc)
  timestamp_of-IsSound (c ∷ t) observed missing_ok =
      elim (Bool-cases (all lib.chars.is_digit (c ∷ t))) [
        | inl digits ↦ rw digits (numeric (lib.from_timestamp (c ∷ t)))
        | inr other ↦ rw other (iso (lib.from_iso (spell_zulu (c ∷ t))))
      ]
    where
      numeric : (o : Option Moment) → IsSound (numeric_reading lib (c ∷ t) o)
      numeric none = ((λ h. cc), λ (u, e). cc)
      numeric (some m) = ((λ _. (m.iso, refl)), λ _. refl)

      iso : (r : Parsing) → IsSound (reading_of lib (c ∷ t) r)
      iso (aware m) = ((λ _. (m.iso, refl)), λ _. refl)
      iso naive = ((λ h. cc), λ (u, e). cc)
      iso refused = ((λ h. cc), λ (u, e). cc)

  nonempty-nil :
      (t : Text) (ts : List Text) → (nonempty (t ∷ ts) ≡ []) ↔ ((t ≡ []) × (nonempty ts ≡ []))
  nonempty-nil [] ts = ((λ h. (refl, h)), λ (_, h). h)
  nonempty-nil (c ∷ t) ts = ((λ h. cc), λ (e, _). cc)

  append-nil_iff : (xs ys : List Text) → (xs ++ ys ≡ []) ↔ ((xs ≡ []) × (ys ≡ []))
  append-nil_iff [] ys = ((λ h. (refl, h)), λ (_, h). h)
  append-nil_iff (x ∷ xs) ys = ((λ h. cc), λ (e, _). cc)

  category_errors_iff :
      (p : Parsed)
      → p.is_parsed ≡ true
      → (category_errors lib p ≡ [])
        ↔ (category_of class_categories p.class_uid ≡ some p.category_uid)
  category_errors_iff p h = rw h (elim (Option-cases (category_of class_categories p.class_uid)) [
    | inl unsupported ↦ rw unsupported ((λ k. cc), λ k. cc)
    | inr (n, supported) ↦ rw supported (elim (Bool-cases (p.category_uid == n)) [
      | inl same ↦ rw same ((λ _. ground (arith, same)), λ _. refl)
      | inr differs ↦ rw differs ((λ k. cc), λ k. absurd (ground (arith, differs, k)))
    ])
  ])

  severity_errors_iff :
      (severity : Text)
      → (severity_errors severity ≡ []) ↔ ((n : ℕ) × (get_id severity_ids severity ≡ some n))
  severity_errors_iff severity = elim (Option-cases (get_id severity_ids severity)) [
    | inl unknown ↦ rw (unknown, severity_errors) ((λ k. cc), λ (n, k). cc)
    | inr (n, known) ↦ rw (known, severity_errors) ((λ _. (n, refl)), λ _. refl)
  ]

  -- What a record must have to become an event that counts as parsed.
  pub record IsAcceptable (p : Parsed) (source : Source) : Type 0 where
    pub parsed : p.is_parsed ≡ true
    pub dated : (u : Text) × ((time_of lib p source).timestamp ≡ some u)
    pub src_ip : IsIp p.src_endpoint_ip
    pub dst_ip : IsIp p.dst_endpoint_ip
    pub src_port : IsPort p.src_endpoint_port
    pub dst_port : IsPort p.dst_endpoint_port
    pub supported : category_of class_categories p.class_uid ≡ some p.category_uid
    pub graded : (n : ℕ) × (get_id severity_ids (severity_of p) ≡ some n)
    pub active : 0 < p.activity_id

  supported-positive :
      (uid category : ℕ) → category_of class_categories uid ≡ some category → 0 < uid
  supported-positive ℕ.zero category h = cc
  supported-positive (ℕ.suc n) category h = omega arith

  is_nil_iff : (xs : List Text) → (is_nil xs ≡ true) ↔ (xs ≡ [])
  is_nil_iff [] = ((λ _. refl), λ _. refl)
  is_nil_iff (x ∷ xs) = ((λ h. cc), λ h. cc)

  -- `_timestamp`, `_ip` and `_port` find nothing wrong.
  field_errors-nil :
      (p : Parsed) (source : Source)
      → (nonempty (
            (time_of lib p source).error
            ∷ (ip lib p.src_endpoint_ip (codes "source")).1
            ∷ (ip lib p.dst_endpoint_ip (codes "destination")).1
            ∷ (port lib p.src_endpoint_port (codes "source")).1
            ∷ (port lib p.dst_endpoint_port (codes "destination")).1
            ∷ [])
          ≡ [])
        ↔ (((u : Text) × ((time_of lib p source).timestamp ≡ some u))
            × IsIp p.src_endpoint_ip
            × IsIp p.dst_endpoint_ip
            × IsPort p.src_endpoint_port
            × IsPort p.dst_endpoint_port)
  unfolding IsSound
  field_errors-nil p source = (
    (λ h.
        let (h1, k1) = (nonempty-nil _ _).0 h in
        let (h2, k2) = (nonempty-nil _ _).0 k1 in
        let (h3, k3) = (nonempty-nil _ _).0 k2 in
        let (h4, k4) = (nonempty-nil _ _).0 k3 in
        let (h5, _) = (nonempty-nil _ _).0 k4 in
        (
          (timestamp_of-IsSound p.timestamp source.observed p.timestamp_missing_ok).0 h1,
          (ip_iff _ _).0 h2,
          (ip_iff _ _).0 h3,
          (port_iff _ _).0 h4,
          (port_iff _ _).0 h5,
        )),
    λ (dated, src_ip, dst_ip, src_port, dst_port). (nonempty-nil _ _).1 (
      (timestamp_of-IsSound p.timestamp source.observed p.timestamp_missing_ok).1 dated,
      (nonempty-nil _ _).1 (
        (ip_iff _ _).1 src_ip,
        (nonempty-nil _ _).1 (
          (ip_iff _ _).1 dst_ip,
          (nonempty-nil _ _).1
              ((port_iff _ _).1 src_port, (nonempty-nil _ _).1 ((port_iff _ _).1 dst_port, refl)),
        ),
      ),
    ),
  )

  all_four :
      (p : Parsed) (source : Source)
      → (succeeds lib p source ≡ true) ↔ (
          (p.is_parsed ≡ true)
          × (is_nil (validation_errors lib p source) ≡ true)
          × (ltb 0 p.class_uid ≡ true)
          × (ltb 0 p.activity_id ≡ true))
  unfolding succeeds
  all_four p source =
      all_four_iff p.is_parsed (is_nil (validation_errors lib p source)) (ltb 0 p.class_uid)
        (ltb 0 p.activity_id)

  accepts : (p : Parsed) (source : Source) → (succeeds lib p source ≡ true) ↔ IsAcceptable p source
  unfolding validation_errors
  accepts p source = (
    (λ h.
        let (parsed, quiet, _, active) = (all_four p source).0 h in
        let (fields, others) = (append-nil_iff _ _).0 ((is_nil_iff _).0 quiet) in
        let (dated, src_ip, dst_ip, src_port, dst_port) = (field_errors-nil p source).0 fields in
        let (category, severity) = (append-nil_iff _ _).0 others in
        record {
          parsed = parsed;
          dated = dated;
          src_ip = src_ip;
          dst_ip = dst_ip;
          src_port = src_port;
          dst_port = dst_port;
          supported = (category_errors_iff p parsed).0 category;
          graded = (severity_errors_iff (severity_of p)).0 severity;
          active = ltb→lt _ _ active;
        }),
    λ a.
        let quiet : validation_errors lib p source ≡ [] = (append-nil_iff _ _).1 (
          (field_errors-nil p source).1 (a.dated, a.src_ip, a.dst_ip, a.src_port, a.dst_port),
          (append-nil_iff _ _).1 (
            (category_errors_iff p a.parsed).1 a.supported,
            (severity_errors_iff (severity_of p)).1 a.graded,
          ),
        ) in
        (all_four p source).1 (
          a.parsed,
          (is_nil_iff _).1 quiet,
          lt→ltb _ _ (supported-positive p.class_uid p.category_uid a.supported),
          lt→ltb _ _ a.active,
        ),
  )

  module _ (raw_line fmt : Text) (p : Parsed) (source : Source) where
    -- An event counts as parsed exactly if its record was parsed, has a readable time, addresses
    -- and ports that are missing or valid, a supported class in its category, a known severity
    -- and a positive activity.
    pub normalize-IsAcceptable :
        ((normalize lib raw_line fmt p source).parse_success ≡ true) ↔ IsAcceptable p source
    unfolding normalize
    normalize-IsAcceptable = accepts p source

    -- An event that counts as parsed has a class of the table and the category of this class, a
    -- positive activity, the type made of both, the id of its severity, and a time.
    pub normalize-IsClassified :
        (normalize lib raw_line fmt p source).parse_success ≡ true
        → IsClassified (normalize lib raw_line fmt p source)
    unfolding normalize
    normalize-IsClassified h =
        let a = normalize-IsAcceptable.0 h in
        record {
          class_category = a.supported;
          activity = a.active;
          type =
              rw
                (
                  lt→ltb _ _ (supported-positive p.class_uid p.category_uid a.supported),
                  lt→ltb _ _ a.active,
                )
                refl;
          severity = or_else-some (get_id severity_ids (severity_of p)) a.graded.0 a.graded.1;
          time = a.dated;
        }
