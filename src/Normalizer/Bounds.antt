-- ===== src/Normalizer/Bounds.antt =====
-- What `OCSFNormalizer.normalize` of ulpf/normalizer.py guarantees of every event.
use ocsf_forge.Prelude.{
  ℕ, ◌≤◌, ◌≡◌, ◌≢◌, refl, inl, inr, Bool, true, false, Option, none, some, [], ◌∷◌, length,
  length-take-le, arith, leb, Bool-cases, if◌then◌else◌,
}
use ocsf_forge.Text.{Text, codes}
use ocsf_forge.Json.{Value}
use ocsf_forge.Models.{NormalizedEvent}
use ocsf_forge.Parsing.Parsed.{Parsed}
use ocsf_forge.Normalizer.{Source, fallback, show_value, succeeds, notes, normalize}
use ocsf_forge.Normalizer.Fields.{
  Library, Number, at_least_zero, below_zero, is_nothing, int_of, port, checked_port,
}

module _ (lib : Library) where
  IsWord : Option ℕ → Type 0
  IsWord o = (n : ℕ) → o ≡ some n → n ≤ 65535

  checked_port-IsWord :
      (o : Option Number) (v : Value) (label : Text) → IsWord (checked_port lib o v label).0
  unfolding IsWord
  checked_port-IsWord none v label = λ n h. cc
  checked_port-IsWord (some below_zero) v label = λ n h. cc
  checked_port-IsWord (some (at_least_zero m)) v label = elim (Bool-cases (leb m 65535)) [
    | inl fits ↦ rw fits (λ n h. ground (arith, h, fits))
    | inr over ↦ rw over (λ n h. cc)
  ]

  port-IsWord : (o : Option Value) (label : Text) → IsWord (port lib o label).0
  unfolding port IsWord
  port-IsWord none label = λ n h. cc
  port-IsWord (some v) label = elim (Bool-cases (is_nothing (some v))) [
    | inl missing ↦ rw missing (λ n h. cc)
    | inr given ↦ rw given (checked_port-IsWord (int_of lib v) v label)
  ]

  explained :
      (success : Bool) (t : Text)
      → success ≡ false
      → fallback t (if success then [] else codes "Format not recognized or extraction incomplete")
        ≢ []
  explained true t h k = cc
  explained false [] h k = cc
  explained false (c ∷ t) h k = cc

  -- Ports of sixteen bits, a message of at most 2000 characters, the payload with its hash, and a
  -- note on each event that does not count as parsed.
  pub record IsBounded (raw_line : Text) (e : NormalizedEvent) : Type 0 where
    pub src_port : (n : ℕ) → e.src_endpoint_port ≡ some n → n ≤ 65535
    pub dst_port : (n : ℕ) → e.dst_endpoint_port ≡ some n → n ≤ 65535
    pub message : length e.message ≤ 2000
    pub payload : e.original_raw_payload ≡ raw_line
    pub payload_hash : e.raw_payload_hash ≡ lib.sha256 raw_line
    pub noted : e.parse_success ≡ false → e.parse_notes ≢ []

  -- Every event has ports of sixteen bits, a message of at most 2000 characters, the payload
  -- with its hash, and, if it does not count as parsed, a note.
  pub normalize-IsBounded :
      (raw_line fmt : Text) (p : Parsed) (source : Source)
      → IsBounded raw_line (normalize lib raw_line fmt p source)
  unfolding normalize IsWord
  normalize-IsBounded raw_line fmt p source = record {
    src_port = port-IsWord p.src_endpoint_port (codes "source");
    dst_port = port-IsWord p.dst_endpoint_port (codes "destination");
    message = length-take-le 2000 (show_value lib p.message);
    payload = refl;
    payload_hash = refl;
    noted = explained (succeeds lib p source) (notes lib p source);
  }
