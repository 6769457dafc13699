-- ===== src/Parsing/Choice.antt =====
-- Which parser `ParserRegistry.parse` of ulpf/parsing/registry.py uses, and when it raises.
use mathlib.Core.Path.{subst}
use mathlib.Core.List.{append_assoc, append-nil}
use ocsf_forge.Parsing.Parsed.{Parsed}
use ocsf_forge.Prelude.{
  false, ◌≤◌, ◌<◌, ◌≡◌, ◌≢◌, refl, ap, inl, inr, ◌&&◌, Option, List, [], ◌∷◌, ◌++◌, Result, ok,
  raise, raise-injective, sym, ◌∙◌, All, All-append, All-map, arith, ltb, leb, Bool-cases, split_if,
  if◌then◌else◌,
}
use ocsf_forge.Text.{Text}
use ocsf_forge.Parsing.Registry.{
  LogParser, ErrorKind, value_error, type_error, overflow_error, recursion_error, other_error,
  ParseError, error, kind_of, is_caught, unknown_reading, candidates, best_from, best, recovered,
  reading, is_none, read_by, parse,
}

module _ {T : Type 0} (value : Text) where
  -- The parser stands in the list, is more confident than each parser before it and at least as
  -- confident as each after it.
  pub record IsFirstBest (parsers : List (LogParser T)) (p : LogParser T) : Type 0 where
    pub before : List (LogParser T)
    pub after : List (LogParser T)
    pub stands : parsers ≡ before ++ p ∷ after
    pub beats : All (λ q. q.detect value < p.detect value) before
    pub holds : All (λ q. q.detect value ≤ p.detect value) after

  best_from-IsFirstBest :
      (before middle parsers : List (LogParser T)) (p : LogParser T)
      → All (λ q. q.detect value < p.detect value) before
      → All (λ q. q.detect value ≤ p.detect value) middle
      → IsFirstBest (before ++ p ∷ (middle ++ parsers)) (best_from value p parsers)
  unfolding best_from
  best_from-IsFirstBest before middle [] p h k = record {
    before = before;
    after = middle;
    stands = ap (λ x. before ++ p ∷ x) (append-nil middle);
    beats = h;
    holds = k;
  }
  best_from-IsFirstBest before middle (q ∷ parsers) p h k =
      elim (Bool-cases (ltb (p.detect value) (q.detect value))) [
        | inl better ↦ rw better (
            subst (λ x. IsFirstBest x (best_from value q parsers))
              (append_assoc before (p ∷ middle) (q ∷ parsers))
              (best_from-IsFirstBest (before ++ p ∷ middle) [] parsers q
                (All-append _ before (p ∷ middle) (All-map _ _ (λ x l. ground (arith, l)) before h)
                  (ground arith, All-map _ _ (λ x l. ground (arith, l)) middle k))
                tt))
        | inr worse ↦ rw worse (
            subst (λ x. IsFirstBest (before ++ p ∷ x) (best_from value p parsers))
              (append_assoc middle (q ∷ []) parsers)
              (best_from-IsFirstBest before (middle ++ q ∷ []) parsers p h
                (All-append _ middle (q ∷ []) k (ground arith, tt))))
      ]

  module _ (observed : T) (parsers : List (LogParser T)) (forced_format : Option Text) where
    -- If some parser has the format asked for, `parse` uses the first of the most confident ones,
    -- with its confidence; without a forced format it answers "unknown" if that confidence is 0.
    pub parse-IsFirstBest :
        candidates forced_format parsers ≢ []
        → (p : LogParser T) × IsFirstBest (candidates forced_format parsers) p
          × (parse parsers value observed forced_format ≡ (
              if is_none forced_format && leb (p.detect value) 0
              then ok unknown_reading
              else reading p (p.detect value) (recovered p (p.parse value observed))))
    unfolding parse
    parse-IsFirstBest some_fit = chosen (candidates forced_format parsers) refl
      where
        chosen :
            (l : List (LogParser T))
            → candidates forced_format parsers ≡ l
            → (p : LogParser T) × IsFirstBest (candidates forced_format parsers) p
              × (parse parsers value observed forced_format ≡ (
                  if is_none forced_format && leb (p.detect value) 0
                  then ok unknown_reading
                  else reading p (p.detect value) (recovered p (p.parse value observed))))
        chosen [] e = absurd (some_fit e)
        chosen (p ∷ l) e = rw e (best_from value p l, best_from-IsFirstBest [] [] l p tt tt, refl)

    -- An error that none of the four classes is, raised by the first of the most confident parsers.
    pub record IsUncaught (e : ParseError) : Type 0 where
      pub kind : kind_of e ≡ other_error
      pub parser : LogParser T
      pub chosen : IsFirstBest (candidates forced_format parsers) parser
      pub raised : parser.parse value observed ≡ raise e

    uncaught : (kind : ErrorKind) → is_caught kind ≡ false → kind ≡ other_error
    uncaught value_error h = absurd cc
    uncaught type_error h = absurd cc
    uncaught overflow_error h = absurd cc
    uncaught recursion_error h = absurd cc
    uncaught other_error h = refl

    recovered-raise :
        (p : LogParser T) (r : Result ParseError Parsed) (e : ParseError)
        → reading p (p.detect value) (recovered p r) ≡ raise e
        → (kind_of e ≡ other_error) × (r ≡ raise e)
    recovered-raise p (ok parsed) e = λ h. absurd cc
    recovered-raise p (raise (error kind name message)) e = elim (Bool-cases (is_caught kind)) [
      | inl caught ↦ rw caught (λ h. absurd cc)
      | inr passes ↦ rw passes (λ h.
          let same : error kind name message ≡ e = raise-injective h in
          (ap kind_of (sym same) ∙ uncaught kind passes, ap raise same))
    ]

    -- If `parse` raises an error, then it is none of `ValueError`, `TypeError`, `OverflowError` and
    -- `RecursionError`, and the first of the most confident parsers of the format asked for has
    -- raised it.
    pub parse-IsUncaught :
        (e : ParseError) → parse parsers value observed forced_format ≡ raise e → IsUncaught e
    unfolding parse best
    parse-IsUncaught e = by_candidates (candidates forced_format parsers) refl
      where
        by_candidates :
            (l : List (LogParser T))
            → candidates forced_format parsers ≡ l
            → read_by (best value l) value observed forced_format ≡ raise e
            → IsUncaught e
        by_candidates [] same h = absurd cc
        by_candidates (p ∷ l) same h =
            let q = best_from value p l in
            split_if (is_none forced_format && leb (q.detect value) 0) h (λ _ k. absurd cc)
              (λ _ k.
                let (kind, raised) = recovered-raise q (q.parse value observed) e k in
                record {
                  kind = kind;
                  parser = q;
                  chosen =
                      subst (λ x. IsFirstBest x q) (sym same)
                        (best_from-IsFirstBest [] [] l p tt tt);
                  raised = raised;
                })
