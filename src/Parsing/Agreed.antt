-- ===== src/Parsing/Agreed.antt =====
-- The outcomes of `authentication_action` of ulpf/parsing/authentication.py.
use mathlib.Core.Path.{subst}
use ocsf_forge.Prelude.{
  ◌⊎◌, ◌++◌, keep, All-append, ◌≡◌, refl, sym, inl, inr, false, not, Option, none, some, List, [],
  ◌∷◌, any, All, Result, ok, raise, ok-injective, some-injective, Bool-cases, Yields, Yields-ok,
  arith,
}
use ocsf_forge.Text.{codes, Text, text_eq, text_eq_iff, strip, to_lower}
use ocsf_forge.Json.{Value, Fields, get}
use ocsf_forge.Normalizer.Fields.{Library, show_value}
use ocsf_forge.Parsing.Registry.{ParseError}
use ocsf_forge.Parsing.Authentication.{
  Authentication, unknown, outcomes, is_known, outcome_of, or_else, auth_actions, lookup,
  underscored, known_outcomes, agreed, settled, classified, authentication_action,
}

-- The known outcomes of an action agree with the one that it is given.
pub record IsAgreed (known : List Text) (outcome : Text) : Type 0 where
  pub same : All (λ t. t ≡ outcome) known
  pub default : known ≡ [] → outcome ≡ unknown

agreeing-All :
    (t : Text) (ts : List Text) → any (λ u. not (text_eq t u)) ts ≡ false → All (λ u. u ≡ t) ts
agreeing-All t [] h = tt
agreeing-All t (u ∷ ts) h = elim (Bool-cases (text_eq t u)) [
  | inl same ↦ (sym ((text_eq_iff t u).0 same), agreeing-All t ts (ground (arith, h, same)))
  | inr other ↦ absurd (ground (arith, h, other))
]

agreed-IsAgreed : (known : List Text) → Yields (IsAgreed known) (agreed known)
unfolding agreed
agreed-IsAgreed [] = Yields-ok (IsAgreed []) unknown (record { same = tt; default = λ _. refl })
agreed-IsAgreed (t ∷ ts) = elim (Bool-cases (any (λ u. not (text_eq t u)) ts)) [
  | inl differ ↦ rw differ (record { yields = λ a h. absurd cc })
  | inr agree ↦ rw agree (
      Yields-ok (IsAgreed (t ∷ ts)) t
        (record { same = (refl, agreeing-All t ts agree); default = λ e. absurd cc }))
]

-- The outcome that is said is unknown or the one that is settled.
abbrev pub Agrees : Text → Text → Type 0
Agrees outcome t = (t ≡ unknown) ⊎ (t ≡ outcome)

keep-Agrees :
    (outcome : Text) (ts : List Text)
    → All (λ t. t ≡ outcome) (keep is_known ts)
    → All (Agrees outcome) ts
keep-Agrees outcome [] = λ h. tt
keep-Agrees outcome (t ∷ ts) = elim (Bool-cases (text_eq t unknown)) [
  | inl is ↦ rw is (λ h. (inl ((text_eq_iff t unknown).0 is), keep-Agrees outcome ts h))
  | inr other ↦ rw other (λ (h, hs). (inr h, keep-Agrees outcome ts hs))
]

keep-unknown : (ts : List Text) → All (λ t. t ≡ unknown) ts → keep is_known ts ≡ []
keep-unknown [] h = refl
keep-unknown (t ∷ ts) (h, hs) = rw ((text_eq_iff t unknown).1 h) (keep-unknown ts hs)

All-parts : (P : Text → Type 0) (xs ys : List Text) → All P (xs ++ ys) → All P xs × All P ys
All-parts P [] ys h = (tt, h)
All-parts P (x ∷ xs) ys (h, hs) = let (a, b) = All-parts P xs ys hs in ((h, a), b)

module _ (lib : Library) where
  -- The entry of the table for an action.
  abbrev pub entry_of : Text → Option Authentication
  entry_of action =
      lookup (underscored lib (to_lower lib.chars (strip lib.chars action))) auth_actions

  -- What the table of outcomes says of a value.
  abbrev pub reported : Value → Text
  reported v =
      or_else unknown (lookup (to_lower lib.chars (strip lib.chars (show_value lib v))) outcomes)

  -- The action is in the table, with the activity; what the entry, "status" and "outcome" say is the
  -- outcome, or unknown; and if all that is there says unknown, the outcome is unknown.
  pub record IsOutcome (entry : Option Authentication) (item : Fields) (a : Authentication)
      : Type 0 where
    pub implied : Authentication
    pub found : entry ≡ some implied
    pub activity : a.activity ≡ implied.activity
    pub by_entry : Agrees a.outcome implied.outcome
    pub by_status : (v : Value) → get item (codes "status") ≡ some v → Agrees a.outcome (reported v)
    pub by_outcome :
        (v : Value) → get item (codes "outcome") ≡ some v → Agrees a.outcome (reported v)
    pub silent :
        implied.outcome ≡ unknown
        → ((v : Value) → get item (codes "status") ≡ some v → reported v ≡ unknown)
        → ((v : Value) → get item (codes "outcome") ≡ some v → reported v ≡ unknown)
        → a.outcome ≡ unknown

  outcome_of-All :
      (P : Text → Type 0) (o : Option Value)
      → ((v : Value) → o ≡ some v → P (reported v))
      → All P (outcome_of lib o)
  outcome_of-All P none h = tt
  outcome_of-All P (some v) h = (h v refl, tt)

  outcome_of-each :
      (P : Text → Type 0) (o : Option Value) (v : Value)
      → o ≡ some v
      → All P (outcome_of lib o)
      → P (reported v)
  outcome_of-each P none v e h = absurd cc
  outcome_of-each P (some w) v e (h, _) = subst (λ x. P (reported x)) (some-injective e) h

  -- The outcomes that are found, before the unknown ones are dropped.
  abbrev said : Text → Fields → List Text
  said implied item =
      outcome_of lib (get item (codes "status"))
      ++ (outcome_of lib (get item (codes "outcome")) ++ implied ∷ [])

  agreed-IsOutcome :
      (c : Authentication) (item : Fields) (outcome : Text)
      → IsAgreed (known_outcomes lib c.outcome item) outcome
      → IsOutcome (some c) item (record c { outcome = outcome })
  unfolding known_outcomes
  agreed-IsOutcome c item outcome h =
      let (status, rest) =
        All-parts (Agrees outcome) (outcome_of lib (get item (codes "status"))) _
          (keep-Agrees outcome (said c.outcome item) h.same) in
      let (other, own) =
        All-parts (Agrees outcome) (outcome_of lib (get item (codes "outcome"))) _ rest in
      record {
        implied = c;
        found = refl;
        activity = refl;
        by_entry = own.0;
        by_status = λ v e. outcome_of-each (Agrees outcome) (get item (codes "status")) v e status;
        by_outcome = λ v e. outcome_of-each (Agrees outcome) (get item (codes "outcome")) v e other;
        silent = λ a b d. h.default (
            keep-unknown (said c.outcome item) (
              All-append (λ t. t ≡ unknown) (outcome_of lib (get item (codes "status"))) _
                (outcome_of-All (λ t. t ≡ unknown) (get item (codes "status")) b)
                (All-append (λ t. t ≡ unknown) (outcome_of lib (get item (codes "outcome"))) _
                  (outcome_of-All (λ t. t ≡ unknown) (get item (codes "outcome")) d) (a, tt))));
      }

  settled-IsOutcome :
      (c : Authentication) (item : Fields) (r : Result ParseError Text) (a : Authentication)
      → Yields (IsAgreed (known_outcomes lib c.outcome item)) r
      → settled c r ≡ ok (some a)
      → IsOutcome (some c) item a
  settled-IsOutcome c item (raise e) a y h = absurd cc
  settled-IsOutcome c item (ok outcome) a y h =
      subst (IsOutcome (some c) item) (some-injective (ok-injective h))
        (agreed-IsOutcome c item outcome (y.yields outcome refl))

  classified-IsOutcome :
      (o : Option Authentication) (item : Fields) (a : Authentication)
      → classified lib o item ≡ ok (some a)
      → IsOutcome o item a
  classified-IsOutcome none item a h = absurd cc
  classified-IsOutcome (some c) item a h =
      settled-IsOutcome c item (agreed (known_outcomes lib c.outcome item)) a
        (agreed-IsAgreed (known_outcomes lib c.outcome item)) h

  -- If `authentication_action` finds an authentication, its activity is that of the action's entry
  -- in the table; what the entry, the item's "status" and its "outcome" say is "Unknown" or the
  -- outcome that is returned; and the outcome is "Unknown" if all of these that are there say so.
  pub authentication_action-IsOutcome :
      (action : Text) (item : Fields) (a : Authentication)
      → authentication_action lib action item ≡ ok (some a)
      → IsOutcome (entry_of action) item a
  unfolding authentication_action
  authentication_action-IsOutcome action item = classified-IsOutcome (entry_of action) item
