-- ===== src/Parsing/Authentication.antt =====
-- ulpf/parsing/authentication.py: authentication actions and their outcomes.
use ocsf_forge.Prelude.{
  ℕ, Bool, false, not, ◌||◌, Option, none, some, List, [], ◌∷◌, ◌++◌, any, keep, Result, ok, raise,
  ◌==◌, if◌then◌else◌,
}
use ocsf_forge.Text.{Text, codes, text_eq, strip, to_lower}
use ocsf_forge.Json.{Value, Fields, get}
use ocsf_forge.Normalizer.Fields.{Library, show_value}
use ocsf_forge.Parsing.Registry.{value_error, ParseError, error}

-- An activity with its name, and the outcome that the action implies.
pub record Authentication : Type 0 where
  pub activity : ℕ
  pub name : Text
  pub outcome : Text

abbrev pub unknown : Text
unknown = codes "Unknown"

abbrev logon : Text → Authentication
logon outcome = record { activity = 1; name = codes "Logon"; outcome = outcome }

abbrev logoff : Authentication
logoff = record { activity = 2; name = codes "Logoff"; outcome = unknown }

unfoldable pub auth_actions : List (Text × Authentication)
auth_actions =
    (codes "login", logon unknown)
    ∷ (codes "logon", logon unknown)
    ∷ (codes "authentication", logon unknown)
    ∷ (codes "authenticate", logon unknown)
    ∷ (codes "login_success", logon (codes "Success"))
    ∷ (codes "logon_success", logon (codes "Success"))
    ∷ (codes "authentication_success", logon (codes "Success"))
    ∷ (codes "login_failure", logon (codes "Failure"))
    ∷ (codes "login_failed", logon (codes "Failure"))
    ∷ (codes "failed_login", logon (codes "Failure"))
    ∷ (codes "logon_failure", logon (codes "Failure"))
    ∷ (codes "authentication_failure", logon (codes "Failure"))
    ∷ (codes "logout", logoff)
    ∷ (codes "logoff", logoff)
    ∷ []

unfoldable pub outcomes : List (Text × Text)
outcomes =
    (codes "success", codes "Success")
    ∷ (codes "successful", codes "Success")
    ∷ (codes "succeeded", codes "Success")
    ∷ (codes "allowed", codes "Success")
    ∷ (codes "failure", codes "Failure")
    ∷ (codes "failed", codes "Failure")
    ∷ (codes "denied", codes "Failure")
    ∷ (codes "blocked", codes "Failure")
    ∷ []

-- `d.get(k)` of a dict of the source.
abbrev pub lookup {ℓ} : {A : Type ℓ} → Text → List (Text × A) → Option A
lookup key [] = none
lookup key ((k, v) ∷ rest) = if text_eq key k then some v else lookup key rest

abbrev pub or_else {ℓ} : {A : Type ℓ} → A → Option A → A
or_else d none = d
or_else d (some a) = a

abbrev pub is_known : Text → Bool
is_known t = not (text_eq t unknown)

-- The only member of the set, or "Unknown".
unfoldable pub agreed : List Text → Result ParseError Text
agreed [] = ok unknown
agreed (t ∷ ts) =
    if any (λ u. not (text_eq t u)) ts
    then raise
        (error value_error (codes "ValueError") (codes "Conflicting authentication outcomes"))
    else ok t

abbrev pub settled :
    Authentication → Result ParseError Text → Result ParseError (Option Authentication)
settled a (raise e) = raise e
settled a (ok outcome) = ok (some (record a { outcome = outcome }))

module _ (lib : Library) where
  -- The class `[\s.-]`.
  abbrev pub is_separator : ℕ → Bool
  is_separator c = lib.chars.is_space c || c == b'.' || c == b'-'

  abbrev pub begins_with_separator : Text → Bool
  begins_with_separator [] = false
  begins_with_separator (c ∷ s) = is_separator c

  -- `re.sub(r"[\s.-]+", "_", s)`: one underscore for each run.
  abbrev pub underscored : Text → Text
  underscored [] = []
  underscored (c ∷ s) =
      let rest = underscored s in
      if is_separator c then (if begins_with_separator s then rest else b'_' ∷ rest) else c ∷ rest

  abbrev pub outcome_of : Option Value → List Text
  outcome_of none = []
  outcome_of (some v) =
      or_else unknown (lookup (to_lower lib.chars (strip lib.chars (show_value lib v))) outcomes)
      ∷ []

  -- The members of `known`, each as often as it is given.
  unfoldable pub known_outcomes : Text → Fields → List Text
  known_outcomes implied item = keep is_known (
      outcome_of (get item (codes "status"))
      ++ (outcome_of (get item (codes "outcome")) ++ implied ∷ []))

  abbrev pub classified : Option Authentication → Fields → Result ParseError (Option Authentication)
  classified none item = ok none
  classified (some a) item = settled a (agreed (known_outcomes a.outcome item))

  unfoldable pub authentication_action : Text → Fields → Result ParseError (Option Authentication)
  unfolding agreed
  authentication_action action item =
      classified (lookup (underscored (to_lower lib.chars (strip lib.chars action))) auth_actions)
        item
