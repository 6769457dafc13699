-- ===== src/Normalizer/Fields.antt =====
-- ulpf/normalizer.py: the checks of ports, addresses and timestamps.
use ocsf_forge.Prelude.{
  ℕ, Bool, true, false, Option, none, some, [], ◌∷◌, ◌++◌, all, leb, ◌==◌, if◌then◌else◌,
}
use ocsf_forge.Text.{Text, CharClass, codes}
use ocsf_forge.Json.{Value, null, boolean, int, negative, float, str, arr, obj}
use ocsf_forge.Models.{Offset}

-- An aware datetime: its ISO text and the minutes of its offset from UTC.
pub record Moment : Type 0 where
  pub iso : Text
  pub offset : Offset

-- What `datetime.fromisoformat` returns.
pub data Parsing : Type 0 where
  aware : Moment → Parsing
  naive : Parsing
  refused : Parsing

-- What `int` returns; how far a number lies below zero plays no part.
pub data Number : Type 0 where
  at_least_zero : ℕ → Number
  below_zero : Number

-- The interpreter's own functions: `str` of a value that is no text, `int` of a text and of a float
-- with an integral value, `ipaddress.ip_address` with its canonical text, `datetime.fromtimestamp`
-- for the digits of seconds or, above ten thousand million, milliseconds, `fromisoformat`, SHA-256
-- of the UTF-8 text, `str.title`, and the text of a confidence. `none` and `refused` are exceptions.
pub record Library : Type 0 where
  pub chars : CharClass
  pub show : Value → Text
  pub int_of_text : Text → Option Number
  pub int_of_float : Text → Option Number
  pub ip_address : Text → Option Text
  pub from_timestamp : Text → Option Moment
  pub from_iso : Text → Parsing
  pub sha256 : Text → Text
  pub title : Text → Text
  pub hundredths : ℕ → Text

-- `value in (None, "")`, also for a missing key.
abbrev pub is_nothing : Option Value → Bool
is_nothing none = true
is_nothing (some null) = true
is_nothing (some (str [])) = true
is_nothing (some _) = false

module _ (lib : Library) where
  -- `str(value)`.
  abbrev pub show_value : Value → Text
  show_value (str t) = t
  show_value v = lib.show v

  -- `int(value)`, where a Boolean and a float with a fraction are refused first.
  abbrev pub int_of : Value → Option Number
  int_of null = none
  int_of (boolean b) = none
  int_of (int n) = some (at_least_zero n)
  int_of (negative n) = some below_zero
  int_of (float t) = lib.int_of_float t
  int_of (str t) = lib.int_of_text t
  int_of (arr vs) = none
  int_of (obj fs) = none

  abbrev pub bad_port : Value → Text → Option ℕ × Text
  bad_port v label = (none, codes "Invalid " ++ (label ++ (codes " port: " ++ show_value v)))

  abbrev pub checked_port : Option Number → Value → Text → Option ℕ × Text
  checked_port (some (at_least_zero n)) v label =
      if leb n 65535 then (some n, []) else bad_port v label
  checked_port _ v label = bad_port v label

  abbrev pub port_of_value : Option Value → Text → Option ℕ × Text
  port_of_value none label = (none, [])
  port_of_value (some v) label = checked_port (int_of v) v label

  -- `_port`: the port, and what is wrong with it.
  unfoldable pub port : Option Value → Text → Option ℕ × Text
  port value label = if is_nothing value then (none, []) else port_of_value value label

  abbrev pub ip_of_value : Option Value → Text → Text × Text
  ip_of_value none label = ([], [])
  ip_of_value (some v) label = elim (lib.ip_address (show_value v)) [
    | none ↦ ([], codes "Invalid " ++ (label ++ (codes " IP address: " ++ show_value v)))
    | some canonical ↦ (canonical, [])
  ]

  -- `_ip`.
  unfoldable pub ip : Option Value → Text → Text × Text
  ip value label = if is_nothing value then ([], []) else ip_of_value value label

-- The four results of `_timestamp`.
pub record TimeReading : Type 0 where
  pub timestamp : Option Text
  pub error : Text
  pub offset : Option Offset
  pub source : Text

abbrev pub at_moment : Moment → Text → TimeReading
at_moment m source = record {
  timestamp = some m.iso;
  error = [];
  offset = some m.offset;
  source = source;
}

abbrev pub no_time : Text → TimeReading
no_time error = record { timestamp = none; error = error; offset = none; source = codes "source" }

-- `value.replace("Z", "+00:00")`.
abbrev pub spell_zulu : Text → Text
spell_zulu [] = []
spell_zulu (c ∷ t) =
    let rest = spell_zulu t in if c == b'Z' then codes "+00:00" ++ rest else c ∷ rest

module _ (lib : Library) where
  abbrev pub invalid_timestamp : Text → TimeReading
  invalid_timestamp value = no_time (codes "Invalid source timestamp: " ++ value)

  abbrev pub reading_of : Text → Parsing → TimeReading
  reading_of value (aware m) = at_moment m (codes "source")
  reading_of value naive = no_time (codes "Source timestamp has no timezone")
  reading_of value refused = invalid_timestamp value

  abbrev pub numeric_reading : Text → Option Moment → TimeReading
  numeric_reading value none = invalid_timestamp value
  numeric_reading value (some m) = at_moment m (codes "source")

  -- `_timestamp`.
  unfoldable pub timestamp_of : Text → Moment → Bool → TimeReading
  timestamp_of [] observed missing_ok =
      if missing_ok
      then at_moment observed (codes "collector")
      else no_time (codes "Missing source timestamp")
  timestamp_of (c ∷ t) observed missing_ok =
      if all lib.chars.is_digit (c ∷ t)
      then numeric_reading (c ∷ t) (lib.from_timestamp (c ∷ t))
      else reading_of (c ∷ t) (lib.from_iso (spell_zulu (c ∷ t)))
