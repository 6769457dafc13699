-- ===== src/Detection/Settings.antt =====
-- ulpf/detection/config.py: the settings and the checks of `__post_init__`.
use ocsf_forge.Prelude.{
  ℕ, ◌≤◌, ◌<◌, ◌≡◌, ◌↔◌, Bool, ◌||◌, [], ◌∷◌, any, Result, ok, ◌>>◌, raise_if, raise_if-ok, false,
  arith, ltb, leb,
}

-- A value that is not positive counts as 0.
pub record DetectionSettings : Type 0 where
  pub window_seconds : ℕ
  pub failure_threshold : ℕ
  pub spray_threshold : ℕ
  pub lookback_seconds : ℕ
  pub interval_seconds : ℕ
  pub max_events : ℕ
  pub evidence_limit : ℕ

abbrev pub default_settings : DetectionSettings
default_settings = record {
  window_seconds = 300;
  failure_threshold = 5;
  spray_threshold = 5;
  lookback_seconds = 3600;
  interval_seconds = 30;
  max_events = 50000;
  evidence_limit = 20;
}

pub data SettingsError : Type 0 where
  not_positive low_threshold short_lookback low_evidence : SettingsError

abbrev has_zero : DetectionSettings → Bool
has_zero c =
    any (λ n. leb n 0)
      (c.window_seconds ∷ c.failure_threshold ∷ c.spray_threshold ∷ c.lookback_seconds
        ∷ c.interval_seconds ∷ c.max_events ∷ c.evidence_limit ∷ [])

abbrev is_low : DetectionSettings → Bool
is_low c = ltb c.failure_threshold 2 || ltb c.spray_threshold 2

abbrev is_short : DetectionSettings → Bool
is_short c = ltb c.lookback_seconds c.window_seconds || ltb c.lookback_seconds c.interval_seconds

-- `__post_init__`.
unfoldable pub check_settings : DetectionSettings → Result SettingsError DetectionSettings
check_settings c = do
  raise_if (has_zero c) not_positive
  raise_if (is_low c) low_threshold
  raise_if (is_short c) short_lookback
  raise_if (ltb c.evidence_limit 2) low_evidence
  ok c

-- What the rules rely on.
pub record IsSound (c : DetectionSettings) : Type 0 where
  pub window : 0 < c.window_seconds
  pub failures : 2 ≤ c.failure_threshold
  pub spray : 2 ≤ c.spray_threshold
  pub covers_window : c.window_seconds ≤ c.lookback_seconds
  pub covers_interval : c.interval_seconds ≤ c.lookback_seconds
  pub interval : 0 < c.interval_seconds
  pub room : 0 < c.max_events
  pub evidence : 2 ≤ c.evidence_limit

has_zero_iff :
    (c : DetectionSettings)
    → (has_zero c ≡ false) ↔ (
        (0 < c.window_seconds)
        × (0 < c.failure_threshold)
        × (0 < c.spray_threshold)
        × (0 < c.lookback_seconds)
        × (0 < c.interval_seconds)
        × (0 < c.max_events)
        × (0 < c.evidence_limit))
has_zero_iff c = (λ h. ground arith, λ h. ground arith)

is_low_iff :
    (c : DetectionSettings)
    → (is_low c ≡ false) ↔ ((2 ≤ c.failure_threshold) × (2 ≤ c.spray_threshold))
is_low_iff c = (λ h. ground arith, λ h. ground arith)

is_short_iff :
    (c : DetectionSettings)
    → (is_short c ≡ false)
      ↔ ((c.window_seconds ≤ c.lookback_seconds) × (c.interval_seconds ≤ c.lookback_seconds))
is_short_iff c = (λ h. ground arith, λ h. ground arith)

IsSound-of_check : (c : DetectionSettings) → check_settings c ≡ ok c → IsSound c
unfolding check_settings
IsSound-of_check c h =
    let (h1, k1) = raise_if-ok (has_zero c) not_positive _ h in
    let (h2, k2) = raise_if-ok (is_low c) low_threshold _ k1 in
    let (h3, k3) = raise_if-ok (is_short c) short_lookback _ k2 in
    let (h4, k4) = raise_if-ok (ltb c.evidence_limit 2) low_evidence _ k3 in
    let positive = (has_zero_iff c).0 h1 in
    let high = (is_low_iff c).0 h2 in
    let long = (is_short_iff c).0 h3 in
    record {
      window = positive.0;
      failures = high.0;
      spray = high.1;
      covers_window = long.0;
      covers_interval = long.1;
      interval = positive.4;
      room = positive.5;
      evidence = ground arith;
    }

check_of_sound : (c : DetectionSettings) → IsSound c → check_settings c ≡ ok c
unfolding check_settings
check_of_sound c v =
    let positive = (has_zero_iff c).1 (omega arith) in
    let high = (is_low_iff c).1 (omega arith) in
    let long = (is_short_iff c).1 (omega arith) in
    let enough : ltb c.evidence_limit 2 ≡ false = ground arith in rw (positive, high, long, enough)

-- Settings are accepted exactly when every number is positive, both thresholds and the evidence
-- limit are at least two, and the lookback covers the window and the polling interval.
pub check_settings_iff : (c : DetectionSettings) → (check_settings c ≡ ok c) ↔ IsSound c
check_settings_iff c = (IsSound-of_check c, check_of_sound c)
