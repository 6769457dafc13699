-- ===== src/Detection/Rules.antt =====
-- ulpf/detection/rules.py: the sliding windows and the loop of `evaluate`.
use ocsf_forge.Prelude.{
  ℕ, ◌+◌, ◌-◌, ◌*◌, Bool, ◌&&◌, ◌||◌, List, [], ◌∷◌, ◌++◌, Result, ok, ◌>>◌, raise_if, length, keep,
  ltb, leb, ◌==◌, if◌then◌else◌,
}
use ocsf_forge.Text.{Text, CharClass, text_eq}
use ocsf_forge.Json.{Items}
use ocsf_forge.Detection.Settings.{DetectionSettings}
use ocsf_forge.Detection.Events.{AuthenticationEvent, scope, same_scope, eligible, Detection}
use ocsf_forge.Detection.Counter.{Counter, tally, increment, decrement}
use ocsf_forge.Detection.Order.{unique_from, sort}
use ocsf_forge.Detection.Emit.{
  Alert, repeated_failures, password_spray, success_after_failures, emit,
}

abbrev pub microseconds : ℕ → ℕ
microseconds seconds = seconds * 1000000

-- The keys of `pairs`: a scope and a user.
abbrev pub same_pair : AuthenticationEvent → AuthenticationEvent → Bool
same_pair a b = same_scope (scope a) (scope b) && text_eq a.user b.user

abbrev pub is_failure : AuthenticationEvent → Bool
is_failure e = e.status_id == 2

-- `while queue and queue[0].timestamp < cutoff`, with the counter of the queue's keys.
module _ {K : Type 0} (same : K → K → Bool) (key : AuthenticationEvent → K) (window now : ℕ) where
  unfoldable pub prune : List AuthenticationEvent → Counter K → List AuthenticationEvent × Counter K
  prune [] c = ([], c)
  prune (old ∷ queue) c =
      let later = prune queue (decrement same (key old) c) in
      if ltb (old.timestamp + window) now then later else (old ∷ queue, c)

-- The four dicts of the loop; a missing key has the empty deque and the empty counter.
pub record Windows : Type 0 where
  pub pairs : AuthenticationEvent → List AuthenticationEvent
  pub pair_times : AuthenticationEvent → Counter ℕ
  pub sources : AuthenticationEvent → List AuthenticationEvent
  pub users : AuthenticationEvent → Counter Text

abbrev pub no_windows : Windows
no_windows = record { pairs = λ k. []; pair_times = λ k. []; sources = λ k. []; users = λ k. [] }

-- `d[key] = value`, where the key of an event is what the test compares.
abbrev pub store {ℓ} :
    {V : Type ℓ}
    → (AuthenticationEvent → AuthenticationEvent → Bool)
    → AuthenticationEvent
    → V
    → (AuthenticationEvent → V)
    → AuthenticationEvent
    → V
store same e v d k = if same e k then v else d k

abbrev pub in_scope : AuthenticationEvent → AuthenticationEvent → Bool
in_scope a b = same_scope (scope a) (scope b)

-- The deques and counters of one event, pruned, and with the event appended if it is a failure.
pub record View : Type 0 where
  pub previous : List AuthenticationEvent
  pub times : Counter ℕ
  pub source : List AuthenticationEvent
  pub distinct : Counter Text

module _ (window : ℕ) where
  unfoldable pub pruned : Windows → AuthenticationEvent → View
  unfolding prune
  pruned w e =
      let (previous, times) =
        prune ◌==◌ (λ x. x.timestamp) window e.timestamp (w.pairs e) (w.pair_times e) in
      let (source, distinct) =
        prune text_eq (λ x. x.user) window e.timestamp (w.sources e) (w.users e) in
      record { previous = previous; times = times; source = source; distinct = distinct }

unfoldable pub appended : AuthenticationEvent → View → View
unfolding increment
appended e v =
    if is_failure e
    then record {
      previous = v.previous ++ e ∷ [];
      times = increment ◌==◌ e.timestamp v.times;
      source = v.source ++ e ∷ [];
      distinct = increment text_eq e.user v.distinct;
    }
    else v

unfoldable pub stored : AuthenticationEvent → View → Windows → Windows
stored e v w = record {
  pairs = store same_pair e v.previous w.pairs;
  pair_times = store same_pair e v.times w.pair_times;
  sources = store in_scope e v.source w.sources;
  users = store in_scope e v.distinct w.users;
}

-- What `emit` is called with for an event in the range, in order.
unfoldable pub alerts : DetectionSettings → AuthenticationEvent → View → List Alert
alerts config e v =
    if is_failure e
    then (if leb config.failure_threshold (length v.previous)
        then record {
          rule = repeated_failures;
          trigger = e;
          evidence = v.previous;
          count = length v.previous;
          threshold = config.failure_threshold;
          subject = e.user;
        }
          ∷ []
        else [])
      ++ (if leb config.spray_threshold (length v.distinct)
          then record {
            rule = password_spray;
            trigger = e;
            evidence = v.source;
            count = length v.source;
            threshold = config.spray_threshold;
            subject = [];
          }
            ∷ []
          else [])
    else (let earlier_count = length v.previous - tally ◌==◌ e.timestamp v.times in
        if leb config.failure_threshold earlier_count
        then record {
          rule = success_after_failures;
          trigger = e;
          evidence = v.previous;
          count = earlier_count + 1;
          threshold = config.failure_threshold;
          subject = e.user;
        }
          ∷ []
        else [])

module _ (config : DetectionSettings) (start stop : ℕ) where
  abbrev pub window : ℕ
  window = microseconds config.window_seconds

  abbrev pub skips : AuthenticationEvent → Bool
  skips e = ltb (e.timestamp + window) start || leb stop e.timestamp

  -- The loop over `ordered`: the calls of `emit`, in order.
  unfoldable pub run : Windows → List AuthenticationEvent → List Alert
  unfolding pruned appended stored alerts
  run w [] = []
  run w (e ∷ l) =
      let v = appended e (pruned window w e) in
      let skipped = run w l in
      let silent = run (stored e v w) l in
      if skips e
      then skipped
      else if ltb e.timestamp start
      then silent
      else alerts config e v ++ silent

pub data EvaluateError : Type 0 where
  bad_range too_many_events : EvaluateError

unfoldable pub emit_all :
    (ℕ → Text)
    → (Items → Text)
    → DetectionSettings
    → ℕ
    → List Detection
    → List Alert
    → List Detection
unfolding emit
emit_all isoformat digest config observed findings [] = findings
emit_all isoformat digest config observed findings (a ∷ l) =
    emit_all isoformat digest config observed (emit isoformat digest config observed a findings) l

module _ (u : CharClass) where
  unfoldable pub ordered : List AuthenticationEvent → List AuthenticationEvent
  unfolding unique_from sort
  ordered events = sort (unique_from [] (keep (eligible u) events))

  module _ (isoformat : ℕ → Text) (digest : Items → Text) where
    -- `evaluate`, for a range of aware datetimes.
    unfoldable pub evaluate :
        List AuthenticationEvent
        → ℕ
        → ℕ
        → DetectionSettings
        → ℕ
        → Result EvaluateError (List Detection)
    unfolding ordered run emit_all
    evaluate events start stop config observed = do
      raise_if (leb stop start) bad_range
      raise_if (ltb config.max_events (length events)) too_many_events
      ok (
          emit_all isoformat digest config observed []
            (run config start stop no_windows (ordered events)))
