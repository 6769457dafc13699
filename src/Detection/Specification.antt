-- ===== src/Detection/Specification.antt =====
-- What `evaluate` of ulpf/detection/rules.py promises, with no deque and no counter: what an event
-- triggers is a function of the eligible events before it.
use ocsf_forge.Prelude.{
  ℕ, ◌+◌, Bool, ◌&&◌, List, [], ◌∷◌, ◌++◌, keep, count_if, length, leb, ltb, if◌then◌else◌,
}
use ocsf_forge.Text.{text_eq}
use ocsf_forge.Detection.Settings.{DetectionSettings}
use ocsf_forge.Detection.Events.{AuthenticationEvent}
use ocsf_forge.Detection.Counter.{distinct_count}
use ocsf_forge.Detection.Emit.{Alert, repeated_failures, password_spray, success_after_failures}
use ocsf_forge.Detection.Rules.{microseconds, is_failure, same_pair, in_scope}

module _ (config : DetectionSettings) (start stop : ℕ) where
  -- The failures near the event that happened at most one window before it.
  abbrev pub recent :
      (AuthenticationEvent → AuthenticationEvent → Bool)
      → AuthenticationEvent
      → List AuthenticationEvent
      → List AuthenticationEvent
  recent near e = keep (λ x.
      (is_failure x && near x e)
      && leb e.timestamp (x.timestamp + microseconds config.window_seconds))

  abbrev pub repeated : AuthenticationEvent → List AuthenticationEvent → Alert
  repeated e own = record {
    rule = repeated_failures;
    trigger = e;
    evidence = own;
    count = length own;
    threshold = config.failure_threshold;
    subject = e.user;
  }

  abbrev pub sprayed : AuthenticationEvent → List AuthenticationEvent → Alert
  sprayed e all_users = record {
    rule = password_spray;
    trigger = e;
    evidence = all_users;
    count = length all_users;
    threshold = config.spray_threshold;
    subject = [];
  }

  abbrev pub strictly_earlier : AuthenticationEvent → List AuthenticationEvent → ℕ
  strictly_earlier e = count_if (λ x. ltb x.timestamp e.timestamp)

  abbrev pub succeeded : AuthenticationEvent → List AuthenticationEvent → Alert
  succeeded e failed = record {
    rule = success_after_failures;
    trigger = e;
    evidence = failed;
    count = strictly_earlier e failed + 1;
    threshold = config.failure_threshold;
    subject = e.user;
  }

  abbrev pub users_of : List AuthenticationEvent → ℕ
  users_of = distinct_count text_eq (λ x. x.user)

  -- A failure, itself counted, is reported if enough failures of its scope and user, or failures of
  -- enough users of its scope, lie in the window; a success is reported if enough failures of its
  -- scope and user, strictly earlier than it, do.
  unfoldable pub triggered : AuthenticationEvent → List AuthenticationEvent → List Alert
  triggered e past =
      let own = recent same_pair e (past ++ e ∷ []) in
      let all_users = recent in_scope e (past ++ e ∷ []) in
      let failed = recent same_pair e past in
      if is_failure e
      then (if leb config.failure_threshold (length own) then repeated e own ∷ [] else [])
        ++ (if leb config.spray_threshold (users_of all_users)
            then sprayed e all_users ∷ []
            else [])
      else (if leb config.failure_threshold (strictly_earlier e failed)
          then succeeded e failed ∷ []
          else [])

  abbrev pub in_range : AuthenticationEvent → Bool
  in_range e = leb start e.timestamp && ltb e.timestamp stop

  -- The events of the range, each judged by all events before it.
  unfoldable pub all_triggered : List AuthenticationEvent → List AuthenticationEvent → List Alert
  unfolding triggered
  all_triggered past [] = []
  all_triggered past (e ∷ l) =
      let rest = all_triggered (past ++ e ∷ []) l in
      if in_range e then triggered e past ++ rest else rest
