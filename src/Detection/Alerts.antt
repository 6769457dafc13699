-- ===== src/Detection/Alerts.antt =====
-- What stands behind each call of `emit` in ulpf/detection/rules.py.
use ocsf_forge.Prelude.{
  ℕ, sym, Bool, ◌+◌, ◌≤◌, ◌<◌, ◌≡◌, refl, ap, true, ◌&&◌, List, [], ◌∷◌, ◌++◌, length, All,
  All-append, All-keep, All-keep_test, All-both, All-map, All-if, arith, leb, leb→le, Bool-cases,
  inl, inr, if◌then◌else◌,
}
use mathlib.Core.Path.{subst}
use ocsf_forge.Text.{Text, text_eq_iff}
use ocsf_forge.Detection.Settings.{DetectionSettings}
use ocsf_forge.Detection.Events.{AuthenticationEvent}
use ocsf_forge.Detection.Emit.{
  Rule, repeated_failures, password_spray, success_after_failures, Alert,
}
use ocsf_forge.Detection.Rules.{microseconds, is_failure, same_pair, in_scope}
use ocsf_forge.Detection.Sorted.{Later, IsSorted}
use ocsf_forge.Detection.Specification.{
  recent, repeated, sprayed, succeeded, strictly_earlier, users_of, triggered, in_range,
  all_triggered,
}

-- `Known` tells which events may be reported.
module _ (Known : AuthenticationEvent → Type 0) (config : DetectionSettings) (start stop : ℕ) where
  -- A known failure of the trigger's scope, at most one window before the trigger and not after it.
  pub record IsEvidence (trigger x : AuthenticationEvent) : Type 0 where
    pub known : Known x
    pub failed : x.status_id ≡ 2
    pub hostname_of : x.hostname ≡ trigger.hostname
    pub service_of : x.service ≡ trigger.service
    pub ip_address_of : x.ip_address ≡ trigger.ip_address
    pub earlier : x.timestamp ≤ trigger.timestamp
    pub near : trigger.timestamp ≤ x.timestamp + microseconds config.window_seconds

  abbrev pub HasUser : Text → AuthenticationEvent → Type 0
  HasUser user x = x.user ≡ user

  -- What each rule asks of a trigger and its evidence, and the count it reports.
  abbrev pub IsReached : Rule → Alert → Type 0
  IsReached repeated_failures a =
      (a.trigger.status_id ≡ 2)
      × All (HasUser a.trigger.user) a.evidence
      × (config.failure_threshold ≤ length a.evidence)
      × (a.threshold ≡ config.failure_threshold)
      × (a.count ≡ length a.evidence)
  IsReached password_spray a =
      (a.trigger.status_id ≡ 2)
      × (config.spray_threshold ≤ users_of config start stop a.evidence)
      × (a.threshold ≡ config.spray_threshold)
      × (a.count ≡ length a.evidence)
  IsReached success_after_failures a =
      (a.trigger.status_id ≡ 2 → ⊥)
      × All (HasUser a.trigger.user) a.evidence
      × (config.failure_threshold ≤ strictly_earlier config start stop a.trigger a.evidence)
      × (a.threshold ≡ config.failure_threshold)
      × (a.count ≡ strictly_earlier config start stop a.trigger a.evidence + 1)

  pub record IsJustified (a : Alert) : Type 0 where
    pub trigger_known : Known a.trigger
    pub from : start ≤ a.trigger.timestamp
    pub until : a.trigger.timestamp < stop
    pub evidence : All (IsEvidence a.trigger) a.evidence
    pub reached : IsReached a.rule a

  IsEvidence-of :
      (e x : AuthenticationEvent)
      → ((is_failure x && in_scope x e)
          && leb e.timestamp (x.timestamp + microseconds config.window_seconds))
        ≡ true
      → Known x × (x.timestamp ≤ e.timestamp)
      → IsEvidence e x
  IsEvidence-of e x h (known, le) = record {
    known = known;
    failed = ground arith;
    hostname_of = (text_eq_iff x.hostname e.hostname).0 (ground arith);
    service_of = (text_eq_iff x.service e.service).0 (ground arith);
    ip_address_of = (text_eq_iff x.ip_address e.ip_address).0 (ground arith);
    earlier = le;
    near = ground arith;
  }

  same_pair-in_scope :
      (e x : AuthenticationEvent) (later : Bool)
      → ((is_failure x && same_pair x e) && later) ≡ true
      → (((is_failure x && in_scope x e) && later) ≡ true) × (x.user ≡ e.user)
  same_pair-in_scope e x later h =
      (ground (arith, h), (text_eq_iff x.user e.user).0 (ground (arith, h)))

  module _ (e : AuthenticationEvent) (past : List AuthenticationEvent)
      (upto : All (λ x. Known x × (x.timestamp ≤ e.timestamp)) past) where
    recent-scope : All (IsEvidence e) (recent config start stop in_scope e past)
    recent-scope =
        All-map _ _ (λ x h. IsEvidence-of e x h.0 h.1) _
          (All-both _ _ _ (All-keep_test _ past) (All-keep _ _ past upto))

    recent-pair : All (IsEvidence e) (recent config start stop same_pair e past)
    recent-pair =
        All-map _ _
          (λ x h.
            IsEvidence-of e x
              (same_pair-in_scope e x
                (leb e.timestamp (x.timestamp + microseconds config.window_seconds)) h.0).0
              h.1)
          _ (All-both _ _ _ (All-keep_test _ past) (All-keep _ _ past upto))

    recent-user : All (HasUser e.user) (recent config start stop same_pair e past)
    recent-user =
        All-map _ _
          (λ x h.
            (same_pair-in_scope e x
              (leb e.timestamp (x.timestamp + microseconds config.window_seconds)) h).1)
          _ (All-keep_test _ past)

  module _ (e : AuthenticationEvent) (past : List AuthenticationEvent) (is : Known e)
      (upto : All (λ x. Known x × (x.timestamp ≤ e.timestamp)) past)
      (inside : in_range config start stop e ≡ true) where
    upto_append : All (λ x. Known x × (x.timestamp ≤ e.timestamp)) (past ++ e ∷ [])
    upto_append = All-append _ past (e ∷ []) upto ((is, omega arith), tt)

    justified :
        (a : Alert)
        → a.trigger ≡ e
        → All (IsEvidence a.trigger) a.evidence
        → IsReached a.rule a
        → IsJustified a
    justified a same h r = record {
      trigger_known = subst Known (sym same) is;
      from = ground (arith, ap (λ x. x.timestamp) same);
      until = ground (arith, ap (λ x. x.timestamp) same);
      evidence = h;
      reached = r;
    }

    triggered-IsJustified : All IsJustified (triggered config start stop e past)
    unfolding triggered
    triggered-IsJustified =
        let own = recent config start stop same_pair e (past ++ e ∷ []) in
        let all_users = recent config start stop in_scope e (past ++ e ∷ []) in
        let failed = recent config start stop same_pair e past in
        let often = leb config.failure_threshold (length own) in
        let spread = leb config.spray_threshold (users_of config start stop all_users) in
        let before = leb config.failure_threshold (strictly_earlier config start stop e failed) in
        elim (Bool-cases (is_failure e)) [
          | inl fails ↦
              let failure : e.status_id ≡ 2 = ground (arith, fails) in
              rw fails (
                All-append IsJustified (if often then repeated config start stop e own ∷ [] else [])
                  (if spread then sprayed config start stop e all_users ∷ [] else [])
                  (All-if IsJustified often (repeated config start stop e own) (λ h.
                    justified (repeated config start stop e own) refl
                      (recent-pair e (past ++ e ∷ []) upto_append)
                      (
                        failure,
                        recent-user e (past ++ e ∷ []) upto_append,
                        leb→le _ _ h,
                        refl,
                        refl,
                      )))
                  (All-if IsJustified spread (sprayed config start stop e all_users) (λ h.
                    justified (sprayed config start stop e all_users) refl
                      (recent-scope e (past ++ e ∷ []) upto_append)
                      (failure, leb→le _ _ h, refl, refl))))
          | inr calm ↦ rw calm (
              All-if IsJustified before (succeeded config start stop e failed) (λ h.
                justified (succeeded config start stop e failed) refl (recent-pair e past upto) (
                  (λ is. absurd (ground (arith, calm, is))),
                  recent-user e past upto,
                  leb→le _ _ h,
                  refl,
                  refl,
                )))
        ]

  pub all_triggered-IsJustified :
      (past l : List AuthenticationEvent)
      → IsSorted l
      → All Known l
      → All (λ e. All (λ x. Known x × (x.timestamp ≤ e.timestamp)) past) l
      → All IsJustified (all_triggered config start stop past l)
  unfolding all_triggered
  all_triggered-IsJustified past [] h is k = tt
  all_triggered-IsJustified past (e ∷ l) (h, hs) (i, is) (k, ks) =
      let rest = all_triggered-IsJustified (past ++ e ∷ []) l hs is (
        All-map _ _ (λ f b. All-append _ past (e ∷ []) b.1 ((i, b.0), tt)) l
          (All-both (Later e) (λ f. All (λ x. Known x × (x.timestamp ≤ f.timestamp)) past) l h
            ks)) in
      elim (Bool-cases (in_range config start stop e)) [
        | inl inside ↦ rw inside (
            All-append IsJustified (triggered config start stop e past) _
              (triggered-IsJustified e past i k inside) rest)
        | inr outside ↦ rw outside rest
      ]
