-- ===== src/Detection/Findings.antt =====
-- The findings that `evaluate` of ulpf/detection/rules.py returns.
use ocsf_forge.Prelude.{
  ℕ, ◌+◌, ◌-◌, ◌≤◌, ◌<◌, ◌≡◌, ap, Bool, true, false, List, [], ◌∷◌, ok, raise, length,
  length-append, length-take-le, take, any, keep, min, All, arith, leb, ltb, ◌==◌, Bool-cases, inl,
  inr, if◌then◌else◌,
}
use mathlib.Core.List.{Memᴰ}
use ocsf_forge.Detection.Judged.{IsCandidate, IsJudged}
use ocsf_forge.Text.{Text, CharClass, text_eq}
use ocsf_forge.Json.{Items}
use ocsf_forge.Detection.Settings.{DetectionSettings}
use ocsf_forge.Detection.Events.{AuthenticationEvent, Detection}
use ocsf_forge.Detection.Emit.{Alert, with_trigger, representatives, finding_id, sample, finding}
use ocsf_forge.Detection.Events.{eligible}
use ocsf_forge.Detection.Rules.{
  bad_range, too_many_events, ordered, run, no_windows, emit_all, evaluate,
}
use ocsf_forge.Detection.Order.{unique_from}
use ocsf_forge.Detection.Sorted.{sort-IsSorted}
use ocsf_forge.Detection.Specification.{all_triggered}
use ocsf_forge.Detection.Refinement.{run-eq-all_triggered}
use ocsf_forge.Detection.Alerts.{IsJustified}

length-with_trigger :
    (t : AuthenticationEvent) (l : List AuthenticationEvent)
    → length (with_trigger t l) ≤ length l + 1
length-with_trigger t l = ground (arith, length-append l (t ∷ []))

abbrev pub has_id : Text → Detection → Bool
has_id id d = text_eq d.event.event_id id

-- No two findings have the same id.
abbrev pub HasUniqueIds : List Detection → Type 0
HasUniqueIds [] = Unit
HasUniqueIds (d ∷ l) = (any (has_id d.event.event_id) l ≡ false) × HasUniqueIds l

module _ (isoformat : ℕ → Text) (digest : Items → Text) (config : DetectionSettings)
    (observed : ℕ) where
  -- No finding names more source events than the limit allows.
  pub length-sample-le :
      (a : Alert)
      → 0 < config.evidence_limit
      → length (sample isoformat digest config observed a) ≤ config.evidence_limit
  unfolding sample
  length-sample-le a h =
      let few = take (config.evidence_limit - 1) (representatives a.evidence) in
      let n : ℕ =
        min (config.evidence_limit - 1) (a.count - (if a.trigger.status_id == 1 then 1 else 0)) in
      ground (
        arith,
        length-with_trigger a.trigger few,
        length-take-le (config.evidence_limit - 1) (representatives a.evidence),
        length-with_trigger a.trigger (take n a.evidence),
        length-take-le n a.evidence,
      )

  abbrev pub id_of : Alert → Text
  id_of = finding_id isoformat digest config observed

  -- The finding is that of an alert of the list.
  abbrev pub Stems : (Alert → Type 0) → Detection → Type 0
  Stems P d = (a : Alert) × P a × (d ≡ finding isoformat digest config observed a)

module _ (u : CharClass) (isoformat : ℕ → Text) (digest : Items → Text) (config : DetectionSettings)
    (observed start stop : ℕ) where
  abbrev pub calls : List AuthenticationEvent → List Alert
  calls events = all_triggered config start stop [] (ordered u events)

  ordered-run :
      (events : List AuthenticationEvent)
      → run config start stop no_windows (ordered u events) ≡ calls events
  unfolding ordered
  ordered-run events =
      run-eq-all_triggered config start stop (ordered u events)
        (sort-IsSorted (unique_from [] (keep (eligible u) events)))

  -- `evaluate` in the words of the specification.
  pub evaluate_lem :
      (events : List AuthenticationEvent)
      → evaluate u isoformat digest events start stop config observed ≡ (
          if leb stop start
          then raise bad_range
          else if ltb config.max_events (length events)
          then raise too_many_events
          else ok (emit_all isoformat digest config observed [] (calls events)))
  unfolding evaluate
  evaluate_lem events = elim (Bool-cases (leb stop start)) [
    | inl backwards ↦ rw backwards
    | inr forwards ↦ elim (Bool-cases (ltb config.max_events (length events))) [
      | inl many ↦ rw (forwards, many)
      | inr few ↦
          rw (forwards, few)
            (ap (λ as_. ok (emit_all isoformat digest config observed [] as_)) (ordered-run events))
    ]
  ]

  -- An alert on candidates that the specification triggers.
  abbrev pub IsCalled : List AuthenticationEvent → List AuthenticationEvent → Alert → Type 0
  IsCalled events judged a =
      IsJustified (IsCandidate u events) config start stop a
      × Memᴰ a (all_triggered config start stop [] judged)

  -- A finding reports such an alert, and names no more events than the limit allows.
  abbrev pub IsFounded : List AuthenticationEvent → List AuthenticationEvent → Detection → Type 0
  IsFounded events judged d =
      (a : Alert) × IsCalled events judged a
      × (d ≡ finding isoformat digest config observed a)
      × (length d.evidence_ids ≤ config.evidence_limit)

  pub record IsReport (events : List AuthenticationEvent) (findings : List Detection) : Type 0 where
    pub judged : List AuthenticationEvent
    pub is_judged : IsJudged u events judged
    pub unique : HasUniqueIds findings
    pub founded : All (IsFounded events judged) findings
    pub complete :
        All
          (λ a. any (has_id (id_of isoformat digest config observed a)) findings ≡ true)
          (all_triggered config start stop [] judged)
