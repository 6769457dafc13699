-- ===== src/Pipeline/Delivery.antt =====
-- What `EventProcessor.run` of ulpf/pipeline.py makes of a document.
use mathlib.Core.Path.{subst}
use ocsf_forge.Prelude.{
  ℕ, zero, suc, ◌+◌, ◌≤◌, ◌<◌, ◌≡◌, refl, ap, Option, none, some, List, [], ◌∷◌, length, Result, ok,
  raise, map_ok, >>=-ok, ok-injective, arith,
}
use ocsf_forge.Text.{Text}
use ocsf_forge.Models.{NormalizedEvent}
use ocsf_forge.Normalizer.{normalize}
use ocsf_forge.Normalizer.Bounds.{IsBounded, normalize-IsBounded}
use ocsf_forge.Normalizer.Fields.{Library}
use ocsf_forge.Parsing.Limits.{LimitError, check_event_limit}
use ocsf_forge.Parsing.Registry.{Reading, tagged}
use ocsf_forge.Pipeline.LogicalEvents.{logical_events}
use ocsf_forge.Pipeline.Grouped.{IsGrouping, logical_events-IsGrouping}
use ocsf_forge.Pipeline.Budget.{logical_events_iff}
use ocsf_forge.Pipeline.Run.{
  RunError, EventProcessor, Request, lift_limit, is_log4j, normalized, source_at, event_of,
  events_of, run,
}

module _ (lib : Library) (processor : EventProcessor) (request : Request) where
  -- An event has the number of its first line, and its text as the payload.
  abbrev pub IsDelivered : ℕ × Text → NormalizedEvent → Type 0
  IsDelivered (offset, line) e =
      (e.source_offset ≡ request.source_offset_start + offset)
      × (e.source_id ≡ request.source_id)
      × IsBounded lib line e

  -- One event for each logical event, in order.
  abbrev pub Delivers : List (ℕ × Text) → List NormalizedEvent → Type 0
  Delivers [] [] = Unit
  Delivers [] (e ∷ events) = ⊥
  Delivers (l ∷ logical) [] = ⊥
  Delivers (l ∷ logical) (e ∷ events) = IsDelivered l e × Delivers logical events

  map_ok-ok :
      (f : Reading → NormalizedEvent) (r : Result RunError Reading) (e : NormalizedEvent)
      → map_ok f r ≡ ok e
      → (a : Reading) × (f a ≡ e)
  map_ok-ok f (ok a) e h = (a, ok-injective h)
  map_ok-ok f (raise x) e h = cc

  pub event_of-IsDelivered :
      (offset : ℕ) (line : Text) (e : NormalizedEvent)
      → event_of lib processor request offset line ≡ ok e
      → IsDelivered (offset, line) e
  unfolding event_of normalize
  event_of-IsDelivered offset line e h =
      let (r, same) = map_ok-ok (normalized lib processor request offset line) _ e h in
      subst (IsDelivered (offset, line)) same (
        refl,
        refl,
        normalize-IsBounded lib line r.source_format (tagged r)
            (source_at lib processor request offset),
      )

  events_of-Delivers :
      (logical : List (ℕ × Text)) (events : List NormalizedEvent)
      → events_of lib processor request logical ≡ ok events
      → Delivers logical events
  unfolding events_of
  events_of-Delivers [] events h = subst (Delivers []) (ok-injective h) tt
  events_of-Delivers ((offset, line) ∷ logical) events h =
      let (e, first, rest) = >>=-ok (event_of lib processor request offset line) _ h in
      let (es, others, k) = >>=-ok (events_of lib processor request logical) _ rest in
      subst (Delivers ((offset, line) ∷ logical)) (ok-injective k)
        (event_of-IsDelivered offset line e first, events_of-Delivers logical es others)

  Delivers-length :
      (logical : List (ℕ × Text)) (events : List NormalizedEvent)
      → Delivers logical events
      → length logical ≡ length events
  Delivers-length [] [] d = refl
  Delivers-length [] (e ∷ events) d = absurd d
  Delivers-length (l ∷ logical) [] d = absurd d
  Delivers-length (l ∷ logical) (e ∷ events) (_, d) = ap suc (Delivers-length logical events d)

  lift_limit-ok {ℓ} :
      {A : Type ℓ} (r : Result LimitError A) (a : A) → lift_limit r ≡ ok a → r ≡ ok a
  lift_limit-ok (ok b) a h = cc
  lift_limit-ok (raise e) a h = cc

  budget_positive : (maximum : ℕ) → check_event_limit 0 (some maximum) ≡ ok tt → 0 < maximum
  unfolding check_event_limit
  budget_positive zero h = cc
  budget_positive (suc n) h = omega arith

  -- The events of a document are those of a grouping of its lines, one for each group, within the
  -- budget.
  pub record IsDelivery (lines : List Text) (events : List NormalizedEvent) : Type 0 where
    pub logical : List (ℕ × Text)
    pub grouping : IsGrouping lib.chars lines logical
    pub delivered : Delivers logical events
    pub within : (maximum : ℕ) → request.max_events ≡ some maximum → length events ≤ maximum

  -- The groups and the budget of the list of logical events.
  within_budget :
      (lines : List Text) (logical : List (ℕ × Text)) (max_events : Option ℕ)
      → check_event_limit 0 max_events ≡ ok tt
      → logical_events lib.chars (is_log4j lib processor request) lines max_events ≡ ok logical
      → (maximum : ℕ) → max_events ≡ some maximum
      → length logical ≤ maximum
  within_budget lines logical none checked h maximum e = cc
  within_budget lines logical (some m) checked h maximum e = omega (
    arith,
    some-eq e,
    ((logical_events_iff lib.chars (is_log4j lib processor request) m (budget_positive m checked)
          lines logical).0
        h).1,
  )
    where
      some-eq : some m ≡ some maximum → m ≡ maximum
      some-eq h = ground (arith, h)

  -- If `run` returns, its events are, one for each, those of a grouping of the document's lines:
  -- each event has the number of its first line after the start offset, the source's id, the
  -- group's text as its payload with the hash of it, ports of sixteen bits and a message of at
  -- most 2000 characters; and there are no more events than the budget.
  pub run-IsDelivery :
      (lines : List Text) (events : List NormalizedEvent)
      → run lib processor request lines ≡ ok events
      → IsDelivery lines events
  unfolding run
  run-IsDelivery lines events h =
      let (_, first, rest) = >>=-ok (lift_limit (check_event_limit 0 request.max_events)) _ h in
      let (logical, second, last) =
        >>=-ok
          (lift_limit
            (logical_events lib.chars (is_log4j lib processor request) lines request.max_events))
          _ rest in
      let grouped = lift_limit-ok _ logical second in
      let delivered = events_of-Delivers logical events last in
      record {
        logical = logical;
        grouping =
            logical_events-IsGrouping lib.chars lines (is_log4j lib processor request)
              request.max_events logical grouped;
        delivered = delivered;
        within = λ maximum e. omega (
          arith,
          Delivers-length logical events delivered,
          within_budget lines logical request.max_events (lift_limit-ok _ tt first) grouped maximum
              e,
        );
      }
