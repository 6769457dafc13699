-- ===== src/Pipeline/Budget.antt =====
-- The budget of `_logical_events` of ulpf/pipeline.py: what `max_events` changes.
use ocsf_forge.Prelude.{
  ℕ, suc, ◌+◌, ◌≤◌, ◌<◌, ◌≡◌, refl, ap, ◌↔◌, inl, inr, Bool, true, false, Option, none, some, List,
  [], ◌∷◌, ◌++◌, length, length-append, is_nil, ok, raise, >>=-ok, ok-injective, arith, ltb, leb,
  ◌==◌, Bool-cases, split_if,
}
use ocsf_forge.Text.{Text, CharClass}
use ocsf_forge.Parsing.Limits.{input_limit, check_event_limit}
use ocsf_forge.Pipeline.LogicalEvents.{
  Grouping, no_lines, closed, is_blank, continues, opened, step, group_from, logical_events,
}

module _ (chars : CharClass) (is_log4j : Text → Bool) where
  total : Grouping → ℕ
  total g = length (closed g)

  total-opened :
      (g : Grouping) (index : ℕ) (line : Text)
      → total (opened chars is_log4j g index line) ≡ suc (total g)
  unfolding total
  total-opened g index line = omega (arith, length-append (closed g) ((index, line) ∷ []))

  is_nil-snoc : (ts : List Text) (t : Text) → is_nil (ts ++ t ∷ []) ≡ false
  is_nil-snoc [] t = refl
  is_nil-snoc (u ∷ ts) t = refl

  length-snoc :
      (events : List (ℕ × Text)) (e f : ℕ × Text)
      → length (events ++ e ∷ []) ≡ length (events ++ f ∷ [])
  length-snoc events e f =
      omega (arith, length-append events (e ∷ []), length-append events (f ∷ []))

  continues-chunks :
      (g : Grouping) (line : Text) → continues chars g line ≡ true → is_nil g.chunks ≡ false
  continues-chunks g line h = ground (arith, h)

  total-joined :
      (g : Grouping) (line : Text)
      → continues chars g line ≡ true
      → total (record g { chunks = g.chunks ++ line ∷ [] }) ≡ total g
  unfolding total
  total-joined g line h =
      rw (is_nil-snoc g.chunks line, continues-chunks g line h) (length-snoc g.events _ _)

  total_lem : (g : Grouping) → total g ≡ length (closed g)
  unfolding total
  total_lem g = refl

  -- The loop never drops an event.
  total-le :
      (maximum : Option ℕ) (lines : List Text) (g : Grouping) (index : ℕ) (events : List (ℕ × Text))
      → group_from chars is_log4j maximum g index lines ≡ ok events
      → total g ≤ length events
  unfolding group_from step
  total-le maximum [] g index events h = omega (arith, total_lem g, ap length (ok-injective h))
  total-le maximum (line ∷ lines) g index events h =
      let (next, stepped, rest) = >>=-ok (step chars is_log4j maximum g index line) _ h in
      let recur = total-le maximum lines next (suc index) events rest in
      split_if (continues chars g line) stepped
        (λ joined k. omega (arith, total-joined g line joined, ap total (ok-injective k), recur))
        (λ _ k.
          split_if (is_blank chars line) k
            (λ blank k. omega (arith, ap total (ok-injective k), recur))
            (λ full k.
              let (_, _, e) = >>=-ok (check_event_limit (length (closed g) + 1) maximum) _ k in
              omega (arith, total-opened g index line, ap total (ok-injective e), recur)))

  module _ (maximum : ℕ) (positive : 0 < maximum) where
    check_ok : (n : ℕ) → n ≤ maximum → check_event_limit n (some maximum) ≡ ok tt
    unfolding check_event_limit
    check_ok n h = rw (positive_test, fits) refl
      where
        positive_test : (maximum == 0) ≡ false
        positive_test = ground arith

        fits : ltb maximum n ≡ false
        fits = ground arith

    check_raise : (n : ℕ) → maximum < n → check_event_limit n (some maximum) ≡ raise input_limit
    unfolding check_event_limit
    check_raise n h = rw (positive_test, over) refl
      where
        positive_test : (maximum == 0) ≡ false
        positive_test = ground arith

        over : ltb maximum n ≡ true
        over = ground arith

    check_none : (n : ℕ) → check_event_limit n none ≡ ok tt
    unfolding check_event_limit
    check_none n = refl

    WithinIff : Grouping → ℕ → List Text → List (ℕ × Text) → Type 0
    WithinIff g index lines events =
        (group_from chars is_log4j (some maximum) g index lines ≡ ok events)
        ↔ ((group_from chars is_log4j none g index lines ≡ ok events) × (length events ≤ maximum))

    -- The check before a new event, with a budget and without.
    within_opened :
        (g : Grouping) (index : ℕ) (line : Text) (lines : List Text) (events : List (ℕ × Text))
        → continues chars g line ≡ false
        → is_blank chars line ≡ false
        → (suc (total g) ≤ maximum
            → WithinIff (opened chars is_log4j g index line) (suc index) lines events)
        → WithinIff g index (line ∷ lines) events
    unfolding WithinIff group_from step total
    within_opened g index line lines events fresh full recur =
        elim (Bool-cases (leb (total g + 1) maximum)) [
          | inl fits ↦
              rw
                (
                  fresh,
                  full,
                  check_none (length (closed g) + 1),
                  check_ok (length (closed g) + 1) (ground (arith, fits)),
                )
                (recur (ground (arith, fits)))
          | inr over ↦
              rw
                (
                  fresh,
                  full,
                  check_none (length (closed g) + 1),
                  check_raise (length (closed g) + 1) (ground (arith, over)),
                )
                (
                  (λ h. cc),
                  λ (h, le). absurd (
                      ground (
                        arith,
                        over,
                        le,
                        total-opened g index line,
                        total-le none lines (opened chars is_log4j g index line) (suc index) events
                            h,
                      )),
                )
        ]

    within :
        (lines : List Text) (g : Grouping) (index : ℕ) (events : List (ℕ × Text))
        → total g ≤ maximum
        → WithinIff g index lines events
    unfolding WithinIff group_from step
    within [] g index events le =
        ((λ h. (h, omega (arith, total_lem g, ap length (ok-injective h)))), λ (h, _). h)
    within (line ∷ lines) g index events le = elim (Bool-cases (continues chars g line)) [
      | inl joined ↦ rw joined (
          within lines (record g { chunks = g.chunks ++ line ∷ [] }) (suc index) events
            (omega (arith, le, total-joined g line joined)))
      | inr fresh ↦ elim (Bool-cases (is_blank chars line)) [
        | inl blank ↦ rw (fresh, blank) (within lines g (suc index) events le)
        | inr full ↦ within_opened g index line lines events fresh full (λ fits.
            within lines (opened chars is_log4j g index line) (suc index) events
              (omega (arith, fits, total-opened g index line)))
      ]
    ]

    -- With a budget of at least one event, a document is accepted exactly if it has no more events
    -- than the budget, and then the events are those without a budget.
    pub logical_events_iff :
        (lines : List Text) (events : List (ℕ × Text))
        → (logical_events chars is_log4j lines (some maximum) ≡ ok events)
          ↔ ((logical_events chars is_log4j lines none ≡ ok events) × (length events ≤ maximum))
    unfolding logical_events WithinIff
    logical_events_iff lines events =
        within lines no_lines 0 events (omega (arith, total_lem no_lines))
