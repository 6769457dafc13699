-- ===== src/Pipeline/Grouped.antt =====
-- The events of `_logical_events` of ulpf/pipeline.py against the lines of the document.
use mathlib.Core.List.{append_assoc, append-nil}
use mathlib.Core.Path.{subst}
use ocsf_forge.Prelude.{
  ℕ, suc, ◌+◌, ◌≤◌, ◌<◌, ◌≡◌, refl, sym, ap, ◌∙◌, inl, inr, Bool, true, false, not, Option, some,
  List, [], ◌∷◌, ◌++◌, map, length, keep, keep-append, drop, at, drop-at, is_nil, All, ok, >>=-ok,
  ok-injective, arith, Bool-cases, split_if, if◌then◌else◌,
}
use ocsf_forge.Text.{Text, CharClass}
use ocsf_forge.Parsing.Limits.{check_event_limit}
use ocsf_forge.Pipeline.LogicalEvents.{
  join_lines, Grouping, no_lines, closed, is_blank, continues, opened, step, group_from,
  logical_events,
}

-- The number of an event's first line, and its lines.
abbrev pub Group : Type 0
Group = ℕ × List Text

abbrev pub rendered : Group → ℕ × Text
rendered (o, lines) = (o, join_lines lines)

abbrev pub all_lines : List Group → List Text
all_lines [] = []
all_lines ((o, lines) ∷ groups) = lines ++ all_lines groups

-- The offsets increase, from the given one on.
abbrev pub Ascends : ℕ → List Group → Type 0
Ascends low [] = Unit
Ascends low ((o, lines) ∷ groups) = (low ≤ o) × Ascends (suc o) groups

pub Ascends-weaken :
    (low high : ℕ) (groups : List Group) → low ≤ high → Ascends high groups → Ascends low groups
Ascends-weaken low high [] le a = tt
Ascends-weaken low high ((o, lines) ∷ groups) le (h, a) = (omega arith, a)

module _ (chars : CharClass) (input : List Text) where
  -- A group starts with a line that is not blank, and this line has the group's offset.
  abbrev pub IsPlaced : Group → Type 0
  IsPlaced (o, lines) =
      (first : Text) × (rest : List Text) × (lines ≡ first ∷ rest)
      × (at input o ≡ some first)
      × (is_blank chars first ≡ false)

  abbrev pub filled : Text → Bool
  filled line = not (is_blank chars line)

  -- The groups of a document: in order, each where it stands, and no line lost or made up.
  pub record IsGrouping (events : List (ℕ × Text)) : Type 0 where
    pub groups : List Group
    pub rendering : events ≡ map rendered groups
    pub placed : All IsPlaced groups
    pub ascending : Ascends 0 groups
    pub conserved : keep filled (all_lines groups) ≡ keep filled input

  -- The same of the groups that the loop adds to a state, with the rest of the lines.
  record IsContinuation (g : Grouping) (index : ℕ) (lines : List Text) (events : List (ℕ × Text))
      : Type 0 where
    groups : List Group
    rendering : events ≡ g.events ++ map rendered groups
    placed : All IsPlaced groups
    ascending : Ascends (if is_nil g.chunks then index else g.offset) groups
    conserved : keep filled (all_lines groups) ≡ keep filled (g.chunks ++ lines)

  -- The chunks are a group that starts before the line in turn.
  IsOpen : Grouping → ℕ → Type 0
  IsOpen g index = is_nil g.chunks ≡ false → (g.offset < index) × IsPlaced (g.offset, g.chunks)

  closed-none : (g : Grouping) → is_nil g.chunks ≡ true → closed g ≡ g.events
  closed-none g h = rw h refl

  closed-some :
      (g : Grouping)
      → is_nil g.chunks ≡ false
      → closed g ≡ g.events ++ (g.offset, join_lines g.chunks) ∷ []
  closed-some g h = rw h refl

  is_nil-nil : (ts : List Text) → is_nil ts ≡ true → ts ≡ []
  is_nil-nil [] h = refl
  is_nil-nil (t ∷ ts) h = cc

  is_nil-snoc : (ts : List Text) (t : Text) → is_nil (ts ++ t ∷ []) ≡ false
  is_nil-snoc [] t = refl
  is_nil-snoc (u ∷ ts) t = refl

  starts-weaken :
      (b : Bool) (index offset : ℕ) (groups : List Group)
      → Ascends (if b then suc index else offset) groups
      → Ascends (if b then index else offset) groups
  starts-weaken true index offset groups a = Ascends-weaken index (suc index) groups (omega arith) a
  starts-weaken false index offset groups a = a

  keep-blank :
      (line : Text) (lines : List Text)
      → is_blank chars line ≡ true
      → (ts : List Text) → keep filled (ts ++ line ∷ lines) ≡ keep filled (ts ++ lines)
  keep-blank line lines blank [] = rw blank refl
  keep-blank line lines blank (t ∷ ts) =
      ap (λ ls. if filled t then t ∷ ls else ls) (keep-blank line lines blank ts)

  -- At the end of the lines.
  at_end : (g : Grouping) (index : ℕ) → IsOpen g index → IsContinuation g index [] (closed g)
  unfolding IsOpen
  at_end g index is_open = elim (Bool-cases (is_nil g.chunks)) [
    | inl none_open ↦ record {
      groups = [];
      rendering = closed-none g none_open ∙ sym (append-nil g.events);
      placed = tt;
      ascending = tt;
      conserved = rw (is_nil-nil g.chunks none_open) refl;
    }
    | inr some_open ↦ record {
      groups = (g.offset, g.chunks) ∷ [];
      rendering = closed-some g some_open;
      placed = ((is_open some_open).1, tt);
      ascending = rw some_open (omega arith, tt);
      conserved = refl;
    }
  ]

  module _ (g : Grouping) (index : ℕ) (line : Text) (lines : List Text)
      (events : List (ℕ × Text)) where
    -- A continuation line.
    after_joined :
        is_nil g.chunks ≡ false
        → IsContinuation (record g { chunks = g.chunks ++ line ∷ [] }) (suc index) lines events
        → IsContinuation g index (line ∷ lines) events
    after_joined some_open c = record {
      groups = c.groups;
      rendering = c.rendering;
      placed = c.placed;
      ascending = rw some_open (
          subst (λ b. Ascends (if b then suc index else g.offset) c.groups)
            (is_nil-snoc g.chunks line) c.ascending);
      conserved = c.conserved ∙ ap (keep filled) (append_assoc g.chunks (line ∷ []) lines);
    }

    -- A blank line.
    after_blank :
        is_blank chars line ≡ true
        → IsContinuation g (suc index) lines events
        → IsContinuation g index (line ∷ lines) events
    after_blank blank c = record {
      groups = c.groups;
      rendering = c.rendering;
      placed = c.placed;
      ascending = starts-weaken (is_nil g.chunks) index g.offset c.groups c.ascending;
      conserved = c.conserved ∙ sym (keep-blank line lines blank g.chunks);
    }

    -- The first line of an event.
    after_opened :
        (is_log4j : Text → Bool)
        → IsOpen g index
        → IsContinuation (opened chars is_log4j g index line) (suc index) lines events
        → IsContinuation g index (line ∷ lines) events
    unfolding IsOpen
    after_opened is_log4j is_open c = elim (Bool-cases (is_nil g.chunks)) [
      | inl none_open ↦ record {
        groups = c.groups;
        rendering = c.rendering ∙ ap (λ e. e ++ map rendered c.groups) (closed-none g none_open);
        placed = c.placed;
        ascending = rw none_open c.ascending;
        conserved =
            c.conserved
            ∙ ap (λ x. keep filled (x ++ line ∷ lines)) (sym (is_nil-nil g.chunks none_open));
      }
      | inr some_open ↦ record {
        groups = (g.offset, g.chunks) ∷ c.groups;
        rendering =
            c.rendering
            ∙ ap (λ e. e ++ map rendered c.groups) (closed-some g some_open)
            ∙ append_assoc g.events _ (map rendered c.groups);
        placed = ((is_open some_open).1, c.placed);
        ascending =
            rw some_open
              (omega arith, Ascends-weaken _ index c.groups (is_open some_open).0 c.ascending);
        conserved =
            keep-append filled g.chunks (all_lines c.groups)
            ∙ ap (λ ls. keep filled g.chunks ++ ls) c.conserved
            ∙ sym (keep-append filled g.chunks (line ∷ lines));
      }
    ]

  module _ (is_log4j : Text → Bool) (max_events : Option ℕ) where
    continues-chunks :
        (g : Grouping) (line : Text) → continues chars g line ≡ true → is_nil g.chunks ≡ false
    continues-chunks g line h = ground (arith, h)

    IsOpen-opened :
        (g : Grouping) (index : ℕ) (line : Text) (lines : List Text)
        → drop index input ≡ line ∷ lines
        → is_blank chars line ≡ false
        → IsOpen (opened chars is_log4j g index line) (suc index)
    unfolding IsOpen
    IsOpen-opened g index line lines here full _ =
        (omega arith, (line, [], refl, (drop-at index input here).0, full))

    IsOpen-later : (g : Grouping) (index : ℕ) → IsOpen g index → IsOpen g (suc index)
    unfolding IsOpen
    IsOpen-later g index is_open some_open =
        let (before, placed) = is_open some_open in (omega (arith, before), placed)

    IsOpen-joined :
        (g : Grouping) (index : ℕ) (line : Text)
        → is_nil g.chunks ≡ false
        → IsOpen g index
        → IsOpen (record g { chunks = g.chunks ++ line ∷ [] }) (suc index)
    unfolding IsOpen
    IsOpen-joined g index line some_open is_open _ =
        let (before, (first, rest, e, there, full)) = is_open some_open in
        (
          omega (arith, before),
          (first, rest ++ line ∷ [], ap (λ ls. ls ++ line ∷ []) e, there, full),
        )

    grouped :
        (lines : List Text) (g : Grouping) (index : ℕ) (events : List (ℕ × Text))
        → drop index input ≡ lines
        → IsOpen g index
        → group_from chars is_log4j max_events g index lines ≡ ok events
        → IsContinuation g index lines events
    unfolding group_from step
    grouped [] g index events here is_open h =
        subst (IsContinuation g index []) (ok-injective h) (at_end g index is_open)
    grouped (line ∷ lines) g index events here is_open h =
        let (next, stepped, rest) = >>=-ok (step chars is_log4j max_events g index line) _ h in
        split_if (continues chars g line) stepped
          (λ joined k.
            let some_open = continues-chunks g line joined in
            after_joined g index line lines events some_open (
              grouped lines (record g { chunks = g.chunks ++ line ∷ [] }) (suc index) events
                (drop-at index input here).1 (IsOpen-joined g index line some_open is_open)
                (rw (ok-injective k) rest)))
          (λ _ k.
            split_if (is_blank chars line) k
              (λ blank k. after_blank g index line lines events blank (
                grouped lines g (suc index) events (drop-at index input here).1
                  (IsOpen-later g index is_open) (rw (ok-injective k) rest)))
              (λ full k.
                let (_, _, e) = >>=-ok (check_event_limit (length (closed g) + 1) max_events) _ k in
                after_opened g index line lines events is_log4j is_open (
                  grouped lines (opened chars is_log4j g index line) (suc index) events
                    (drop-at index input here).1 (IsOpen-opened g index line lines here full)
                    (rw (ok-injective e) rest))))

    -- If `_logical_events` returns, its events are the texts of groups of lines with increasing
    -- offsets; each group begins with a line that is not blank and has the group's offset; and the
    -- groups' lines, put together, are those of the document, blank lines apart.
    pub logical_events-IsGrouping :
        (events : List (ℕ × Text))
        → logical_events chars is_log4j input max_events ≡ ok events
        → IsGrouping events
    unfolding logical_events IsOpen
    logical_events-IsGrouping events h =
        let c = grouped input no_lines 0 events refl (λ e. absurd cc) h in
        record {
          groups = c.groups;
          rendering = c.rendering;
          placed = c.placed;
          ascending = c.ascending;
          conserved = c.conserved;
        }
