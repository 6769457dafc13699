-- ===== src/Detection/Refinement.antt =====
-- The loop of `evaluate` (ulpf/detection/rules.py) implements its specification.
use mathlib.Core.Path.{subst}
use ocsf_forge.Prelude.{
  ℕ, ◌+◌, ◌-◌, ◌≤◌, ◌≡◌, refl, sym, ap, ◌∙◌, Bool, true, false, not, ◌&&◌, ◌||◌, List, [], ◌∷◌,
  ◌++◌, keep, keep-congr, count_if, length, All, All-map, All-append, All-keep, All-of, arith, leb,
  ltb, ◌==◌, ==_iff, Bool-cases, inl, inr,
}
use ocsf_forge.Text.{text_eq, text_eq_iff}
use ocsf_forge.Detection.Settings.{DetectionSettings}
use ocsf_forge.Detection.Events.{AuthenticationEvent}
use ocsf_forge.Detection.Counter.{Tracks-append, tally}
use ocsf_forge.Detection.Rules.{
  is_failure, same_pair, in_scope, prune, Windows, View, no_windows, window, skips, pruned,
  appended, stored, alerts, run,
}
use ocsf_forge.Detection.Sorted.{IsSorted, IsSorted-append}
use ocsf_forge.Detection.Keys.{same_pair_congr, same_pair_refl, in_scope_congr, in_scope_refl}
use ocsf_forge.Detection.Window.{
  held, Follows, Follows-nil, content-prune, counted-prune, Follows-skip, Follows-store,
  Follows-store_failure, keep-append_in,
}
use ocsf_forge.Detection.Specification.{recent, triggered, in_range, all_triggered}

count_split :
    (now : ℕ) (l : List AuthenticationEvent)
    → All (λ x. x.timestamp ≤ now) l
    → count_if (λ x. x.timestamp == now) l + count_if (λ x. ltb x.timestamp now) l ≡ length l
count_split now [] h = refl
count_split now (x ∷ l) (h, hs) = ground (arith, count_split now l hs)

held_reaches :
    (a b : Bool) (x w t start stop : ℕ)
    → x ≤ t
    → (leb start t && ltb t stop) ≡ true
    → ((a && b && not (ltb (x + w) start || leb stop x)) && leb t (x + w))
      ≡ ((a && b) && leb t (x + w))
held_reaches a b x w t start stop le inside = ground arith

module _ (config : DetectionSettings) (start stop : ℕ) where
  -- The state of the loop after `past`, at the time `now`.
  record Invariant (w : Windows) (past : List AuthenticationEvent) (now : ℕ) : Type 0 where
    by_pair :
        Follows same_pair
          (skips config start stop)
          (window config start stop)
          ◌==◌
          ==_iff
          (λ x. x.timestamp)
          w.pairs
          w.pair_times
          past
          now
    by_scope :
        Follows in_scope
          (skips config start stop)
          (window config start stop)
          text_eq
          text_eq_iff
          (λ x. x.user)
          w.sources
          w.users
          past
          now
    sorted : IsSorted past
    reached : All (λ x. x.timestamp ≤ now) past

  Invariant-start : Invariant no_windows [] 0
  Invariant-start = record {
    by_pair = Follows-nil _ _ _ _ _ _;
    by_scope = Follows-nil _ _ _ _ _ _;
    sorted = tt;
    reached = tt;
  }

  -- Between an event of the range and its window, nothing was passed over.
  held-recent :
      (near : AuthenticationEvent → AuthenticationEvent → Bool) (e : AuthenticationEvent)
      (past : List AuthenticationEvent)
      → in_range config start stop e ≡ true
      → All (λ x. x.timestamp ≤ e.timestamp) past
      → keep (held near (skips config start stop) (window config start stop) e e.timestamp) past
        ≡ recent config start stop near e past
  held-recent near e past inside earlier = keep-congr _ _ past (
      All-map _ _
        (λ x le.
          held_reaches (is_failure x) (near x e) x.timestamp (window config start stop) e.timestamp
            start stop le inside)
        past earlier)

  recent-append :
      (near : AuthenticationEvent → AuthenticationEvent → Bool) (e : AuthenticationEvent)
      (past : List AuthenticationEvent)
      → near e e ≡ true
      → is_failure e ≡ true
      → recent config start stop near e (past ++ e ∷ [])
        ≡ recent config start stop near e past ++ e ∷ []
  recent-append near e past reflexive fails = keep-append_in _ past e (ground arith)

  module _ {w : Windows} {past : List AuthenticationEvent} {now : ℕ} (inv : Invariant w past now)
      (e : AuthenticationEvent) (later : now ≤ e.timestamp) where
    reached_later : All (λ x. x.timestamp ≤ e.timestamp) past
    reached_later =
        All-map (λ x. x.timestamp ≤ now) (λ x. x.timestamp ≤ e.timestamp) (λ x h. omega arith) past
          inv.reached

    IsSorted-extended : IsSorted (past ++ e ∷ [])
    IsSorted-extended = IsSorted-append past e inv.sorted reached_later

    reached_append : All (λ x. x.timestamp ≤ e.timestamp) (past ++ e ∷ [])
    reached_append = All-append _ past (e ∷ []) reached_later (omega arith, tt)

    Invariant-skip : skips config start stop e ≡ true → Invariant w (past ++ e ∷ []) e.timestamp
    Invariant-skip h = record {
      by_pair = Follows-skip _ _ _ _ _ _ inv.by_pair inv.sorted e later h;
      by_scope = Follows-skip _ _ _ _ _ _ inv.by_scope inv.sorted e later h;
      sorted = IsSorted-extended;
      reached = reached_append;
    }

    module _ (taken : skips config start stop e ≡ false) where
      abbrev view : View
      view = appended e (pruned (window config start stop) w e)

      Invariant-store_failure :
          is_failure e ≡ true → Invariant (stored e view w) (past ++ e ∷ []) e.timestamp
      unfolding stored appended pruned
      Invariant-store_failure fails = rw fails (record {
        by_pair =
            Follows-store_failure _ _ _ _ _ _ inv.by_pair inv.sorted e later same_pair_congr taken
              fails;
        by_scope =
            Follows-store_failure _ _ _ _ _ _ inv.by_scope inv.sorted e later in_scope_congr taken
              fails;
        sorted = IsSorted-extended;
        reached = reached_append;
      })

      Invariant-store_success :
          is_failure e ≡ false → Invariant (stored e view w) (past ++ e ∷ []) e.timestamp
      unfolding stored appended pruned
      Invariant-store_success calm = rw calm (record {
        by_pair =
            Follows-store _ _ _ _ _ _ inv.by_pair inv.sorted e later same_pair_congr taken calm;
        by_scope =
            Follows-store _ _ _ _ _ _ inv.by_scope inv.sorted e later in_scope_congr taken calm;
        sorted = IsSorted-extended;
        reached = reached_append;
      })

      module _ (inside : in_range config start stop e ≡ true) where
        abbrev own : List AuthenticationEvent
        own =
            (prune ◌==◌ (λ x. x.timestamp) (window config start stop) e.timestamp (w.pairs e)
              (w.pair_times e)).0

        own-recent : own ≡ recent config start stop same_pair e past
        own-recent =
            content-prune _ _ _ _ _ _ inv.by_pair inv.sorted e later
            ∙ held-recent same_pair e past inside reached_later

        abbrev all_users : List AuthenticationEvent
        all_users =
            (prune text_eq (λ x. x.user) (window config start stop) e.timestamp (w.sources e)
              (w.users e)).0

        all_users-recent : all_users ≡ recent config start stop in_scope e past
        all_users-recent =
            content-prune _ _ _ _ _ _ inv.by_scope inv.sorted e later
            ∙ held-recent in_scope e past inside reached_later

        alerts-failure :
            is_failure e ≡ true → alerts config e view ≡ triggered config start stop e past
        unfolding alerts triggered appended pruned
        alerts-failure fails =
            let p : own ++ e ∷ [] ≡ recent config start stop same_pair e (past ++ e ∷ []) =
              ap (λ q. q ++ e ∷ []) own-recent
              ∙ sym (recent-append same_pair e past (same_pair_refl e) fails) in
            let s : all_users ++ e ∷ [] ≡ recent config start stop in_scope e (past ++ e ∷ []) =
              ap (λ q. q ++ e ∷ []) all_users-recent
              ∙ sym (recent-append in_scope e past (in_scope_refl e) fails) in
            let d =
              (Tracks-append text_eq text_eq_iff (λ x. x.user) e _ _
                (counted-prune _ _ _ _ _ _ inv.by_scope inv.sorted e later)).size in
            rw (fails, d, p, s)

        alerts-success :
            is_failure e ≡ false → alerts config e view ≡ triggered config start stop e past
        unfolding alerts triggered appended pruned
        alerts-success calm =
            let t =
              (counted-prune _ _ _ _ _ _ inv.by_pair inv.sorted e later).tallies e.timestamp in
            let before : All (λ x. x.timestamp ≤ e.timestamp) own =
              subst (λ q. All (λ x. x.timestamp ≤ e.timestamp) q) (sym own-recent)
                (All-keep _ _ past reached_later) in
            let n = count_split e.timestamp own before in
            let c : length own
                  - tally ◌==◌ e.timestamp
                      (prune ◌==◌ (λ x. x.timestamp) (window config start stop) e.timestamp
                        (w.pairs e) (w.pair_times e)).1
                ≡ count_if (λ x. ltb x.timestamp e.timestamp) own =
              omega (arith, t, n) in
            rw (calm, c, own-recent)

      Invariant-store : Invariant (stored e view w) (past ++ e ∷ []) e.timestamp
      Invariant-store = elim (Bool-cases (is_failure e)) [
        | inl fails ↦ Invariant-store_failure fails
        | inr calm ↦ Invariant-store_success calm
      ]

      alerts-triggered :
          in_range config start stop e ≡ true
          → alerts config e view ≡ triggered config start stop e past
      alerts-triggered inside = elim (Bool-cases (is_failure e)) [
        | inl fails ↦ alerts-failure inside fails
        | inr calm ↦ alerts-success inside calm
      ]

  skips-outside :
      (e : AuthenticationEvent)
      → skips config start stop e ≡ true
      → in_range config start stop e ≡ false
  skips-outside e h = ground arith

  early-outside :
      (e : AuthenticationEvent)
      → ltb e.timestamp start ≡ true
      → in_range config start stop e ≡ false
  early-outside e h = ground arith

  taken-inside :
      (e : AuthenticationEvent)
      → skips config start stop e ≡ false
      → ltb e.timestamp start ≡ false
      → in_range config start stop e ≡ true
  taken-inside e h k = ground arith

  run-all_triggered :
      (w : Windows) (past l : List AuthenticationEvent) (now : ℕ)
      → Invariant w past now
      → IsSorted l
      → All (λ x. now ≤ x.timestamp) l
      → run config start stop w l ≡ all_triggered config start stop past l
  unfolding run all_triggered
  run-all_triggered w past [] now inv h k = refl
  run-all_triggered w past (e ∷ l) now inv (h, hs) (k, ks) =
      elim (Bool-cases (skips config start stop e)) [
        | inl passed ↦
            rw (passed, skips-outside e passed)
              (run-all_triggered w (past ++ e ∷ []) l e.timestamp (Invariant-skip inv e k passed) hs
                h)
        | inr taken ↦
            let rest =
              run-all_triggered (stored e (view inv e k taken) w) (past ++ e ∷ []) l e.timestamp
                (Invariant-store inv e k taken) hs h in
            elim (Bool-cases (ltb e.timestamp start)) [
              | inl early ↦ rw (taken, early, early-outside e early) rest
              | inr timely ↦
                  let inside = taken-inside e taken timely in
                  rw (taken, timely, inside)
                    (ap (λ q. q ++ run config start stop (stored e (view inv e k taken) w) l)
                        (alerts-triggered inv e k taken inside)
                      ∙ ap (λ q. triggered config start stop e past ++ q) rest)
            ]
      ]

-- From empty windows and events in the order of time, the loop with its pruned deques and counters
-- emits exactly what the specification triggers: for each event of the range, in order, what the
-- failures of the last window among all events before it call for.
pub run-eq-all_triggered :
    (config : DetectionSettings) (start stop : ℕ) (l : List AuthenticationEvent)
    → IsSorted l
    → run config start stop no_windows l ≡ all_triggered config start stop [] l
run-eq-all_triggered config start stop l h =
    run-all_triggered config start stop no_windows [] l 0 (Invariant-start config start stop) h
      (All-of _ (λ x. omega arith) l)
