-- ===== src/Detection/Window.antt =====
-- The deques of ulpf/detection/rules.py hold the failures of the last window: one of the two dicts
-- of deques (by pair or by scope) with its dict of counters, followed through one round of the loop.
use mathlib.Core.Path.{subst}
use mathlib.Core.List.{append-nil}
use ocsf_forge.Prelude.{
  ℕ, ◌+◌, ◌≤◌, ◌≡◌, refl, sym, ap, ◌∙◌, ◌↔◌, Bool, true, false, not, ◌&&◌, List, [], ◌∷◌, ◌++◌,
  keep, keep-append, keep-keep, keep-congr, All, All-of, arith, leb, ltb, Bool-cases, inl, inr,
  if◌then◌else◌,
}
use ocsf_forge.Detection.Events.{AuthenticationEvent}
use ocsf_forge.Detection.Counter.{
  Counter, Tracks, Tracks-nil, Tracks-tail, Tracks-append, increment, decrement,
}
use ocsf_forge.Detection.Rules.{is_failure, prune, store}
use ocsf_forge.Detection.Sorted.{Later, IsSorted, IsSorted-keep}

-- The events that the window at `now` still reaches.
abbrev pub reaches : ℕ → ℕ → AuthenticationEvent → Bool
reaches window now x = leb now (x.timestamp + window)

module _ {K : Type 0} (same : K → K → Bool) (same_iff : (a b : K) → (same a b ≡ true) ↔ (a ≡ b))
    (key : AuthenticationEvent → K) (window now : ℕ) where
  keep-All :
      (x : AuthenticationEvent) (l : List AuthenticationEvent)
      → All (Later x) l
      → reaches window now x ≡ true
      → keep (reaches window now) l ≡ l
  keep-All x [] k h = refl
  keep-All x (y ∷ l) (k, ks) h = ground (arith, keep-All x l ks h)

  -- On a deque in the order of time, `prune` removes what the window does not reach.
  pub prune-keep :
      (queue : List AuthenticationEvent) (c : Counter K)
      → IsSorted queue
      → (prune same key window now queue c).0 ≡ keep (reaches window now) queue
  unfolding prune
  prune-keep [] c h = refl
  prune-keep (old ∷ queue) c (h, hs) =
      ground (arith, prune-keep queue (decrement same (key old) c) hs, keep-All old queue h)

  pub prune-Tracks :
      (queue : List AuthenticationEvent) (c : Counter K)
      → Tracks same same_iff key queue c
      → Tracks same same_iff key
          (prune same key window now queue c).0
          (prune same key window now queue c).1
  unfolding prune
  prune-Tracks [] c t = t
  prune-Tracks (old ∷ queue) c t = elim (Bool-cases (ltb (old.timestamp + window) now)) [
    | inl out ↦ rw out (
        prune-Tracks queue (decrement same (key old) c)
          (Tracks-tail same same_iff key old queue c t))
    | inr in_ ↦ rw in_ t
  ]

module _ {ℓ} {A : Type ℓ} (p : A → Bool) (xs : List A) (x : A) where
  pub keep-append_out : p x ≡ false → keep p (xs ++ x ∷ []) ≡ keep p xs
  keep-append_out h = keep-append p xs (x ∷ []) ∙ rw h (append-nil (keep p xs))

  pub keep-append_in : p x ≡ true → keep p (xs ++ x ∷ []) ≡ keep p xs ++ x ∷ []
  keep-append_in h = keep-append p xs (x ∷ []) ∙ rw h

reaches_later : (b : Bool) (t n s : ℕ) → t ≤ n → ((b && leb t s) && leb n s) ≡ (b && leb n s)
reaches_later b t n s h = ground arith

-- One dict of deques with its counters. `near` tells which events share a key of the dict, and
-- `skips` which events the loop passes over.
module _ (near : AuthenticationEvent → AuthenticationEvent → Bool)
    (skips : AuthenticationEvent → Bool) (window : ℕ) where
  -- The failures that the deque of `k` holds when it was last pruned at `t`.
  abbrev pub held : AuthenticationEvent → ℕ → AuthenticationEvent → Bool
  held k t x = (is_failure x && near x k && not (skips x)) && reaches window t x

  module _ {K : Type 0} (same : K → K → Bool) (same_iff : (a b : K) → (same a b ≡ true) ↔ (a ≡ b))
      (key : AuthenticationEvent → K) where
    pub record Follows (queues : AuthenticationEvent → List AuthenticationEvent)
        (counters : AuthenticationEvent → Counter K) (past : List AuthenticationEvent) (now : ℕ)
        : Type 0 where
      pub content :
          (k : AuthenticationEvent) → (t : ℕ) × (t ≤ now) × (queues k ≡ keep (held k t) past)
      pub counted : (k : AuthenticationEvent) → Tracks same same_iff key (queues k) (counters k)

    pub Follows-nil : Follows (λ k. []) (λ k. []) [] 0
    Follows-nil = record {
      content = λ k. (0, omega arith, refl);
      counted = λ k. Tracks-nil same same_iff key;
    }

    module _ {queues : AuthenticationEvent → List AuthenticationEvent}
        {counters : AuthenticationEvent → Counter K} {past : List AuthenticationEvent} {now : ℕ}
        (f : Follows queues counters past now) (sorted : IsSorted past) (e : AuthenticationEvent)
        (later : now ≤ e.timestamp) where
      IsSorted-queue : IsSorted (queues e)
      IsSorted-queue =
          subst IsSorted (sym (f.content e).2) (IsSorted-keep (held e (f.content e).0) past sorted)

      -- What the pruned deque holds.
      pub content-prune :
          (prune same key window e.timestamp (queues e) (counters e)).0
          ≡ keep (held e e.timestamp) past
      content-prune =
          let t : ℕ = (f.content e).0 in
          prune-keep same same_iff key window e.timestamp (queues e) (counters e) IsSorted-queue
          ∙ ap (keep (reaches window e.timestamp)) (f.content e).2
          ∙ keep-keep (reaches window e.timestamp) (held e t) past
          ∙ keep-congr (λ x. held e t x && reaches window e.timestamp x) (held e e.timestamp) past
              (All-of _
                (λ x.
                  reaches_later (is_failure x && near x e && not (skips x)) t e.timestamp
                    (x.timestamp + window) (ground (arith, (f.content e).1)))
                past)

      pub counted-prune :
          Tracks same same_iff key
            (prune same key window e.timestamp (queues e) (counters e)).0
            (prune same key window e.timestamp (queues e) (counters e)).1
      counted-prune =
          prune-Tracks same same_iff key window e.timestamp (queues e) (counters e) (f.counted e)

      untouched :
          (k : AuthenticationEvent)
          → (is_failure e && near e k && not (skips e)) ≡ false
          → (t : ℕ) × (t ≤ e.timestamp) × (queues k ≡ keep (held k t) (past ++ e ∷ []))
      untouched k out =
          let (t, le, same_queue) = f.content k in
          (
            t,
            omega (arith, le),
            same_queue ∙ sym (keep-append_out (held k t) past e (ground (arith, out))),
          )

      -- An event that the loop passes over changes nothing.
      pub Follows-skip : skips e ≡ true → Follows queues counters (past ++ e ∷ []) e.timestamp
      Follows-skip h = record { content = λ k. untouched k (ground arith); counted = f.counted }

      module _ (near_congr : (a k x : AuthenticationEvent) → near a k ≡ true → near x a ≡ near x k)
          (taken : skips e ≡ false) where
        moved :
            (k : AuthenticationEvent)
            → near e k ≡ true
            → keep (held e e.timestamp) past ≡ keep (held k e.timestamp) past
        moved k h = keep-congr (held e e.timestamp) (held k e.timestamp) past (
            All-of _
              (λ x.
                ap (λ b. (is_failure x && b && not (skips x)) && reaches window e.timestamp x)
                  (near_congr e k x h))
              past)

        -- A new deque and counter for the key of the event.
        Follows-put :
            (v : List AuthenticationEvent) (c : Counter K)
            → Tracks same same_iff key v c
            → ((k : AuthenticationEvent)
                → near e k ≡ true
                → v ≡ keep (held k e.timestamp) (past ++ e ∷ []))
            → Follows (store near e v queues) (store near e c counters) (past ++ e ∷ []) e.timestamp
        Follows-put v c tracks fresh = record {
          content = λ k. elim (Bool-cases (near e k)) [
            | inl hit ↦ (e.timestamp, omega arith, rw hit (fresh k hit))
            | inr miss ↦
                let (t, le, same_queue) = untouched k (ground arith) in (t, le, rw miss same_queue)
          ];
          counted = λ k.
              elim (near e k)
                as (λ b.
                  Tracks same same_iff key (if b then v else queues k)
                    (if b then c else counters k)) [ true ↦ tracks | false ↦ f.counted k ];
        }

        -- An event that is no failure prunes the deque of its key.
        pub Follows-store :
            is_failure e ≡ false
            → Follows
                (store near e (prune same key window e.timestamp (queues e) (counters e)).0 queues)
                (store near e
                  (prune same key window e.timestamp (queues e) (counters e)).1
                  counters)
                (past ++ e ∷ [])
                e.timestamp
        Follows-store calm = Follows-put _ _ counted-prune λ k hit.
            content-prune
            ∙ moved k hit
            ∙ sym (keep-append_out (held k e.timestamp) past e (ground arith))

        -- A failure is also appended to it and counted.
        pub Follows-store_failure :
            is_failure e ≡ true
            → Follows
                (store near e
                  ((prune same key window e.timestamp (queues e) (counters e)).0 ++ e ∷ [])
                  queues)
                (store near e
                  (increment same
                    (key e)
                    (prune same key window e.timestamp (queues e) (counters e)).1)
                  counters)
                (past ++ e ∷ [])
                e.timestamp
        Follows-store_failure fails =
            Follows-put _ _ (Tracks-append same same_iff key e _ _ counted-prune) λ k hit.
              ap (λ q. q ++ e ∷ []) (content-prune ∙ moved k hit)
              ∙ sym (keep-append_in (held k e.timestamp) past e (ground arith))
