-- ===== src/Streaming/Committed.antt =====
-- What a committed offset of ulpf/streaming/worker.py says of the storage and the dead letters.
use mathlib.Core.Path.{subst}
use mathlib.Core.List.{append_assoc, append-nil}
use ocsf_forge.Prelude.{
  ℕ, zero, suc, ◌≤◌, ◌≡◌, refl, sym, ap, ◌∙◌, inl, inr, Bool, not, ◌||◌, List, [], ◌∷◌, ◌++◌,
  length, length-append, take, keep-append, is_nil, Result, ok, >>=-ok, Result-cases, ok-injective,
  arith, Bool-cases,
}
use ocsf_forge.Text.{Text}
use ocsf_forge.Models.{NormalizedEvent, IngestionResult}
use ocsf_forge.Streaming.Retry.{Round, Ending, done, stopped, running, retry}
use ocsf_forge.Streaming.Worker.{
  traverse, Turn, Worker, new_worker, Exit, goes_on, ends, is_complete, rejects, commit, deliver,
  after_ingest, turn, work, main,
}

pub take-append :
    {A : Type 0} (n : ℕ) (xs ys : List A) → n ≤ length xs → take n (xs ++ ys) ≡ take n xs
take-append zero xs ys h = refl
take-append (suc n) [] ys h = absurd (omega arith)
take-append (suc n) (x ∷ xs) ys h = ap (λ l. x ∷ l) (take-append n xs ys (omega arith))

pub take-length : {A : Type 0} (xs : List A) → take (length xs) xs ≡ xs
take-length [] = refl
take-length (x ∷ xs) = ap (λ l. x ∷ l) (take-length xs)

module _ {E Record : Type 0} (parse_record : Record → Result E NormalizedEvent) where
  traverse-append :
      (xs ys : List Record) (es fs : List NormalizedEvent)
      → traverse parse_record xs ≡ ok es
      → traverse parse_record ys ≡ ok fs
      → traverse parse_record (xs ++ ys) ≡ ok (es ++ fs)
  traverse-append [] ys es fs h k =
      subst (λ l. traverse parse_record ys ≡ ok (l ++ fs)) (ok-injective h) k
  traverse-append (x ∷ xs) ys es fs h k =
      let (e, first, rest) = >>=-ok (parse_record x) _ h in
      let (others, second, last) = >>=-ok (traverse parse_record xs) _ rest in
      rw (first, traverse-append xs ys others fs second k)
        (ap (λ l. ok (l ++ fs)) (ok-injective last))

  -- Each committed record is parsed to an event that the storage accepted, and that has its dead
  -- letter if it was rejected.
  pub record IsSafe (w : Worker Record) : Type 0 where
    pub events : List NormalizedEvent
    pub parsed : traverse parse_record (take w.committed w.polled) ≡ ok events
    pub stored_rest : List NormalizedEvent
    pub stores : w.stored ≡ events ++ stored_rest
    pub letters_rest : List NormalizedEvent
    pub letters : w.dead_letters ≡ rejects events ++ letters_rest

  -- At the head of the loop, every batch has been stored and its dead letters are out.
  record IsSettled (w : Worker Record) : Type 0 where
    bounded : w.committed ≤ length w.polled
    settled : traverse parse_record w.polled ≡ ok w.stored
    sent : w.dead_letters ≡ rejects w.stored
    safe : IsSafe w

  IsSafe-later :
      (w v : Worker Record) (es ds : List NormalizedEvent)
      → take v.committed v.polled ≡ take w.committed w.polled
      → v.stored ≡ w.stored ++ es
      → v.dead_letters ≡ w.dead_letters ++ ds
      → IsSafe w
      → IsSafe v
  IsSafe-later w v es ds same stores letters s = record {
    events = s.events;
    parsed = ap (traverse parse_record) same ∙ s.parsed;
    stored_rest = s.stored_rest ++ es;
    stores = stores ∙ ap (λ l. l ++ es) s.stores ∙ append_assoc s.events s.stored_rest es;
    letters_rest = s.letters_rest ++ ds;
    letters =
        letters ∙ ap (λ l. l ++ ds) s.letters ∙ append_assoc (rejects s.events) s.letters_rest ds;
  }

  -- A worker whose committed records are all that it polled.
  IsSafe-whole :
      (w : Worker Record)
      → traverse parse_record w.polled ≡ ok w.stored
      → w.dead_letters ≡ rejects w.stored
      → IsSafe (record w { committed = length w.polled })
  IsSafe-whole w settled sent = record {
    events = w.stored;
    parsed = ap (traverse parse_record) (take-length w.polled) ∙ settled;
    stored_rest = [];
    stores = sym (append-nil w.stored);
    letters_rest = [];
    letters = sent ∙ sym (append-nil (rejects w.stored));
  }

  IsSettled-commit :
      (status : Text) (w : Worker Record) → IsSettled w → IsSettled (commit parse_record status w)
  IsSettled-commit status w s = elim (Bool-cases (is_complete status)) [
    | inl complete ↦ rw complete (record {
      bounded = omega arith;
      settled = s.settled;
      sent = s.sent;
      safe = IsSafe-whole w s.settled s.sent;
    })
    | inr other ↦ rw other s
  ]

  HoldsAfter : Exit Record → Type 0
  HoldsAfter (goes_on w) = IsSettled w
  HoldsAfter (ends w) = IsSafe w

  module _ (w : Worker Record) (s : IsSettled w) (records : List Record) where
    still : take w.committed (w.polled ++ records) ≡ take w.committed w.polled
    still = take-append w.committed w.polled records s.bounded

    abbrev after_poll : Worker Record
    after_poll = record w { polled = w.polled ++ records }

    IsSafe-polled : IsSafe after_poll
    IsSafe-polled =
        IsSafe-later w after_poll [] [] still (sym (append-nil w.stored))
          (sym (append-nil w.dead_letters)) s.safe

    module _ (events : List NormalizedEvent)
        (parsed : traverse parse_record records ≡ ok events) where
      IsSafe-stored : IsSafe (record after_poll { stored = w.stored ++ events })
      IsSafe-stored =
          IsSafe-later w (record after_poll { stored = w.stored ++ events }) events [] still refl
            (sym (append-nil w.dead_letters)) s.safe

      abbrev after_letters : Worker Record
      after_letters = record after_poll {
        stored = w.stored ++ events;
        dead_letters = w.dead_letters ++ rejects events;
      }

      IsSettled-letters : IsSettled after_letters
      IsSettled-letters = record {
        bounded = omega (arith, s.bounded, length-append w.polled records);
        settled = traverse-append w.polled records w.stored events s.settled parsed;
        sent =
            ap (λ l. l ++ rejects events) s.sent
            ∙ sym (keep-append (λ e. not e.parse_success) w.stored events);
        safe = IsSafe-later w after_letters events (rejects events) still refl refl s.safe;
      }

      deliver-HoldsAfter :
          (acknowledged : Bool) (status : Text)
          → HoldsAfter (
              deliver parse_record acknowledged status events
                (record after_poll { stored = w.stored ++ events }))
      unfolding HoldsAfter
      deliver-HoldsAfter acknowledged status =
          elim (Bool-cases (is_nil (rejects events) || acknowledged)) [
            | inl sent ↦ rw sent (IsSettled-commit status after_letters IsSettled-letters)
            | inr lost ↦ rw lost IsSafe-stored
          ]

      ingest-HoldsAfter :
          (acknowledged : Bool) (ending : Ending IngestionResult)
          → HoldsAfter (after_ingest parse_record acknowledged ending events after_poll)
      unfolding HoldsAfter
      ingest-HoldsAfter acknowledged (done result) = deliver-HoldsAfter acknowledged result.status
      ingest-HoldsAfter acknowledged stopped = IsSafe-polled
      ingest-HoldsAfter acknowledged running = IsSafe-polled

  turn-HoldsAfter :
      (t : Turn Record) (w : Worker Record) → IsSettled w → HoldsAfter (turn parse_record t w)
  unfolding turn HoldsAfter
  turn-HoldsAfter t w s = elim (Bool-cases (is_nil t.records)) [
    | inl idle ↦ rw idle s
    | inr busy ↦ elim (Result-cases (traverse parse_record t.records)) [
      | inl (events, parsed) ↦
          rw (busy, parsed)
            (ingest-HoldsAfter w s t.records events parsed t.acknowledged (retry 30 1 t.rounds).1)
      | inr (e, failed) ↦ rw (busy, failed) (IsSafe-polled w s t.records)
    ]
  ]

  work-IsSafe :
      (turns : List (Turn Record)) (w : Worker Record)
      → IsSettled w
      → IsSafe (work parse_record turns w)
  unfolding work HoldsAfter
  work-IsSafe [] w s = s.safe
  work-IsSafe (t ∷ turns) w s =
      next (λ v h. work-IsSafe turns v h) (turn parse_record t w) (turn-HoldsAfter t w s)
    where
      next :
          ((v : Worker Record) → IsSettled v → IsSafe (work parse_record turns v))
          → (x : Exit Record) → HoldsAfter x
          → IsSafe (elim x [ goes_on v ↦ work parse_record turns v | ends v ↦ v ])
      next later (goes_on v) h = later v h
      next later (ends v) h = h

  IsSafe-new : IsSafe new_worker
  IsSafe-new = IsSafe-whole new_worker refl refl

  -- Whatever the polls, the storage, the broker and the stop signals do, each record that the worker
  -- has committed is parsed to an event of a batch that the storage accepted, and each of these
  -- events that is rejected has an acknowledged dead letter.
  pub committed-IsSafe :
      (rounds : List (Round (Unit {0}))) (turns : List (Turn Record))
      → IsSafe (main parse_record rounds turns)
  unfolding main
  committed-IsSafe rounds turns = from (retry 30 1 rounds).1
    where
      from :
          (x : Ending (Unit {0}))
          → IsSafe (elim x [
            | done _ ↦ work parse_record turns new_worker
            | stopped ↦ new_worker
            | running ↦ new_worker
          ])
      from (done _) =
          work-IsSafe turns new_worker
            (record { bounded = omega arith; settled = refl; sent = refl; safe = IsSafe-new })
      from stopped = IsSafe-new
      from running = IsSafe-new
