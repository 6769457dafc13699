-- ===== src/Storage/Commits.antt =====
-- `_execute_write_on_connection` of ulpf/services/trino.py: writes retried on commit conflicts.
use mathlib.Core.Path.{subst}
use ocsf_forge.Prelude.{
  ℕ, zero, suc, ◌+◌, ◌*◌, ◌^◌, ◌≤◌, ◌<◌, ◌≡◌, sym, ◌∙◌, inl, inr, Bool, true, false, not, ◌||◌,
  List, [], ◌∷◌, All, Result, ok, raise, Result-cases, raise-injective, arith, leb, Bool-cases,
  if◌then◌else◌,
}
use ocsf_forge.Text.{Text, codes, starts_with}

-- `marker in text`.
abbrev pub contains : Text → Text → Bool
contains marker [] = starts_with marker []
contains marker (c ∷ t) = let rest = contains marker t in starts_with marker (c ∷ t) || rest

-- The test of `COMMIT_CONFLICT_MARKERS` on the message of an exception.
abbrev pub is_conflict : Text → Bool
is_conflict message =
    contains (codes "ICEBERG_COMMIT_ERROR") message
    || contains (codes "TRANSACTION_CONFLICT") message

-- `min(0.2 * (2**attempt), 3.0)` in tenths of a second, without the random part.
abbrev pub delay_tenths : ℕ → ℕ
delay_tenths attempt = let delay = 2 * 2 ^ attempt in if leb delay 30 then delay else 30

-- `execute` says what the connection does at each attempt: it answers, or raises with a message.
module _ {A : Type 0} (execute : ℕ → Result Text A) where
  abbrev pub after_attempt :
      ℕ → Result Text A → List ℕ × Result Text A → Bool → List ℕ × Result Text A
  after_attempt attempt (ok a) later last = ([], ok a)
  after_attempt attempt (raise message) later last =
      if not (is_conflict message)
      then ([], raise message)
      else if last
      then ([], raise message)
      else (delay_tenths attempt ∷ later.0, later.1)

  -- The loop from an attempt on, with so many retries left: the delays, and what it returns or
  -- raises.
  unfoldable pub write_from : ℕ → ℕ → List ℕ × Result Text A
  write_from zero attempt = after_attempt attempt (execute attempt) ([], execute attempt) true
  write_from (suc left) attempt =
      let later = write_from left (suc attempt) in
      after_attempt attempt (execute attempt) later false

  unfoldable pub execute_write : ℕ → List ℕ × Result Text A
  unfolding write_from
  execute_write iceberg_commit_retries = write_from iceberg_commit_retries 0

  -- An attempt that was lost to a commit conflict.
  abbrev pub Conflicts : ℕ → Type 0
  Conflicts n = (message : Text) × (execute n ≡ raise message) × (is_conflict message ≡ true)

  -- The outcome is that of one attempt; each attempt before it was a conflict, and it is one itself
  -- only if it is the last that is allowed; and no delay is longer than three seconds.
  pub record IsSettled (first last : ℕ) (r : List ℕ × Result Text A) : Type 0 where
    pub attempt : ℕ
    pub from_first : first ≤ attempt
    pub in_time : attempt ≤ last
    pub outcome : r.1 ≡ execute attempt
    pub earlier : (n : ℕ) → first ≤ n → n < attempt → Conflicts n
    pub final : Conflicts attempt → attempt ≡ last
    pub delays : All (λ d. d ≤ 30) r.0

  IsSettled-at :
      (attempt last : ℕ) (r : Result Text A)
      → attempt ≤ last
      → execute attempt ≡ r
      → (Conflicts attempt → attempt ≡ last)
      → IsSettled attempt last ([], r)
  IsSettled-at attempt last r le e final = record {
    attempt = attempt;
    from_first = omega arith;
    in_time = le;
    outcome = sym e;
    earlier = λ n low high. absurd (omega arith);
    final = final;
    delays = tt;
  }

  delay_tenths-le : (attempt : ℕ) → delay_tenths attempt ≤ 30
  delay_tenths-le attempt = ground arith

  -- A conflict, and what comes of the attempts after it.
  IsSettled-later :
      (attempt last : ℕ) (r : List ℕ × Result Text A)
      → Conflicts attempt
      → IsSettled (suc attempt) last r
      → IsSettled attempt last (delay_tenths attempt ∷ r.0, r.1)
  IsSettled-later attempt last r conflict s = record {
    attempt = s.attempt;
    from_first = omega (arith, s.from_first);
    in_time = s.in_time;
    outcome = s.outcome;
    earlier = λ n low high. elim (Bool-cases (leb n attempt)) [
      | inl same ↦ subst Conflicts (ground (arith, same, low)) conflict
      | inr after ↦ s.earlier n (ground (arith, after)) high
    ];
    final = s.final;
    delays = (delay_tenths-le attempt, s.delays);
  }

  write_from-IsSettled :
      (left attempt : ℕ) → IsSettled attempt (attempt + left) (write_from left attempt)
  unfolding write_from
  write_from-IsSettled zero attempt = elim (Result-cases (execute attempt)) [
    | inl (a, e) ↦
        rw e (IsSettled-at attempt (attempt + zero) (ok a) (omega arith) e (λ _. omega arith))
    | inr (message, e) ↦ rw e (elim (Bool-cases (is_conflict message)) [
      | inl yes_ ↦
          rw yes_ (
            IsSettled-at attempt (attempt + zero) (raise message) (omega arith) e
              (λ _. omega arith))
      | inr no_ ↦
          rw no_ (
            IsSettled-at attempt (attempt + zero) (raise message) (omega arith) e
              (λ _. omega arith))
    ])
  ]
  write_from-IsSettled (suc left) attempt = elim (Result-cases (execute attempt)) [
    | inl (a, e) ↦
        rw e (
          IsSettled-at attempt (attempt + suc left) (ok a) (omega arith) e (λ (m, k, _). absurd cc))
    | inr (message, e) ↦ rw e (elim (Bool-cases (is_conflict message)) [
      | inl yes_ ↦ rw yes_ (
          IsSettled-later attempt (attempt + suc left) (write_from left (suc attempt))
            (message, e, yes_)
            (subst (λ last. IsSettled (suc attempt) last (write_from left (suc attempt)))
              (omega arith) (write_from-IsSettled left (suc attempt))))
      | inr no_ ↦ rw no_ (
          IsSettled-at attempt (attempt + suc left) (raise message) (omega arith) e
            (λ (m, k, c). absurd (other m message (raise-injective (sym k ∙ e)) c no_)))
    ])
  ]
    where
      other : (m n : Text) → m ≡ n → is_conflict m ≡ true → is_conflict n ≡ false → ⊥
      other m n same yes_ no_ = absurd cc

  -- A write is tried until it answers, raises another error than a commit conflict, or has been
  -- retried as often as configured; it returns or raises what its last attempt did, and waits at
  -- most three seconds, its random part aside, between two attempts.
  pub execute_write-IsSettled :
      (iceberg_commit_retries : ℕ)
      → IsSettled 0 iceberg_commit_retries (execute_write iceberg_commit_retries)
  unfolding execute_write
  execute_write-IsSettled iceberg_commit_retries =
      subst (λ last. IsSettled 0 last (write_from iceberg_commit_retries 0)) (omega arith)
        (write_from-IsSettled iceberg_commit_retries 0)
