-- ===== src/Streaming/Retry.antt =====
-- ulpf/streaming/retry.py: the loops that retry with growing delays.
use ocsf_forge.Prelude.{
  ℕ, ◌*◌, ◌≤◌, Bool, true, false, List, [], ◌∷◌, All, arith, leb, if◌then◌else◌,
}

-- What happens to one round of the loop: it is stopped before it starts, the call answers, or the
-- call raises and the wait after it is ended by `stopped` or not.
pub data Round (A : Type 0) : Type 0 where
  halted : Round A
  answers : A → Round A
  fails : Bool → Round A

-- How the loop ends; it still runs when there are no more rounds to see.
pub data Ending (A : Type 0) : Type 0 where
  done : A → Ending A
  stopped : Ending A
  running : Ending A

abbrev pub shorter : ℕ → ℕ → ℕ
shorter a b = if leb a b then a else b

module _ {A : Type 0} (maximum_delay : ℕ) where
  -- `ingest_with_retry` and `initialize_with_retry`: the delays waited for, and the end.
  unfoldable pub retry : ℕ → List (Round A) → List ℕ × Ending A
  retry delay [] = ([], running)
  retry delay (halted ∷ rounds) = ([], stopped)
  retry delay (answers a ∷ rounds) = ([], done a)
  retry delay (fails true ∷ rounds) = (delay ∷ [], stopped)
  retry delay (fails false ∷ rounds) =
      let later = retry (shorter (delay * 2) maximum_delay) rounds in (delay ∷ later.0, later.1)

  -- No wait is longer than the maximum.
  pub retry-le :
      (delay : ℕ) (rounds : List (Round A))
      → delay ≤ maximum_delay
      → All (λ d. d ≤ maximum_delay) (retry delay rounds).0
  unfolding retry
  retry-le delay [] h = tt
  retry-le delay (halted ∷ rounds) h = tt
  retry-le delay (answers a ∷ rounds) h = tt
  retry-le delay (fails true ∷ rounds) h = (h, tt)
  retry-le delay (fails false ∷ rounds) h =
      (h, retry-le (shorter (delay * 2) maximum_delay) rounds (ground arith))
