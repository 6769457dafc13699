-- ===== src/Storage/Preflight.antt =====
-- `_assert_events_fit` of ulpf/services/trino.py against the check inside `_merge_batches`.
use ocsf_forge.Prelude.{
  ℕ, ◌+◌, ◌*◌, ◌≤◌, ◌<◌, ◌≡◌, List, [], ◌∷◌, ok, raise, split_if, length, All, All-map, arith, ltb,
}
use ocsf_forge.Text.{Text}
use ocsf_forge.Storage.Columns.{raw_columns, normalized_columns, quarantine_columns}
use ocsf_forge.Storage.Batches.{
  Row, event_too_large, preflight_size, assert_events_fit, merge_batches, value_group, inserts,
}
use ocsf_forge.Storage.Partition.{merge_batches-IsBatch}

module _ (max_query_bytes : ℕ) (table : Text) (columns : List Text) where
  assert_events_fit-All :
      (rows : List Row)
      → assert_events_fit max_query_bytes table columns rows ≡ ok tt
      → All (λ r. preflight_size max_query_bytes table columns r ≤ max_query_bytes) rows
  unfolding assert_events_fit
  assert_events_fit-All [] h = tt
  assert_events_fit-All (row ∷ rows) h =
      split_if (ltb max_query_bytes (preflight_size max_query_bytes table columns row)) h
        (λ _ e. cc) (λ small e. (ground arith, assert_events_fit-All rows e))

  -- How many bytes the check of a batch counts beyond the check before.
  abbrev pub Shortfall : ℕ → Type 0
  Shortfall n =
      length (value_group max_query_bytes table columns)
        + length (inserts max_query_bytes table columns)
      ≤ length columns * 3 + 258 + n

  -- If the preflight check passes at a limit that is lower by what it leaves out, `_merge_batches`
  -- raises for no row.
  pub preflight_suffices :
      (shortfall insert_batch_size : ℕ) (rows : List Row)
      → Shortfall shortfall
      → 0 < insert_batch_size
      → assert_events_fit max_query_bytes table columns rows ≡ ok tt
      → (merge_batches (max_query_bytes + shortfall) table columns insert_batch_size rows).1 ≡ ok tt
  preflight_suffices shortfall insert_batch_size rows slack n h =
      (merge_batches-IsBatch (max_query_bytes + shortfall) table columns insert_batch_size rows n
        (All-map _ _ (λ r fits. omega arith) rows (assert_events_fit-All rows h))).0

pub raw-Shortfall :
    (max_query_bytes : ℕ) (table : Text) → Shortfall max_query_bytes table raw_columns 21
raw-Shortfall m table = omega arith

pub normalized-Shortfall :
    (max_query_bytes : ℕ) (table : Text) → Shortfall max_query_bytes table normalized_columns 536
normalized-Shortfall m table = omega arith

pub quarantine-Shortfall :
    (max_query_bytes : ℕ) (table : Text) → Shortfall max_query_bytes table quarantine_columns 60
quarantine-Shortfall m table = omega arith

-- A normalized row that the preflight estimates at less than 536 bytes below the limit passes the
-- preflight check, and `_merge_batches` then raises for it.
pub preflight_misses :
    (max_query_bytes : ℕ) (table : Text) (insert_batch_size : ℕ) (row : Row)
    → preflight_size max_query_bytes table normalized_columns row ≤ max_query_bytes
    → max_query_bytes < preflight_size max_query_bytes table normalized_columns row + 536
    → (assert_events_fit max_query_bytes table normalized_columns (row ∷ []) ≡ ok tt)
      × (merge_batches max_query_bytes table normalized_columns insert_batch_size (row ∷ [])
          ≡ ([], raise event_too_large))
unfolding assert_events_fit merge_batches
preflight_misses m table n row h k = (ground arith, ground arith)
