-- ===== src/Storage/Batches.antt =====
-- ulpf/services/trino.py: `_prepared_value_size`, `_assert_events_fit` and `_merge_batches`.
use ocsf_forge.Prelude.{
  ℕ, ◌+◌, ◌*◌, Bool, false, ◌||◌, List, [], ◌∷◌, ◌++◌, map, Result, ok, raise, length, ltb, leb,
  ◌==◌, if◌then◌else◌,
}
use ocsf_forge.Text.{Text, codes}
use ocsf_forge.Storage.Columns.{join_columns}

-- A bound value: `None`, a text, a datetime, or another value with its `str`.
pub data Cell : Type 0 where
  null : Cell
  text : Text → Cell
  instant : Cell
  other : Text → Cell

-- `len(t.encode("utf-8"))`.
abbrev pub encoded_size : Text → ℕ
encoded_size [] = 0
encoded_size (c ∷ t) =
    (if ltb c 128 then 1 else if ltb c 2048 then 2 else if ltb c 65536 then 3 else 4)
    + encoded_size t

abbrev pub count_quotes : Text → ℕ
count_quotes [] = 0
count_quotes (c ∷ t) = (if c == b'\'' then 1 else 0) + count_quotes t

unfoldable pub prepared_value_size : Cell → ℕ
prepared_value_size null = 4
prepared_value_size (text t) = encoded_size t + count_quotes t + 2
prepared_value_size instant = 48
prepared_value_size (other t) = encoded_size t + 12

abbrev pub Row : Type 0
Row = List Cell

-- `sum(self._prepared_value_size(value) + 1 for value in values)`.
unfoldable pub row_size : Row → ℕ
row_size [] = 0
row_size (v ∷ row) = prepared_value_size v + 1 + row_size row

pub data BatchError : Type 0 where
  event_too_large : BatchError

module _ (max_query_bytes : ℕ) (table : Text) (columns : List Text) where
  -- `_assert_events_fit`.
  abbrev pub preflight_size : Row → ℕ
  preflight_size row =
      (length columns * 3 + 2 + row_size row)
      + (length table + length (join_columns columns) * 2 + 512)

  unfoldable pub assert_events_fit : List Row → Result BatchError (Unit {0})
  assert_events_fit [] = ok tt
  assert_events_fit (row ∷ rows) =
      let rest = assert_events_fit rows in
      if ltb max_query_bytes (preflight_size row) then raise event_too_large else rest

  -- The sizes of `_merge_batches`.
  abbrev pub value_group : Text
  value_group = codes "(" ++ (join_columns (map (λ c. codes "?") columns) ++ codes ")")

  abbrev pub inserts : Text
  inserts = join_columns (map (λ c. codes "source." ++ c) columns)

  abbrev pub fixed_size : ℕ
  fixed_size = length table + length (join_columns columns) * 2 + length inserts + 256

  abbrev pub event_size : Row → ℕ
  event_size row = length value_group + row_size row

  module _ (insert_batch_size : ℕ) where
    abbrev pub is_full : List Row → ℕ → Row → Bool
    is_full [] estimated row = false
    is_full (r ∷ batch) estimated row =
        leb insert_batch_size (length (r ∷ batch))
        || ltb max_query_bytes (estimated + event_size row)

    abbrev pub flush : List Row → List (List Row)
    flush [] = []
    flush (r ∷ batch) = (r ∷ batch) ∷ []

    abbrev pub after :
        List Row
        → List (List Row) × Result BatchError (Unit {0})
        → List (List Row) × Result BatchError (Unit {0})
    after batch (batches, end) = (batch ∷ batches, end)

    -- The loop of `_merge_batches`: the batches that it hands to `_merge_batch`, and how it ends.
    unfoldable pub merge_from :
        List Row → ℕ → List Row → List (List Row) × Result BatchError (Unit {0})
    merge_from batch estimated [] = (flush batch, ok tt)
    merge_from batch estimated (row ∷ rows) =
        let next = after batch (merge_from (row ∷ []) (fixed_size + event_size row) rows) in
        let grown = merge_from (batch ++ row ∷ []) (estimated + event_size row) rows in
        if ltb max_query_bytes (event_size row + fixed_size)
        then ([], raise event_too_large)
        else if is_full batch estimated row
        then next
        else grown

    unfoldable pub merge_batches : List Row → List (List Row) × Result BatchError (Unit {0})
    unfolding merge_from
    merge_batches rows = merge_from [] fixed_size rows
