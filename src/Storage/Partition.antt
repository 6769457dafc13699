-- ===== src/Storage/Partition.antt =====
-- `_merge_batches` of ulpf/services/trino.py cuts the rows into bounded batches and loses none.
use mathlib.Core.Path.{subst}
use mathlib.Core.List.{append_assoc}
use ocsf_forge.Prelude.{
  ℕ, ◌+◌, ◌≤◌, ◌<◌, ◌≡◌, ◌∙◌, refl, ap, true, false, List, [], ◌∷◌, ◌++◌, Result, ok, length,
  length-append, All, All-append, arith, ltb, Bool-cases, inl, inr,
}
use ocsf_forge.Text.{Text}
use ocsf_forge.Storage.Batches.{
  Row, BatchError, event_size, fixed_size, is_full, after, merge_from, merge_batches,
}

abbrev pub concat : List (List Row) → List Row
concat [] = []
concat (b ∷ bs) = b ++ concat bs

module _ (max_query_bytes : ℕ) (table : Text) (columns : List Text) (insert_batch_size : ℕ) where
  abbrev pub size : Row → ℕ
  size = event_size max_query_bytes table columns

  abbrev pub base : ℕ
  base = fixed_size max_query_bytes table columns

  abbrev pub total : List Row → ℕ
  total [] = 0
  total (r ∷ rows) = size r + total rows

  pub total-append : (xs ys : List Row) → total (xs ++ ys) ≡ total xs + total ys
  total-append [] ys = omega arith
  total-append (r ∷ xs) ys = omega (arith, total-append xs ys)

  -- A statement for the batch is within the limits.
  pub record IsBatch (batch : List Row) : Type 0 where
    pub filled : 0 < length batch
    pub bounded : length batch ≤ insert_batch_size
    pub fits : base + total batch ≤ max_query_bytes

  abbrev Ready : List Row → Type 0
  Ready [] = Unit
  Ready (r ∷ batch) = IsBatch (r ∷ batch)

  abbrev pub Fits : Row → Type 0
  Fits r = size r + base ≤ max_query_bytes

  record Outcome (rows : List Row) (out : List (List Row) × Result BatchError (Unit {0}))
      : Type 0 where
    ended : out.1 ≡ ok tt
    whole : concat out.0 ≡ rows
    batches : All IsBatch out.0

  Outcome-after :
      (batch rows : List Row) (out : List (List Row) × Result BatchError (Unit {0}))
      → IsBatch batch
      → Outcome rows out
      → Outcome (batch ++ rows) (after max_query_bytes table columns insert_batch_size batch out)
  Outcome-after batch rows (bs, end) is o = record {
    ended = o.ended;
    whole = ap (λ x. batch ++ x) o.whole;
    batches = (is, o.batches);
  }

  single : (row : Row) → 0 < insert_batch_size → Fits row → IsBatch (row ∷ [])
  single row n h = record { filled = omega arith; bounded = omega arith; fits = omega arith }

  grow :
      (batch : List Row) (row : Row)
      → 0 < insert_batch_size
      → Fits row
      → Ready batch
      → is_full max_query_bytes table columns insert_batch_size batch (base + total batch) row
        ≡ false
      → Ready (batch ++ row ∷ [])
  grow [] row n h r full = single row n h
  grow (b ∷ batch) row n h r full = record {
    filled = omega arith;
    bounded = ground (arith, length-append batch (row ∷ []));
    fits = ground (arith, total-append batch (row ∷ []));
  }

  full-IsBatch :
      (batch : List Row) (row : Row) (estimated : ℕ)
      → Ready batch
      → is_full max_query_bytes table columns insert_batch_size batch estimated row ≡ true
      → IsBatch batch
  full-IsBatch [] row estimated r full = cc
  full-IsBatch (b ∷ batch) row estimated r full = r

  merge_from-Outcome :
      (batch rows : List Row) (estimated : ℕ)
      → 0 < insert_batch_size
      → estimated ≡ base + total batch
      → Ready batch
      → All Fits rows
      → Outcome
          (batch ++ rows)
          (merge_from max_query_bytes table columns insert_batch_size batch estimated rows)
  unfolding merge_from
  merge_from-Outcome [] [] estimated n e r h = record { ended = refl; whole = refl; batches = tt }
  merge_from-Outcome (b ∷ batch) [] estimated n e r h = record {
    ended = refl;
    whole = refl;
    batches = (r, tt);
  }
  merge_from-Outcome batch (row ∷ rows) estimated n e r (h, hs) =
      let small : ltb max_query_bytes (size row + base) ≡ false = ground arith in
      elim (Bool-cases
        (is_full max_query_bytes table columns insert_batch_size batch estimated row)) [
          | inl full ↦
              rw (small, full)
                (Outcome-after batch (row ∷ rows) _ (full-IsBatch batch row estimated r full) (
                  merge_from-Outcome (row ∷ []) rows (base + size row) n (omega arith)
                    (single row n h) hs))
          | inr roomy ↦
              rw (small, roomy)
                (subst
                  (λ x. Outcome x (
                    merge_from max_query_bytes table columns insert_batch_size (batch ++ row ∷ [])
                      (estimated + size row) rows))
                  (append_assoc batch (row ∷ []) rows)
                  (merge_from-Outcome (batch ++ row ∷ []) rows (estimated + size row) n
                    (omega (arith, total-append batch (row ∷ []), e))
                    (grow batch row n h r (
                      subst
                        (λ x.
                          is_full max_query_bytes table columns insert_batch_size batch x row
                          ≡ false)
                        e roomy))
                    hs))
        ]

  -- With a positive batch size and rows of which each fits a statement of its own, `_merge_batches`
  -- does not raise; its batches, put together, are the rows in their order; and each batch is
  -- nonempty, holds at most `insert_batch_size` rows and is estimated within the size limit.
  pub merge_batches-IsBatch :
      (rows : List Row)
      → 0 < insert_batch_size
      → All Fits rows
      → ((merge_batches max_query_bytes table columns insert_batch_size rows).1 ≡ ok tt)
        × (concat (merge_batches max_query_bytes table columns insert_batch_size rows).0 ≡ rows)
        × All IsBatch (merge_batches max_query_bytes table columns insert_batch_size rows).0
  unfolding merge_batches
  merge_batches-IsBatch rows n h =
      let o = merge_from-Outcome [] rows base n (omega arith) tt h in (o.ended, o.whole, o.batches)

  merge_from-whole :
      (batch rows : List Row) (estimated : ℕ)
      → (merge_from max_query_bytes table columns insert_batch_size batch estimated rows).1 ≡ ok tt
      → concat (merge_from max_query_bytes table columns insert_batch_size batch estimated rows).0
        ≡ batch ++ rows
  unfolding merge_from
  merge_from-whole [] [] estimated = λ e. refl
  merge_from-whole (b ∷ batch) [] estimated = λ e. refl
  merge_from-whole batch (row ∷ rows) estimated =
      elim (Bool-cases (ltb max_query_bytes (size row + base))) [
        | inl large ↦ rw large (λ e. cc)
        | inr small ↦
            rw small
              (elim (Bool-cases
                (is_full max_query_bytes table columns insert_batch_size batch estimated row)) [
                  | inl full ↦ rw full (λ e.
                      ap (λ x. batch ++ x) (merge_from-whole (row ∷ []) rows (base + size row) e))
                  | inr roomy ↦ rw roomy (λ e.
                      merge_from-whole (batch ++ row ∷ []) rows (estimated + size row) e
                      ∙ append_assoc batch (row ∷ []) rows)
                ])
      ]

  -- If `_merge_batches` does not raise, its batches, put together, are the rows in their order.
  pub merge_batches-whole :
      (rows : List Row)
      → (merge_batches max_query_bytes table columns insert_batch_size rows).1 ≡ ok tt
      → concat (merge_batches max_query_bytes table columns insert_batch_size rows).0 ≡ rows
  unfolding merge_batches
  merge_batches-whole rows e = merge_from-whole [] rows base e

  -- What holds of all rows holds of those in the batches, also if it raises.
  merge_from-All :
      (P : Row → Type 0) (batch rows : List Row) (estimated : ℕ)
      → All P batch
      → All P rows
      → All P (
          concat
            (merge_from max_query_bytes table columns insert_batch_size batch estimated rows).0)
  unfolding merge_from
  merge_from-All P [] [] estimated hb hr = tt
  merge_from-All P (b ∷ batch) [] estimated hb hr = All-append P (b ∷ batch) [] hb tt
  merge_from-All P batch (row ∷ rows) estimated hb (h, hr) =
      elim (Bool-cases (ltb max_query_bytes (size row + base))) [
        | inl large ↦ rw large tt
        | inr small ↦
            rw small
              (elim (Bool-cases
                (is_full max_query_bytes table columns insert_batch_size batch estimated row)) [
                  | inl full ↦ rw full (
                      All-append P batch _ hb
                        (merge_from-All P (row ∷ []) rows (base + size row) (h, tt) hr))
                  | inr roomy ↦ rw roomy (
                      merge_from-All P (batch ++ row ∷ []) rows (estimated + size row)
                        (All-append P batch (row ∷ []) hb (h, tt)) hr)
                ])
      ]

  pub merge_batches-All :
      (P : Row → Type 0) (rows : List Row)
      → All P rows
      → All P (concat (merge_batches max_query_bytes table columns insert_batch_size rows).0)
  unfolding merge_batches
  merge_batches-All P rows = merge_from-All P [] rows base tt
