-- ===== src/Storage/Stored.antt =====
-- What `ingest_events` of ulpf/services/trino.py has stored when it answers.
use mathlib.Core.Path.{subst}
use ocsf_forge.Prelude.{
  ◌≡◌, refl, ap, sym, List, [], ◌∷◌, ◌++◌, All, All-append, All-map, Result, ok, raise,
  ok-injective,
}
use ocsf_forge.Text.{Text}
use ocsf_forge.Storage.Columns.{
  raw_table, quarantine_table, raw_columns, normalized_columns, quarantine_columns,
}
use ocsf_forge.Storage.Batches.{Row, BatchError, merge_batches}
use ocsf_forge.Storage.Partition.{concat, merge_batches-whole}
use ocsf_forge.Storage.Actions.{>>=-answers, Ends, Ends-then}
use ocsf_forge.Storage.Warehouse.{
  Table, raw_events, application_logs, quarantine_events, Warehouse, IsWarehouse,
}
use ocsf_forge.Storage.Ids.{ids, Has, Has-first, fresh-Has}
use ocsf_forge.Storage.Prepare.{IngestSettings, Prepared}
use ocsf_forge.Storage.Ingest.{run_merges, merge_rows, write_prepared, stored, lift_storage}
use ocsf_forge.Storage.Grown.{IsGrown, run_merges-Grows, merge_rows-Grows}

module _ (w : Warehouse) (laws : IsWarehouse w) where
  -- The table has all these ids.
  abbrev pub HasAll : Table → w.State → List Text → Type 0
  HasAll t s known = All (Has (ids (w.rows t s))) known

  pub HasAll-later :
      (t : Table) (s s' : w.State)
      → IsGrown w laws s s'
      → (known : List Text) → HasAll t s known
      → HasAll t s' known
  HasAll-later t s s' g known =
      All-map (Has (ids (w.rows t s))) (Has (ids (w.rows t s')))
        (λ id h.
          subst (λ rows. Has (ids rows) id) (sym (g t).kept)
            (Has-first (w.rows t s) (g t).added id h))
        known

  pub lift_storage-ok : {A : Type 0} (r : Result Text A) (a : A) → lift_storage r ≡ ok a → r ≡ ok a
  lift_storage-ok (ok b) a h = ap ok (ok-injective h)
  lift_storage-ok (raise message) a h = cc

  merge-HasAll :
      (t : Table) (members : List Row) (s : w.State)
      → (stored (w.merge t members) s).1 ≡ ok tt
      → HasAll t (w.merge t members s).0 (ids members)
  merge-HasAll t members s h =
      subst (λ rows. All (Has (ids rows)) (ids members))
        (sym (laws.merges t members s (lift_storage-ok (w.merge t members s).1 tt h)))
        (fresh-Has (w.rows t s) members)

  ids-append : (xs ys : List Row) → ids (xs ++ ys) ≡ ids xs ++ ids ys
  ids-append [] ys = refl
  ids-append (x ∷ xs) ys = cc (ids-append xs ys)

  module _ (config : IngestSettings) where
    run_merges-HasAll :
        (t : Table) (batches : List (List Row)) (end : Result BatchError (Unit {0})) (s : w.State)
        → (run_merges w config t batches end s).1 ≡ ok tt
        → (end ≡ ok tt) × HasAll t (run_merges w config t batches end s).0 (ids (concat batches))
    unfolding run_merges
    run_merges-HasAll t [] (ok u) s h = (refl, tt)
    run_merges-HasAll t [] (raise e) s h = cc
    run_merges-HasAll t (b ∷ batches) end s h =
        let (u, first, rest, state) =
          >>=-answers (stored (w.merge t b)) (λ _. run_merges w config t batches end) s tt h in
        let s' = (w.merge t b s).0 in
        let s'' = (run_merges w config t batches end s').0 in
        let (ended, later) = run_merges-HasAll t batches end s' rest in
        let grown = (run_merges-Grows w laws config t batches end).grown s' in
        let both =
          All-append (Has (ids (w.rows t s''))) (ids b) (ids (concat batches))
            (HasAll-later t s' s'' grown (ids b) (merge-HasAll t b s first)) later in
        (
          ended,
          subst (λ x. HasAll t x (ids (b ++ concat batches))) (sym state)
              (subst (HasAll t s'') (sym (ids-append b (concat batches))) both),
        )

    merge_rows-HasAll :
        (t : Table) (table : Text) (columns : List Text) (rows : List Row) (s : w.State)
        → (merge_rows w config t table columns rows s).1 ≡ ok tt
        → HasAll t (merge_rows w config t table columns rows s).0 (ids rows)
    unfolding merge_rows
    merge_rows-HasAll t table columns rows s h =
        let out =
          merge_batches config.max_query_bytes table columns config.insert_batch_size rows in
        let (ended, has) = run_merges-HasAll t out.0 out.1 s h in
        subst (λ x. HasAll t (run_merges w config t out.0 out.1 s).0 (ids x))
          (merge_batches-whole config.max_query_bytes table columns config.insert_batch_size rows
            ended)
          has

    -- What the three calls of `_merge_batches` have written.
    pub record IsWritten (p : Prepared) (s : w.State) : Type 0 where
      pub raw : HasAll raw_events s (ids p.raw)
      pub normalized : HasAll application_logs s (ids p.normalized)
      pub rejected : HasAll quarantine_events s (ids p.rejected)

    pub write_prepared-IsWritten :
        (p : Prepared) (s : w.State) → Ends (λ s' _. IsWritten p s') (write_prepared w config p) s
    unfolding write_prepared
    write_prepared-IsWritten p s =
        let raw = merge_rows w config raw_events raw_table raw_columns p.raw in
        let normalized =
          merge_rows w config application_logs config.qualified_table normalized_columns
            p.normalized in
        let rejected =
          merge_rows w config quarantine_events quarantine_table quarantine_columns p.rejected in
        let s1 = (raw s).0 in
        let s2 = (normalized s1).0 in
        let s3 = (rejected s2).0 in
        let g2 = (merge_rows-Grows w laws config application_logs _ _ p.normalized).grown s1 in
        let g3 = (merge_rows-Grows w laws config quarantine_events _ _ p.rejected).grown s2 in
        Ends-then raw (λ _ h1. Ends-then normalized (λ _ h2. record {
          ends = λ _ h3. record {
            raw = HasAll-later raw_events s2 s3 g3 (ids p.raw) (
                HasAll-later raw_events s1 s2 g2 (ids p.raw)
                  (merge_rows-HasAll raw_events _ _ p.raw s h1));
            normalized =
                HasAll-later application_logs s2 s3 g3 (ids p.normalized)
                  (merge_rows-HasAll application_logs _ _ p.normalized s1 h2);
            rejected = merge_rows-HasAll quarantine_events _ _ p.rejected s2 h3;
          };
        }))
