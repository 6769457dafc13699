-- ===== src/Storage/Memory.antt =====
-- A warehouse in memory, whose calls all answer: the laws of a warehouse hold of it.
use ocsf_forge.Prelude.{◌≡◌, ◌≢◌, refl, sym, none, List, ◌++◌, count_if, ok, ok-injective}
use ocsf_forge.Text.{text_eq}
use ocsf_forge.Storage.Batches.{Row}
use ocsf_forge.Storage.Warehouse.{
  Table, raw_events, application_logs, quarantine_events, run_id_of, fresh, Warehouse, IsWarehouse,
}

abbrev pub Tables : Type 0
Tables = Table → List Row

abbrev pub write : Table → List Row → Tables → Tables
write raw_events rows tables raw_events = rows
write application_logs rows tables application_logs = rows
write quarantine_events rows tables quarantine_events = rows
write _ rows tables t = tables t

abbrev pub memory : Warehouse
memory = record {
  State = Tables;
  rows = λ t tables. tables t;
  merge = λ t batch tables. (write t (tables t ++ fresh (tables t) batch) tables, ok tt);
  count_for_run =
      λ t run_id tables. (tables, ok (count_if (λ r. text_eq run_id (run_id_of r)) (tables t)));
  last_snapshot = λ tables. (tables, ok none);
  insert_run = λ run tables. (tables, ok tt);
  finish_run = λ run tables. (tables, ok tt);
}

write-same : (t : Table) (rows : List Row) (tables : Tables) → write t rows tables t ≡ rows
write-same raw_events rows tables = refl
write-same application_logs rows tables = refl
write-same quarantine_events rows tables = refl

write-other :
    (t u : Table) (rows : List Row) (tables : Tables) → t ≢ u → write t rows tables u ≡ tables u
write-other raw_events raw_events rows tables h = absurd (h refl)
write-other raw_events application_logs rows tables h = refl
write-other raw_events quarantine_events rows tables h = refl
write-other application_logs raw_events rows tables h = refl
write-other application_logs application_logs rows tables h = absurd (h refl)
write-other application_logs quarantine_events rows tables h = refl
write-other quarantine_events raw_events rows tables h = refl
write-other quarantine_events application_logs rows tables h = refl
write-other quarantine_events quarantine_events rows tables h = absurd (h refl)

pub memory-IsWarehouse : IsWarehouse memory
memory-IsWarehouse = record {
  merges = λ t batch tables h. write-same t (tables t ++ fresh (tables t) batch) tables;
  merge_fails = λ t batch tables message h. absurd cc;
  merge_elsewhere =
      λ t u batch tables h. write-other t u (tables t ++ fresh (tables t) batch) tables h;
  counts = λ t run_id tables n h. sym (ok-injective h);
  count_reads = λ t run_id u tables. refl;
  snapshot_reads = λ t tables. refl;
  insert_run_reads = λ r t tables. refl;
  finish_run_reads = λ r t tables. refl;
}
