-- ===== src/Storage/Warehouse.antt =====
-- The tables of Trino as ulpf/services/trino.py uses them: the operations, and the laws of MERGE,
-- UPDATE and SELECT that it relies on.
use ocsf_forge.Prelude.{
  ℕ, ◌≡◌, ◌≢◌, Bool, not, Option, List, [], ◌∷◌, ◌++◌, any, keep, count_if, Result, ok, raise,
}
use ocsf_forge.Text.{Text, text_eq}
use ocsf_forge.Storage.Batches.{Cell, null, text, instant, other, Row}

pub data Table : Type 0 where
  raw_events application_logs quarantine_events : Table

-- A row of `ingestion_runs`, as `_insert_run` writes it and `_finish_run` updates it, its times
-- apart.
pub record Run : Type 0 where
  pub run_id : Text
  pub source_id : Text
  pub source_name : Text
  pub source_type : Text
  pub status : Text
  pub received : ℕ
  pub parsed : ℕ
  pub quarantined : ℕ
  pub committed : ℕ
  pub duplicates : ℕ
  pub snapshot_id : Option Text
  pub error_message : Text

abbrev pub text_of : Cell → Text
text_of (text t) = t
text_of null = []
text_of instant = []
text_of (other t) = t

-- The first two columns of every table of events.
abbrev pub event_id_of : Row → Text
event_id_of [] = []
event_id_of (c ∷ row) = text_of c

abbrev pub run_id_of : Row → Text
run_id_of [] = []
run_id_of (c ∷ []) = []
run_id_of (c ∷ d ∷ row) = text_of d

abbrev pub same_event_id : Row → Row → Bool
same_event_id r s = text_eq (event_id_of r) (event_id_of s)

-- The rows of a batch that match no row of the table.
abbrev pub fresh : List Row → List Row → List Row
fresh stored = keep (λ r. not (any (same_event_id r) stored))

-- A call changes the tables and answers, or raises with a message.
pub record Warehouse : Type 1 where
  pub State : Type 0
  pub rows : Table → State → List Row
  pub merge : Table → List Row → State → State × Result Text (Unit {0})
  pub count_for_run : Table → Text → State → State × Result Text ℕ
  pub last_snapshot : State → State × Result Text (Option Text)
  pub insert_run : Run → State → State × Result Text (Unit {0})
  pub finish_run : Run → State → State × Result Text (Unit {0})

module _ (w : Warehouse) where
  -- A call that leaves the tables of events alone, whatever it answers.
  abbrev pub Reads : {A : Type 0} → (w.State → w.State × Result Text A) → Type 0
  Reads m = (t : Table) (s : w.State) → w.rows t (m s).0 ≡ w.rows t s

  -- MERGE ... WHEN NOT MATCHED THEN INSERT on `event_id` is one transaction on one table; the other
  -- statements do not write to the tables of events; SELECT count(*) counts.
  pub record IsWarehouse : Type 0 where
    pub merges :
        (t : Table) (batch : List Row) (s : w.State)
        → (w.merge t batch s).1 ≡ ok tt
        → w.rows t (w.merge t batch s).0 ≡ w.rows t s ++ fresh (w.rows t s) batch
    pub merge_fails :
        (t : Table) (batch : List Row) (s : w.State) (message : Text)
        → (w.merge t batch s).1 ≡ raise message
        → w.rows t (w.merge t batch s).0 ≡ w.rows t s
    pub merge_elsewhere :
        (t u : Table) (batch : List Row) (s : w.State)
        → t ≢ u
        → w.rows u (w.merge t batch s).0 ≡ w.rows u s
    pub counts :
        (t : Table) (run_id : Text) (s : w.State) (n : ℕ)
        → (w.count_for_run t run_id s).1 ≡ ok n
        → n ≡ count_if (λ r. text_eq run_id (run_id_of r)) (w.rows t s)
    pub count_reads : (t : Table) (run_id : Text) → Reads (w.count_for_run t run_id)
    pub snapshot_reads : Reads w.last_snapshot
    pub insert_run_reads : (r : Run) → Reads (w.insert_run r)
    pub finish_run_reads : (r : Run) → Reads (w.finish_run r)
