-- ===== src/Streaming/Worker.antt =====
-- The loop of ulpf/streaming/worker.py, with `publish_dead_letters` of ulpf/streaming/records.py.
use ocsf_forge.Prelude.{
  ℕ, Bool, not, ◌||◌, List, [], ◌∷◌, ◌++◌, length, keep, is_nil, Result, ok, raise, ◌>>=◌,
  if◌then◌else◌,
}
use ocsf_forge.Text.{Text, codes, text_eq}
use ocsf_forge.Models.{NormalizedEvent, IngestionResult}
use ocsf_forge.Streaming.Retry.{Round, Ending, done, stopped, running, retry}

-- `[f(x) for x in xs]`, where a call may raise.
abbrev pub traverse {ℓ κ μ} :
    {E : Type ℓ} {A : Type κ} {B : Type μ} → (A → Result E B) → List A → Result E (List B)
traverse f [] = ok []
traverse f (x ∷ xs) = do y ← f x; ys ← traverse f xs; ok (y ∷ ys)

-- What one turn of the loop meets: the records that are polled, the rounds of `ingest_with_retry`,
-- and whether the broker acknowledges every dead letter in time.
pub record Turn (Record : Type 0) : Type 0 where
  pub records : List Record
  pub rounds : List (Round IngestionResult)
  pub acknowledged : Bool

-- What the worker has done: the records that it polled, how many of them it committed, the events
-- of the batches that the storage accepted, and the events whose dead letters are acknowledged.
pub record Worker (Record : Type 0) : Type 0 where
  pub polled : List Record
  pub committed : ℕ
  pub stored : List NormalizedEvent
  pub dead_letters : List NormalizedEvent

abbrev pub new_worker : {Record : Type 0} → Worker Record
new_worker = record { polled = []; committed = 0; stored = []; dead_letters = [] }

-- After a turn, the loop goes on or `main` ends.
pub data Exit (Record : Type 0) : Type 0 where
  goes_on : Worker Record → Exit Record
  ends : Worker Record → Exit Record

abbrev pub is_complete : Text → Bool
is_complete status =
    text_eq status (codes "COMPLETED") || text_eq status (codes "COMPLETED_WITH_QUARANTINE")

-- The events that get a dead letter.
abbrev pub rejects : List NormalizedEvent → List NormalizedEvent
rejects = keep (λ e. not e.parse_success)

module _ {E Record : Type 0} (parse_record : Record → Result E NormalizedEvent) where
  -- `consumer.commit()`: every record polled so far.
  abbrev pub commit : Text → Worker Record → Worker Record
  commit status w = if is_complete status then record w { committed = length w.polled } else w

  -- `publish_dead_letters`, and the commit after it.
  abbrev pub deliver : Bool → Text → List NormalizedEvent → Worker Record → Exit Record
  deliver acknowledged status events w =
      if is_nil (rejects events) || acknowledged
      then goes_on (commit status (record w { dead_letters = w.dead_letters ++ rejects events }))
      else ends w

  abbrev pub after_ingest :
      Bool → Ending IngestionResult → List NormalizedEvent → Worker Record → Exit Record
  after_ingest acknowledged (done result) events w =
      deliver acknowledged result.status events (record w { stored = w.stored ++ events })
  after_ingest acknowledged stopped events w = ends w
  after_ingest acknowledged running events w = ends w

  abbrev pub after_parse :
      Turn Record → Result E (List NormalizedEvent) → Worker Record → Exit Record
  after_parse t (ok events) w = after_ingest t.acknowledged (retry 30 1 t.rounds).1 events w
  after_parse t (raise e) w = ends w

  -- One turn of the loop of `main`.
  unfoldable pub turn : Turn Record → Worker Record → Exit Record
  unfolding retry
  turn t w =
      if is_nil t.records
      then goes_on w
      else after_parse t (traverse parse_record t.records)
          (record w { polled = w.polled ++ t.records })

  abbrev pub worker_of : Exit Record → Worker Record
  worker_of (goes_on w) = w
  worker_of (ends w) = w

  -- The loop of `main` over turns.
  unfoldable pub work : List (Turn Record) → Worker Record → Worker Record
  unfolding turn
  work [] w = w
  work (t ∷ turns) w = elim (turn t w) [ goes_on v ↦ work turns v | ends v ↦ v ]

  -- `main`: the rounds of `initialize_with_retry`, then the loop.
  unfoldable pub main : List (Round (Unit {0})) → List (Turn Record) → Worker Record
  unfolding work
  main rounds turns = elim (retry 30 1 rounds).1 [
    | done _ ↦ work turns new_worker
    | stopped ↦ new_worker
    | running ↦ new_worker
  ]
