-- ===== src/Storage/Named.antt =====
-- ulpf/services/trino.py: the rows that are prepared have the ids of their events.
use ocsf_forge.Prelude.{
  ℕ, ◌≡◌, refl, ap, sym, ◌∙◌, List, [], ◌∷◌, map, keep, Result, ok, raise, ok-injective, some,
  Yields, Yields-ok, Yields-then, ltb, Bool-cases, inl, inr,
}
use ocsf_forge.Text.{Text, codes}
use ocsf_forge.Models.{NormalizedEvent}
use ocsf_forge.Normalizer.Fields.{Library}
use ocsf_forge.Json.{get}
use ocsf_forge.Ocsf.Context.{metadata_of}
use ocsf_forge.Ocsf.Record.{to_ocsf_dict}
use ocsf_forge.Storage.Columns.{
  raw_table, quarantine_table, raw_columns, normalized_columns, quarantine_columns,
}
use ocsf_forge.Storage.Batches.{Row, preflight_size}
use ocsf_forge.Storage.Values.{
  Encoders, ValueError, confidence, datetime_cell, or_bad_value, raw_values, event_values,
  quarantine_values,
}
use ocsf_forge.Storage.Warehouse.{event_id_of}
use ocsf_forge.Storage.Ids.{ids}
use ocsf_forge.Storage.Prepare.{
  IngestError, IngestSettings, succeeded, failed, Prepared, fit, fitting_rows, prepare,
}

-- `_assert_events_fit` prepares one row for each event, and the row has the event's id.
module _ (max_query_bytes : ℕ) (table : Text) (columns : List Text)
    (row_of : NormalizedEvent → Result ValueError Row)
    (named : (e : NormalizedEvent) → Yields (λ row. event_id_of row ≡ e.event_id) (row_of e)) where
  fit-ok :
      (r : Result ValueError Row) (rest : Result IngestError (List Row)) (rows : List Row)
      → fit max_query_bytes table columns row_of r rest ≡ ok rows
      → (row : Row) × (others : List Row) × (r ≡ ok row)
        × (rest ≡ ok others)
        × (rows ≡ row ∷ others)
  fit-ok (raise e) rest rows = λ h. cc
  fit-ok (ok row) (raise e) rows =
      elim (Bool-cases (ltb max_query_bytes (preflight_size max_query_bytes table columns row))) [
        | inl large ↦ rw large (λ h. cc)
        | inr small ↦ rw small (λ h. cc)
      ]
  fit-ok (ok row) (ok others) rows =
      elim (Bool-cases (ltb max_query_bytes (preflight_size max_query_bytes table columns row))) [
        | inl large ↦ rw large (λ h. cc)
        | inr small ↦ rw small (λ h. (row, others, refl, refl, sym (ok-injective h)))
      ]

  fitting_rows-ids :
      (events : List NormalizedEvent) (rows : List Row)
      → fitting_rows max_query_bytes table columns row_of events ≡ ok rows
      → ids rows ≡ map (λ e. e.event_id) events
  unfolding fitting_rows
  fitting_rows-ids [] rows h = ap ids (sym (ok-injective h))
  fitting_rows-ids (e ∷ events) rows h =
      let (row, others, first, rest, whole) = fit-ok _ _ rows h in
      ap ids whole ∙ cc ((named e).yields row first, fitting_rows-ids events others rest)

abbrev pub event_ids : List NormalizedEvent → List Text
event_ids = map (λ e. e.event_id)

-- The rows that are prepared have the ids of the events, table by table.
pub record IsPrepared (items : List NormalizedEvent) (p : Prepared) : Type 0 where
  pub raw : ids p.raw ≡ event_ids items
  pub normalized : ids p.normalized ≡ event_ids (keep succeeded items)
  pub rejected : ids p.rejected ≡ event_ids (keep failed items)

module _ (lib : Library) (encoders : Encoders) where
  -- A row that is prepared begins with the id of its event.
  abbrev Named : NormalizedEvent → Result ValueError Row → Type 0
  Named e = Yields (λ row. event_id_of row ≡ e.event_id)

  abbrev named : (e : NormalizedEvent) (row : Row) → event_id_of row ≡ e.event_id → Named e (ok row)
  named e = Yields-ok (λ row. event_id_of row ≡ e.event_id)

  raw_values-Named : (e : NormalizedEvent) → Named e (raw_values lib encoders e)
  unfolding raw_values
  raw_values-Named e =
      Yields-then
        (confidence lib encoders (get (metadata_of e.metadata) (codes "detection_confidence")))
        (λ c _.
          Yields-then (datetime_cell lib encoders (some e.observed_at)) (λ o _. named e _ refl))

  event_values-Named : (e : NormalizedEvent) → Named e (event_values lib encoders e)
  unfolding event_values
  event_values-Named e = Yields-then (datetime_cell lib encoders e.timestamp) (λ t _.
      Yields-then (datetime_cell lib encoders (some e.observed_at)) (λ o _.
        Yields-then (or_bad_value (to_ocsf_dict lib encoders.milliseconds e))
          (λ d _. named e _ refl)))

  quarantine_values-Named : (e : NormalizedEvent) → Named e (quarantine_values lib encoders e)
  unfolding quarantine_values
  quarantine_values-Named e =
      Yields-then (datetime_cell lib encoders (some e.observed_at)) (λ o _. named e _ refl)

  pub prepare-IsPrepared :
      (config : IngestSettings) (items : List NormalizedEvent)
      → Yields (IsPrepared items) (prepare config lib encoders items)
  unfolding prepare
  prepare-IsPrepared config items =
      Yields-then (fitting_rows n raw_table raw_columns (raw_values lib encoders) items) (λ raw a.
        Yields-then
          (fitting_rows n config.qualified_table normalized_columns (event_values lib encoders)
            (keep succeeded items))
          (λ normalized b.
            Yields-then
              (fitting_rows n quarantine_table quarantine_columns (quarantine_values lib encoders)
                (keep failed items))
              (λ rejected c. Yields-ok (IsPrepared items) _ (record {
                raw = fitting_rows-ids n raw_table raw_columns _ raw_values-Named items raw a;
                normalized =
                    fitting_rows-ids n config.qualified_table normalized_columns _
                      event_values-Named (keep succeeded items) normalized b;
                rejected =
                    fitting_rows-ids n quarantine_table quarantine_columns _ quarantine_values-Named
                      (keep failed items) rejected c;
              }))))
    where
      n : ℕ
      n = config.max_query_bytes
