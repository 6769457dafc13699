-- ===== src/Storage/Unique.antt =====
-- ulpf/services/trino.py: `unique_events` loses no event id.
use mathlib.Core.Path.{subst}
use ocsf_forge.Prelude.{
  All-map, false, ◌≡◌, refl, ap, sym, inl, inr, true, ◌||◌, List, [], ◌∷◌, map, All, Bool-cases,
  arith,
}
use ocsf_forge.Text.{Text, text_eq, text_eq_iff, text_eq_refl, is_in}
use ocsf_forge.Models.{NormalizedEvent}
use ocsf_forge.Storage.Ids.{Has}
use ocsf_forge.Storage.Ingest.{put_by_id, unique_onto, unique_items, in_run}
use ocsf_forge.Storage.Named.{event_ids}

-- The last event of each id is kept, so each id is.
put_by_id-first :
    (e : NormalizedEvent) (events : List NormalizedEvent)
    → Has (event_ids (put_by_id e events)) e.event_id
unfolding put_by_id
put_by_id-first e [] = ground (arith, text_eq_refl e.event_id)
put_by_id-first e (f ∷ events) = elim (Bool-cases (text_eq e.event_id f.event_id)) [
  | inl same ↦ rw same (ground (arith, text_eq_refl e.event_id))
  | inr other ↦ rw other (ground (arith, put_by_id-first e events))
]

put_by_id-later :
    (e : NormalizedEvent) (events : List NormalizedEvent) (id : Text)
    → Has (event_ids events) id
    → Has (event_ids (put_by_id e events)) id
unfolding put_by_id
put_by_id-later e [] id h = ground (arith, h)
put_by_id-later e (f ∷ events) id h = elim (Bool-cases (text_eq e.event_id f.event_id)) [
  | inl same ↦ rw same (
      subst (λ x. (text_eq id x || is_in id (event_ids events)) ≡ true)
        (sym ((text_eq_iff e.event_id f.event_id).0 same)) h)
  | inr other ↦ rw other (elim (Bool-cases (text_eq id f.event_id)) [
    | inl here ↦ ground (arith, here)
    | inr there ↦ ground (arith, there, h, put_by_id-later e events id)
  ])
]

unique_onto-later :
    (events found : List NormalizedEvent) (id : Text)
    → Has (event_ids found) id
    → Has (event_ids (unique_onto found events)) id
unfolding unique_onto
unique_onto-later [] found id h = h
unique_onto-later (e ∷ events) found id h =
    unique_onto-later events (put_by_id e found) id (put_by_id-later e found id h)

unique_onto-All :
    (events found : List NormalizedEvent)
    → All (Has (event_ids (unique_onto found events))) (event_ids events)
unfolding unique_onto
unique_onto-All [] found = tt
unique_onto-All (e ∷ events) found = (
  unique_onto-later events (put_by_id e found) e.event_id (put_by_id-first e found),
  unique_onto-All events (put_by_id e found),
)

pub event_ids-in_run :
    (run_id : Text) (events : List NormalizedEvent)
    → event_ids (map (in_run run_id) events) ≡ event_ids events
event_ids-in_run run_id [] = refl
event_ids-in_run run_id (e ∷ events) =
    ap (λ known. e.event_id ∷ known) (event_ids-in_run run_id events)

-- Each event that is received has its id among the items that are stored.
pub unique_items-All :
    (run_id : Text) (received : List NormalizedEvent)
    → All (Has (event_ids (unique_items run_id received))) (event_ids received)
unfolding unique_items
unique_items-All run_id received =
    subst (λ known. All (Has known) (event_ids received))
      (sym (event_ids-in_run run_id (unique_onto [] received))) (unique_onto-All received [])

-- What holds of each event that no later one of the same id replaces.
abbrev pub AllLast : (NormalizedEvent → Type 0) → List NormalizedEvent → Type 0
AllLast P [] = Unit
AllLast P (e ∷ events) = (is_in e.event_id (event_ids events) ≡ false → P e) × AllLast P events

-- An event that was put stays if none of its id follows.
put_by_id-last :
    (P : NormalizedEvent → Type 0) (e : NormalizedEvent) (found : List NormalizedEvent)
    → All P (put_by_id e found)
    → P e
unfolding put_by_id
put_by_id-last P e [] = λ (h, _). h
put_by_id-last P e (f ∷ found) = elim (Bool-cases (text_eq e.event_id f.event_id)) [
  | inl same ↦ rw same (λ (h, _). h)
  | inr other ↦ rw other (λ (_, hs). put_by_id-last P e found hs)
]

-- What holds after `e` is put holds, apart from its id, before.
put_by_id-others :
    (P : NormalizedEvent → Type 0) (id : Text) (e : NormalizedEvent) (found : List NormalizedEvent)
    → text_eq id e.event_id ≡ false
    → All (λ x. x.event_id ≡ id → P x) (put_by_id e found)
    → All (λ x. x.event_id ≡ id → P x) found
unfolding put_by_id
put_by_id-others P id e [] h = λ hs. tt
put_by_id-others P id e (f ∷ found) h = elim (Bool-cases (text_eq e.event_id f.event_id)) [
  | inl same ↦ rw same (λ (k, ks). ((λ is. absurd (apart id e.event_id f.event_id h same is)), ks))
  | inr other ↦ rw other (λ (k, ks). (k, put_by_id-others P id e found h ks))
]
  where
    apart : (a b c : Text) → text_eq a b ≡ false → text_eq b c ≡ true → c ≡ a → ⊥
    apart a b c no_ yes_ is = absurd (ground (arith, text_eq_iff a b, text_eq_iff b c, sym is))

unique_onto-others :
    (P : NormalizedEvent → Type 0) (id : Text) (events found : List NormalizedEvent)
    → is_in id (event_ids events) ≡ false
    → All (λ x. x.event_id ≡ id → P x) (unique_onto found events)
    → All (λ x. x.event_id ≡ id → P x) found
unfolding unique_onto
unique_onto-others P id [] found h hs = hs
unique_onto-others P id (e ∷ events) found h hs =
    put_by_id-others P id e found (ground (arith, h))
      (unique_onto-others P id events (put_by_id e found) (ground (arith, h)) hs)

-- The last event of each id is among the unique ones.
pub unique_onto-AllLast :
    (P : NormalizedEvent → Type 0) (events found : List NormalizedEvent)
    → All P (unique_onto found events)
    → AllLast P events
unfolding unique_onto
unique_onto-AllLast P [] found h = tt
unique_onto-AllLast P (e ∷ events) found h = (
  (λ last.
      put_by_id-last (λ x. x.event_id ≡ e.event_id → P x) e found
        (unique_onto-others P e.event_id events (put_by_id e found) last (
          All-map P (λ x. x.event_id ≡ e.event_id → P x) (λ x p _. p)
            (unique_onto (put_by_id e found) events) h))
        refl),
  unique_onto-AllLast P events (put_by_id e found) h,
)
