-- ===== src/Ocsf/Tests.antt =====
-- Projections to OCSF at concrete events.
use ocsf_forge.Prelude.{◌≡◌, refl, some, List, [], ◌∷◌}
use ocsf_forge.Text.{Text, codes}
use ocsf_forge.Json.{Value, int, str, obj, Fields, fields}
use ocsf_forge.Models.{NormalizedEvent, default_event}
use ocsf_forge.Ocsf.Context.{retain_context}
use ocsf_forge.Ocsf.Record.{to_ocsf_dict}
use ocsf_forge.Ocsf.Moved.{IsMoved, retain_context-IsMoved}
use ocsf_forge.Ocsf.Record.{shaped}
use ocsf_forge.Ocsf.Actor.{IsShaped, to_ocsf_dict-IsShaped}
use ocsf_forge.Pipeline.Samples.{lib}

abbrev hostless : Fields
hostless = fields (
    (codes "device", str (codes "d"))
    ∷ (codes "time", int 5)
    ∷ (codes "unmapped", obj (fields ((codes "k", int 1) ∷ [])))
    ∷ [])

abbrev moved_names : List Text
moved_names = codes "device" ∷ codes "actor" ∷ []

retain_context-IsMoved_example : IsMoved moved_names hostless (retain_context hostless moved_names)
retain_context-IsMoved_example = retain_context-IsMoved moved_names hostless refl

abbrev logon : NormalizedEvent
logon = record default_event {
  event_id = codes "a";
  class_uid = 3002;
  user = codes "ann";
  observed_at = codes "now";
  timestamp = some (codes "then");
}

abbrev logon_record : Fields
logon_record = shaped lib (λ _. some (int 0)) logon (int 0) (int 0)

to_ocsf_dict-IsShaped_example :
    (time : Value) × (logged : Value) × (some (int 0) ≡ some time)
    × (some (int 0) ≡ some logged)
    × IsShaped logon time logged logon_record
unfolding to_ocsf_dict
to_ocsf_dict-IsShaped_example =
    to_ocsf_dict-IsShaped lib (λ _. some (int 0)) logon logon_record refl
