-- ===== src/Detection/Order.antt =====
-- ulpf/detection/rules.py: `unique` and `ordered`, the events that the loop goes through.
use ocsf_forge.Prelude.{Bool, true, false, ◌&&◌, ◌||◌, List, [], ◌∷◌, ltb, ◌==◌, if◌then◌else◌}
use ocsf_forge.Text.{Text, text_eq}
use ocsf_forge.Detection.Events.{AuthenticationEvent}

-- `text <= text`, by code points.
abbrev pub text_le : Text → Text → Bool
text_le [] t = true
text_le (a ∷ s) [] = false
text_le (a ∷ s) (b ∷ t) = ltb a b || (a == b && text_le s t)

-- `unique`: a later event with the same id takes the place of the earlier one.
unfoldable pub put_event : AuthenticationEvent → List AuthenticationEvent → List AuthenticationEvent
put_event e [] = e ∷ []
put_event e (f ∷ l) = if text_eq f.event_id e.event_id then e ∷ l else f ∷ put_event e l

unfoldable pub unique_from :
    List AuthenticationEvent → List AuthenticationEvent → List AuthenticationEvent
unique_from kept [] = kept
unique_from kept (e ∷ l) = unique_from (put_event e kept) l

-- `sorted(..., key=lambda event: (event.timestamp, event.event_id))`.
abbrev pub before : AuthenticationEvent → AuthenticationEvent → Bool
before e f =
    ltb e.timestamp f.timestamp || (e.timestamp == f.timestamp && text_le e.event_id f.event_id)

unfoldable pub insert : AuthenticationEvent → List AuthenticationEvent → List AuthenticationEvent
insert e [] = e ∷ []
insert e (f ∷ l) = if before e f then e ∷ f ∷ l else f ∷ insert e l

unfoldable pub sort : List AuthenticationEvent → List AuthenticationEvent
unfolding insert
sort [] = []
sort (e ∷ l) = insert e (sort l)
