-- ===== src/Detection/Events.antt =====
-- ulpf/detection/models.py: the events that the rules read, and the findings.
use ocsf_forge.Prelude.{ℕ, Bool, not, ◌&&◌, ◌||◌, List, ◌==◌}
use ocsf_forge.Text.{Text, CharClass, text_eq, strip}
use ocsf_forge.Sql.Console.{is_empty}
use ocsf_forge.Models.{NormalizedEvent}

-- A timestamp is an instant, in microseconds since the epoch.
pub record AuthenticationEvent : Type 0 where
  pub event_id : Text
  pub timestamp : ℕ
  pub hostname : Text
  pub service : Text
  pub ip_address : Text
  pub user : Text
  pub status_id : ℕ
  pub class_uid : ℕ
  pub activity_id : ℕ

pub record Scope : Type 0 where
  pub hostname : Text
  pub service : Text
  pub ip_address : Text

abbrev pub scope : AuthenticationEvent → Scope
scope e = record { hostname = e.hostname; service = e.service; ip_address = e.ip_address }

abbrev pub same_scope : Scope → Scope → Bool
same_scope a b =
    text_eq a.hostname b.hostname
    && text_eq a.service b.service
    && text_eq a.ip_address b.ip_address

-- The `==` of the dataclass.
abbrev pub same_event : AuthenticationEvent → AuthenticationEvent → Bool
same_event a b =
    text_eq a.event_id b.event_id
    && a.timestamp == b.timestamp
    && same_scope (scope a) (scope b)
    && text_eq a.user b.user
    && a.status_id == b.status_id
    && a.class_uid == b.class_uid
    && a.activity_id == b.activity_id

module _ (u : CharClass) where
  abbrev pub says_something : Text → Bool
  says_something t = not (is_empty (strip u t))

  unfoldable pub eligible : AuthenticationEvent → Bool
  eligible e =
      e.class_uid == 3002
      && e.activity_id == 1
      && (e.status_id == 1 || e.status_id == 2)
      && says_something e.event_id
      && says_something e.hostname
      && says_something e.service
      && says_something e.ip_address
      && says_something e.user

pub record Detection : Type 0 where
  pub event : NormalizedEvent
  pub rule_id : Text
  pub rule_version : Text
  pub first_seen : ℕ
  pub last_seen : ℕ
  pub event_count : ℕ
  pub evidence_ids : List Text
