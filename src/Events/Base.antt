-- ===== src/Events/Base.antt =====
-- secevent/pkg/schemes/caep/baseevent.go, on the metadata that all CAEP events have.
use caep_dev.Base.{ℕ, String, Bool, false, Option, none, some}
use caep_dev.Base.Int.{ℤ, pos}
use caep_dev.Base.Dict.{Dict}
use caep_dev.Events.Defs.{EventError}
use caep_dev.Events.Metadata
use caep_dev.Events.Metadata.{EventMetadata, new_event_metadata, entity_system, optional_members}

-- the type of the event and its metadata, which may be nil
pub record BaseCaepEvent : Type 0 where
  pub type : String
  pub metadata : Option EventMetadata

unfoldable pub base_event : (type : String) → BaseCaepEvent
base_event type = record { type = type; metadata = none }

unfoldable pub get_metadata : BaseCaepEvent → Option EventMetadata
get_metadata e = e.metadata

unfoldable pub set_metadata : Option EventMetadata → BaseCaepEvent → BaseCaepEvent
set_metadata m e = record e { metadata = m }

-- `if e.Metadata == nil { e.Metadata = NewEventMetadata() }`
abbrev or_new : Option EventMetadata → EventMetadata
or_new none = new_event_metadata
or_new (some m) = m

unfoldable pub with_event_timestamp : ℤ → BaseCaepEvent → BaseCaepEvent
unfolding Metadata.with_event_timestamp new_event_metadata
with_event_timestamp t e = record e {
  metadata = some (Metadata.with_event_timestamp t (or_new e.metadata));
}

unfoldable pub with_initiating_entity : ℕ → BaseCaepEvent → BaseCaepEvent
unfolding Metadata.with_initiating_entity new_event_metadata
with_initiating_entity i e = record e {
  metadata = some (Metadata.with_initiating_entity i (or_new e.metadata));
}

unfoldable pub with_reason_admin : (language reason : String) → BaseCaepEvent → BaseCaepEvent
unfolding Metadata.with_reason_admin new_event_metadata
with_reason_admin language reason e = record e {
  metadata = some (Metadata.with_reason_admin language reason (or_new e.metadata));
}

unfoldable pub with_reason_user : (language reason : String) → BaseCaepEvent → BaseCaepEvent
unfolding Metadata.with_reason_user new_event_metadata
with_reason_user language reason e = record e {
  metadata = some (Metadata.with_reason_user language reason (or_new e.metadata));
}

unfoldable pub get_event_timestamp : BaseCaepEvent → ℤ × Bool
unfolding Metadata.get_event_timestamp
get_event_timestamp e = elim e.metadata [
  | none ↦ (pos 0, false)
  | some m ↦ Metadata.get_event_timestamp m
]

unfoldable pub get_initiating_entity : BaseCaepEvent → ℕ × Bool
unfolding Metadata.get_initiating_entity
get_initiating_entity e = elim e.metadata [
  | none ↦ (entity_system, false)
  | some m ↦ Metadata.get_initiating_entity m
]

unfoldable pub get_reason_admin : String → BaseCaepEvent → String × Bool
unfolding Metadata.get_reason_admin
get_reason_admin language e = elim e.metadata [
  | none ↦ ("", false)
  | some m ↦ Metadata.get_reason_admin language m
]

unfoldable pub get_reason_user : String → BaseCaepEvent → String × Bool
unfolding Metadata.get_reason_user
get_reason_user language e = elim e.metadata [
  | none ↦ ("", false)
  | some m ↦ Metadata.get_reason_user language m
]

unfoldable pub get_all_reason_admin : BaseCaepEvent → Option (Dict String)
unfolding Metadata.get_all_reason_admin
get_all_reason_admin e = elim e.metadata [ none ↦ none | some m ↦ Metadata.get_all_reason_admin m ]

unfoldable pub get_all_reason_user : BaseCaepEvent → Option (Dict String)
unfolding Metadata.get_all_reason_user
get_all_reason_user e = elim e.metadata [ none ↦ none | some m ↦ Metadata.get_all_reason_user m ]

unfoldable pub validate_metadata : BaseCaepEvent → Option EventError
unfolding Metadata.validate
validate_metadata e = elim e.metadata [ none ↦ none | some m ↦ Metadata.validate m ]
