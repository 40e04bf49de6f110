-- ===== src/Events/DeviceCompliance.antt =====
-- DeviceComplianceChangeEvent of secevent/pkg/schemes/caep/device_compliance_change_event.go.
use Prim.Native.String.{◌++◌}
use caep_dev.Base.{
  ℕ, ◌≡◌, refl, String, not, List, [], ◌∷◌, contains, Option, none, some, ◌==◌, if◌then◌else◌,
  Result, ok, and_then, sym,
}
use caep_dev.Base.Int.{ℤ}
use caep_dev.Base.Text.{same_fold, fold_rune}
use caep_dev.Json.{Json, text, object, Members}
use caep_dev.Json.Decode.{Mismatch, field, read_text, addresses, struct_members, write_fields}
use caep_dev.Json.Laws.{field-optional}
use caep_dev.Events.Defs.{
  EventError, new_error, Details, blank, with_details, parsed_with, as_details, checked,
  invalid_value, device_compliance_change,
}
use caep_dev.Events.Metadata.{EventMetadata, optional_members, decode_metadata}
use caep_dev.Events.Base
use caep_dev.Events.Base.{BaseCaepEvent, base_event, validate_metadata}
use caep_dev.Events.Written.{
  IsWritableOption, TellsApart, Avoids, decode_metadata-written, other_field,
}

pub record DeviceComplianceChangePayload : Type 0 where
  pub current_status : String
  pub previous_status : String

pub record DeviceComplianceChangeEvent : Type 0 where
  pub base : BaseCaepEvent
  pub payload : DeviceComplianceChangePayload

unfoldable pub new : (current_status previous_status : String) → DeviceComplianceChangeEvent
unfolding base_event
new current previous = record {
  base = base_event device_compliance_change;
  payload = record { current_status = current; previous_status = previous };
}

unfoldable pub with_event_timestamp : ℤ → DeviceComplianceChangeEvent → DeviceComplianceChangeEvent
unfolding Base.with_event_timestamp
with_event_timestamp t e = record e { base = Base.with_event_timestamp t e.base }

unfoldable pub with_initiating_entity :
    ℕ → DeviceComplianceChangeEvent → DeviceComplianceChangeEvent
unfolding Base.with_initiating_entity
with_initiating_entity i e = record e { base = Base.with_initiating_entity i e.base }

unfoldable pub with_reason_admin :
    (language reason : String) → DeviceComplianceChangeEvent → DeviceComplianceChangeEvent
unfolding Base.with_reason_admin
with_reason_admin language reason e = record e {
  base = Base.with_reason_admin language reason e.base;
}

unfoldable pub with_reason_user :
    (language reason : String) → DeviceComplianceChangeEvent → DeviceComplianceChangeEvent
unfolding Base.with_reason_user
with_reason_user language reason e = record e {
  base = Base.with_reason_user language reason e.base;
}

unfoldable pub get_current_status : DeviceComplianceChangeEvent → String
get_current_status e = e.payload.current_status

unfoldable pub get_previous_status : DeviceComplianceChangeEvent → String
get_previous_status e = e.payload.previous_status

-- `validStatuses`
abbrev pub valid_statuses : List String
valid_statuses = "compliant" ∷ "not-compliant" ∷ []

unfoldable pub validate : DeviceComplianceChangeEvent → Option EventError
unfolding validate_metadata new_error contains
validate e = elim (validate_metadata e.base) [
  | some x ↦ some x
  | none ↦
      if not (contains valid_statuses e.payload.current_status)
      then some (
          new_error invalid_value ("invalid current status: " ++ e.payload.current_status)
            "current_status" blank)
      else if not (contains valid_statuses e.payload.previous_status)
      then some (
          new_error invalid_value ("invalid previous status: " ++ e.payload.previous_status)
            "previous_status" blank)
      else if e.payload.current_status == e.payload.previous_status
      then some
          (new_error invalid_value "current and previous status must be different" "status" blank)
      else none
]

-- `Payload()`: a struct of the two
unfoldable pub payload :
    DeviceComplianceChangeEvent → DeviceComplianceChangePayload × Option EventMetadata
payload e = (e.payload, e.base.metadata)

abbrev pub fields_of : DeviceComplianceChangePayload → List (String × Option Json)
fields_of p =
    ("current_status", some (text p.current_status))
    ∷ ("previous_status", some (text p.previous_status))
    ∷ []

unfoldable pub marshal : DeviceComplianceChangeEvent → Json
unfolding payload write_fields
marshal e = let (p, m) = payload e in object (write_fields (fields_of p) (optional_members m))

abbrev names : List String
names =
    "current_status" ∷ "previous_status" ∷ "event_timestamp" ∷ "initiating_entity" ∷ "reason_admin"
    ∷ "reason_user" ∷ []

abbrev read_payload : Members → Result Mismatch DeviceComplianceChangePayload
read_payload members =
    and_then (field read_text (addresses names "current_status") "" members) (λ x0.
      and_then (field read_text (addresses names "previous_status") "" members)
        (λ x1. ok (record { current_status = x0; previous_status = x1 })))

abbrev pub decode : Json → Result Details (DeviceComplianceChangePayload × Option EventMetadata)
decode doc = and_then (with_details (struct_members doc)) (decode_metadata names read_payload)

abbrev pub received :
    DeviceComplianceChangePayload × Option EventMetadata → DeviceComplianceChangeEvent
received (p, m) = record {
  base = record { type = device_compliance_change; metadata = m };
  payload = p;
}

-- `UnmarshalJSON`
unfoldable pub unmarshal : Json → Result EventError DeviceComplianceChangeEvent
unfolding validate and_then
unmarshal doc =
    and_then (parsed_with "failed to parse device compliance change event data" (decode doc))
      (λ r. checked (validate (received r)) (received r))

unfoldable pub parse : Json → Result EventError DeviceComplianceChangeEvent
unfolding unmarshal
parse doc =
    parsed_with "failed to parse device compliance change event" (as_details (unmarshal doc))

read_payload-written :
    (p : DeviceComplianceChangePayload) (o : Option EventMetadata)
    → read_payload (write_fields (fields_of p) (optional_members o)) ≡ ok p
unfolding write_fields and_then field addresses contains same_fold fold_rune
read_payload-written p o =
    simp
      (
        field-optional,
        other_field read_text (addresses names "current_status") p.current_status o
            (refl, refl, refl, refl),
        other_field read_text (addresses names "previous_status") p.previous_status o
            (refl, refl, refl, refl),
      )
      refl

apart : TellsApart names
unfolding addresses contains same_fold fold_rune
apart = (
  (refl, refl, refl, refl),
  (refl, refl, refl, refl),
  (refl, refl, refl, refl),
  (refl, refl, refl, refl),
  (refl, refl, refl, refl),
)

avoided : (p : DeviceComplianceChangePayload) → Avoids names (fields_of p)
unfolding addresses contains same_fold fold_rune
avoided p = (
  (refl, (refl, tt)),
  (refl, (refl, tt)),
  (refl, (refl, tt)),
  (refl, (refl, tt)),
  (refl, (refl, tt)),
)

-- A valid event, with metadata that are written whole, is read back as it was.
pub parse-marshal :
    (e : DeviceComplianceChangeEvent)
    → e.base.type ≡ device_compliance_change
    → IsWritableOption e.base.metadata
    → validate e ≡ none
    → parse (marshal e) ≡ ok e
unfolding parse unmarshal marshal payload struct_members and_then addresses contains same_fold
    fold_rune
parse-marshal e t w v =
    rw
      (
        decode_metadata-written names read_payload e.payload (fields_of e.payload) e.base.metadata
            apart (avoided e.payload) w (read_payload-written e.payload e.base.metadata),
        sym t,
        v,
      )
      refl
