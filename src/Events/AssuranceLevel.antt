-- ===== src/Events/AssuranceLevel.antt =====
-- AssuranceLevelChangeEvent of secevent/pkg/schemes/caep/assurance_level_change_event.go.
use Prim.Native.String.{◌++◌}
use caep_dev.Base.{
  ℕ, ◌≡◌, refl, String, not, ◌&&◌, List, [], ◌∷◌, contains, Option, none, some, ◌==◌, if◌then◌else◌,
  Result, ok, and_then, sym,
}
use caep_dev.Base.Int.{ℤ}
use caep_dev.Base.Text.{same_fold, fold_rune}
use caep_dev.Json.{Json, text, object, Members}
use caep_dev.Json.Decode.{Mismatch, field, read_text, addresses, struct_members, write_fields}
use caep_dev.Json.Laws.{field-optional}
use caep_dev.Events.Defs.{
  EventError, new_error, Details, blank, with_details, parsed_with, as_details, checked,
  invalid_value, assurance_level_change,
}
use caep_dev.Events.Metadata.{EventMetadata, optional_members, decode_metadata}
use caep_dev.Events.Base
use caep_dev.Events.Base.{BaseCaepEvent, base_event, validate_metadata}
use caep_dev.Events.Written.{
  IsWritableOption, TellsApart, Avoids, decode_metadata-written, other_field,
}

pub record AssuranceLevelChangePayload : Type 0 where
  pub current_level : String
  pub previous_level : String
  pub change_direction : String

pub record AssuranceLevelChangeEvent : Type 0 where
  pub base : BaseCaepEvent
  pub payload : AssuranceLevelChangePayload

unfoldable pub new :
    (current_level previous_level change_direction : String) → AssuranceLevelChangeEvent
unfolding base_event
new current previous direction = record {
  base = base_event assurance_level_change;
  payload = record {
    current_level = current;
    previous_level = previous;
    change_direction = direction;
  };
}

unfoldable pub with_event_timestamp : ℤ → AssuranceLevelChangeEvent → AssuranceLevelChangeEvent
unfolding Base.with_event_timestamp
with_event_timestamp t e = record e { base = Base.with_event_timestamp t e.base }

unfoldable pub with_initiating_entity : ℕ → AssuranceLevelChangeEvent → AssuranceLevelChangeEvent
unfolding Base.with_initiating_entity
with_initiating_entity i e = record e { base = Base.with_initiating_entity i e.base }

unfoldable pub with_reason_admin :
    (language reason : String) → AssuranceLevelChangeEvent → AssuranceLevelChangeEvent
unfolding Base.with_reason_admin
with_reason_admin language reason e = record e {
  base = Base.with_reason_admin language reason e.base;
}

unfoldable pub with_reason_user :
    (language reason : String) → AssuranceLevelChangeEvent → AssuranceLevelChangeEvent
unfolding Base.with_reason_user
with_reason_user language reason e = record e {
  base = Base.with_reason_user language reason e.base;
}

unfoldable pub get_current_level : AssuranceLevelChangeEvent → String
get_current_level e = e.payload.current_level

unfoldable pub get_previous_level : AssuranceLevelChangeEvent → String
get_previous_level e = e.payload.previous_level

unfoldable pub get_change_direction : AssuranceLevelChangeEvent → String
get_change_direction e = e.payload.change_direction

-- `validLevels`
abbrev pub valid_levels : List String
valid_levels = "nist-aal1" ∷ "nist-aal2" ∷ "nist-aal3" ∷ []

unfoldable pub validate : AssuranceLevelChangeEvent → Option EventError
unfolding validate_metadata new_error contains
validate e = elim (validate_metadata e.base) [
  | some x ↦ some x
  | none ↦
      if not (contains valid_levels e.payload.current_level)
      then some (
          new_error invalid_value ("invalid current level: " ++ e.payload.current_level)
            "current_level" blank)
      else if not (contains valid_levels e.payload.previous_level)
      then some (
          new_error invalid_value ("invalid previous level: " ++ e.payload.previous_level)
            "previous_level" blank)
      else if not (e.payload.change_direction == "increase")
          && not (e.payload.change_direction == "decrease")
      then some (
          new_error invalid_value ("invalid change direction: " ++ e.payload.change_direction)
            "change_direction" blank)
      else if e.payload.current_level == e.payload.previous_level
      then some
          (new_error invalid_value "current and previous levels must be different" "levels" blank)
      else none
]

-- `Payload()`: a struct of the two
unfoldable pub payload :
    AssuranceLevelChangeEvent → AssuranceLevelChangePayload × Option EventMetadata
payload e = (e.payload, e.base.metadata)

abbrev pub fields_of : AssuranceLevelChangePayload → List (String × Option Json)
fields_of p =
    ("current_level", some (text p.current_level))
    ∷ ("previous_level", some (text p.previous_level))
    ∷ ("change_direction", some (text p.change_direction))
    ∷ []

unfoldable pub marshal : AssuranceLevelChangeEvent → Json
unfolding payload write_fields
marshal e = let (p, m) = payload e in object (write_fields (fields_of p) (optional_members m))

abbrev names : List String
names =
    "current_level" ∷ "previous_level" ∷ "change_direction" ∷ "event_timestamp"
    ∷ "initiating_entity" ∷ "reason_admin" ∷ "reason_user" ∷ []

abbrev read_payload : Members → Result Mismatch AssuranceLevelChangePayload
read_payload members =
    and_then (field read_text (addresses names "current_level") "" members) (λ x0.
      and_then (field read_text (addresses names "previous_level") "" members) (λ x1.
        and_then (field read_text (addresses names "change_direction") "" members)
          (λ x2. ok (record { current_level = x0; previous_level = x1; change_direction = x2 }))))

abbrev pub decode : Json → Result Details (AssuranceLevelChangePayload × Option EventMetadata)
decode doc = and_then (with_details (struct_members doc)) (decode_metadata names read_payload)

abbrev pub received : AssuranceLevelChangePayload × Option EventMetadata → AssuranceLevelChangeEvent
received (p, m) = record {
  base = record { type = assurance_level_change; metadata = m };
  payload = p;
}

-- `UnmarshalJSON`
unfoldable pub unmarshal : Json → Result EventError AssuranceLevelChangeEvent
unfolding validate and_then
unmarshal doc =
    and_then (parsed_with "failed to parse assurance level change event data" (decode doc))
      (λ r. checked (validate (received r)) (received r))

unfoldable pub parse : Json → Result EventError AssuranceLevelChangeEvent
unfolding unmarshal
parse doc = parsed_with "failed to parse assurance level change event" (as_details (unmarshal doc))

read_payload-written :
    (p : AssuranceLevelChangePayload) (o : Option EventMetadata)
    → read_payload (write_fields (fields_of p) (optional_members o)) ≡ ok p
unfolding write_fields and_then field addresses contains same_fold fold_rune
read_payload-written p o =
    simp
      (
        field-optional,
        other_field read_text (addresses names "current_level") p.current_level o
            (refl, refl, refl, refl),
        other_field read_text (addresses names "previous_level") p.previous_level o
            (refl, refl, refl, refl),
        other_field read_text (addresses names "change_direction") p.change_direction o
            (refl, refl, refl, refl),
      )
      refl

apart : TellsApart names
unfolding addresses contains same_fold fold_rune
apart = (
  (refl, refl, refl, refl),
  (refl, refl, refl, refl),
  (refl, refl, refl, refl),
  (refl, refl, refl, refl),
  (refl, refl, refl, refl),
)

avoided : (p : AssuranceLevelChangePayload) → Avoids names (fields_of p)
unfolding addresses contains same_fold fold_rune
avoided p = (
  (refl, (refl, (refl, tt))),
  (refl, (refl, (refl, tt))),
  (refl, (refl, (refl, tt))),
  (refl, (refl, (refl, tt))),
  (refl, (refl, (refl, tt))),
)

-- A valid event, with metadata that are written whole, is read back as it was.
pub parse-marshal :
    (e : AssuranceLevelChangeEvent)
    → e.base.type ≡ assurance_level_change
    → IsWritableOption e.base.metadata
    → validate e ≡ none
    → parse (marshal e) ≡ ok e
unfolding parse unmarshal marshal payload struct_members and_then addresses contains same_fold
    fold_rune
parse-marshal e t w v =
    rw
      (
        decode_metadata-written names read_payload e.payload (fields_of e.payload) e.base.metadata
            apart (avoided e.payload) w (read_payload-written e.payload e.base.metadata),
        sym t,
        v,
      )
      refl
