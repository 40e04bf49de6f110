-- ===== src/Events/StreamUpdate.antt =====
-- StreamUpdateEvent of secevent/pkg/schemes/ssf/stream_update_event.go.
use caep_dev.Base.{
  ◌≡◌, refl, sym, String, Bool, not, ◌||◌, List, [], ◌∷◌, contains, Option, none, some, ◌==◌,
  if◌then◌else◌, Result, ok, and_then,
}
use caep_dev.Base.Text.{same_fold, fold_rune}
use caep_dev.Json.{Json, text, object, Members, empty}
use caep_dev.Json.Decode.{
  Mismatch, field, read_text, read_pointer, addresses, struct_members, write_fields,
}
use caep_dev.Json.Laws.{field-optional}
use caep_dev.Events.Defs.{
  EventError, new_error, Details, blank, with_details, parsed_with, as_details, checked,
  invalid_value, stream_update,
}
use caep_dev.Events.Metadata.{map_option, or_default}
use caep_dev.Events.Written.{pointer_read}

pub record StreamUpdatePayload : Type 0 where
  pub status : String
  pub reason : Option String

pub record StreamUpdateEvent : Type 0 where
  pub type : String
  pub payload : StreamUpdatePayload

unfoldable pub new : (status : String) → StreamUpdateEvent
new status = record { type = stream_update; payload = record { status = status; reason = none } }

-- `ValidateStreamStatus`
unfoldable pub is_stream_status : String → Bool
is_stream_status s = s == "enabled" || (s == "paused" || s == "disabled")

unfoldable pub with_reason : String → StreamUpdateEvent → StreamUpdateEvent
with_reason s e = let p = e.payload in record e { payload = record p { reason = some s } }

unfoldable pub get_reason : StreamUpdateEvent → String × Bool
get_reason e = or_default "" e.payload.reason

unfoldable pub get_status : StreamUpdateEvent → String
get_status e = e.payload.status

unfoldable pub validate : StreamUpdateEvent → Option EventError
unfolding new_error is_stream_status
validate e =
    if not (is_stream_status e.payload.status)
    then some (new_error invalid_value "invalid stream status" "status" blank)
    else none

-- `Payload()`
unfoldable pub payload : StreamUpdateEvent → StreamUpdatePayload
payload e = e.payload

abbrev pub fields_of : StreamUpdatePayload → List (String × Option Json)
fields_of p = ("status", some (text p.status)) ∷ ("reason", map_option text p.reason) ∷ []

unfoldable pub marshal : StreamUpdateEvent → Json
unfolding payload write_fields
marshal e = object (write_fields (fields_of (payload e)) empty)

abbrev names : List String
names = "status" ∷ "reason" ∷ []

abbrev read_payload : Members → Result Mismatch StreamUpdatePayload
read_payload members = and_then (field read_text (addresses names "status") "" members) (λ x0.
    and_then (field read_pointer (addresses names "reason") none members)
      (λ x1. ok (record { status = x0; reason = x1 })))

abbrev pub decode : Json → Result Details StreamUpdatePayload
decode doc = with_details (and_then (struct_members doc) read_payload)

abbrev pub received : StreamUpdatePayload → StreamUpdateEvent
received p = record { type = stream_update; payload = p }

-- `UnmarshalJSON`
unfoldable pub unmarshal : Json → Result EventError StreamUpdateEvent
unfolding validate and_then
unmarshal doc =
    and_then (parsed_with "failed to parse stream update event data" (decode doc))
      (λ p. checked (validate (received p)) (received p))

unfoldable pub parse : Json → Result EventError StreamUpdateEvent
unfolding unmarshal
parse doc = parsed_with "failed to parse stream update event" (as_details (unmarshal doc))

read_payload-written :
    (p : StreamUpdatePayload) → read_payload (write_fields (fields_of p) empty) ≡ ok p
unfolding write_fields and_then field addresses contains same_fold fold_rune
read_payload-written p =
    simp (field-optional, pointer_read (addresses names "reason") p.reason) refl

-- A valid event is read back as it was.
pub parse-marshal :
    (e : StreamUpdateEvent) → e.type ≡ stream_update → validate e ≡ none → parse (marshal e) ≡ ok e
unfolding parse unmarshal marshal payload struct_members and_then
parse-marshal e t v = rw (read_payload-written e.payload, sym t, v) refl
