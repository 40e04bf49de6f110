-- ===== src/Events/Verification.antt =====
-- VerificationEvent of secevent/pkg/schemes/ssf/verification_event.go.
use caep_dev.Base.{
  ◌≡◌, refl, sym, String, Bool, List, [], ◌∷◌, contains, Option, none, some, Result, ok, and_then,
}
use caep_dev.Base.Text.{same_fold, fold_rune}
use caep_dev.Json.{Json, text, object, Members, empty}
use caep_dev.Json.Decode.{Mismatch, field, read_pointer, addresses, struct_members, write_fields}
use caep_dev.Json.Laws.{field-optional}
use caep_dev.Events.Defs.{
  EventError, Details, with_details, parsed_with, as_details, checked, verification,
}
use caep_dev.Events.Metadata.{map_option, or_default}
use caep_dev.Events.Written.{pointer_read}

pub record VerificationPayload : Type 0 where
  pub state : Option String

pub record VerificationEvent : Type 0 where
  pub type : String
  pub payload : VerificationPayload

unfoldable pub new : VerificationEvent
new = record { type = verification; payload = record { state = none } }

unfoldable pub with_state : String → VerificationEvent → VerificationEvent
with_state s e = record e { payload = record { state = some s } }

unfoldable pub get_state : VerificationEvent → String × Bool
get_state e = or_default "" e.payload.state

unfoldable pub validate : VerificationEvent → Option EventError
validate e = none

-- `Payload()`
unfoldable pub payload : VerificationEvent → VerificationPayload
payload e = e.payload

abbrev pub fields_of : VerificationPayload → List (String × Option Json)
fields_of p = ("state", map_option text p.state) ∷ []

unfoldable pub marshal : VerificationEvent → Json
unfolding payload write_fields
marshal e = object (write_fields (fields_of (payload e)) empty)

abbrev names : List String
names = "state" ∷ []

abbrev read_payload : Members → Result Mismatch VerificationPayload
read_payload members =
    and_then (field read_pointer (addresses names "state") none members)
      (λ x0. ok (record { state = x0 }))

abbrev pub decode : Json → Result Details VerificationPayload
decode doc = with_details (and_then (struct_members doc) read_payload)

abbrev pub received : VerificationPayload → VerificationEvent
received p = record { type = verification; payload = p }

-- `UnmarshalJSON`
unfoldable pub unmarshal : Json → Result EventError VerificationEvent
unfolding validate and_then
unmarshal doc =
    and_then (parsed_with "failed to parse verification event data" (decode doc))
      (λ p. checked (validate (received p)) (received p))

unfoldable pub parse : Json → Result EventError VerificationEvent
unfolding unmarshal
parse doc = parsed_with "failed to parse verification event" (as_details (unmarshal doc))

read_payload-written :
    (p : VerificationPayload) → read_payload (write_fields (fields_of p) empty) ≡ ok p
unfolding write_fields and_then field addresses contains same_fold fold_rune
read_payload-written p = simp (field-optional, pointer_read (addresses names "state") p.state) refl

-- A valid event is read back as it was.
pub parse-marshal :
    (e : VerificationEvent) → e.type ≡ verification → validate e ≡ none → parse (marshal e) ≡ ok e
unfolding parse unmarshal marshal payload struct_members and_then
parse-marshal e t v = rw (read_payload-written e.payload, sym t) refl
