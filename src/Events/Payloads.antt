-- ===== src/Events/Payloads.antt =====
-- The method Payload of the interface Event of secevent/pkg/event/event.go, on the events of the
-- schemes.
use caep_dev.Base.{◌≡◌, refl, String, List, Option}
use caep_dev.Base.Dict.{Dict}
use caep_dev.Json.{Json, object, Members, empty}
use caep_dev.Json.Decode.{write_fields}
use caep_dev.Models.Value.{Value}
use caep_dev.Events.Metadata.{optional_members}
use caep_dev.Events.AssuranceLevel
use caep_dev.Events.DeviceCompliance
use caep_dev.Events.Credential
use caep_dev.Events.SessionRevoked
use caep_dev.Events.TokenClaims
use caep_dev.Events.Verification
use caep_dev.Events.StreamUpdate
use caep_dev.Events.Registry.{
  Event, assurance_level, device_compliance, credential, session, claims, verified, updated,
  marshal,
}

-- What `Payload()` gives, by its dynamic type: a map, or a struct, here as the members that
-- `encoding/json` writes of its fields and of its embedded metadata.
pub data EventPayload : Type 0 where
  map_value : Dict Value → EventPayload
  struct_value : (fields : List (String × Option Json)) (metadata : Members) → EventPayload

unfoldable pub payload : Event → EventPayload
unfolding AssuranceLevel.payload DeviceCompliance.payload Credential.payload SessionRevoked.payload
    TokenClaims.payload Verification.payload StreamUpdate.payload
payload (assurance_level e) =
    let (p, m) = AssuranceLevel.payload e in
    struct_value (AssuranceLevel.fields_of p) (optional_members m)
payload (device_compliance e) =
    let (p, m) = DeviceCompliance.payload e in
    struct_value (DeviceCompliance.fields_of p) (optional_members m)
payload (credential e) =
    let (p, m) = Credential.payload e in struct_value (Credential.fields_of p) (optional_members m)
payload (session e) =
    let (p, m) = SessionRevoked.payload e in
    struct_value (SessionRevoked.fields_of p) (optional_members m)
payload (claims e) =
    let (p, m) = TokenClaims.payload e in
    struct_value (TokenClaims.fields_of p) (optional_members m)
payload (verified e) = struct_value (Verification.fields_of (Verification.payload e)) empty
payload (updated e) = struct_value (StreamUpdate.fields_of (StreamUpdate.payload e)) empty

-- what `json.Marshal` writes of a struct
abbrev pub IsWrittenAs : EventPayload → Json → Type 0
IsWrittenAs (map_value m) doc = ⊥
IsWrittenAs (struct_value fields metadata) doc = doc ≡ object (write_fields fields metadata)

-- `MarshalJSON` writes the payload, which is a struct for every event.
pub marshal-payload : (e : Event) → IsWrittenAs (payload e) (marshal e)
unfolding marshal payload AssuranceLevel.marshal DeviceCompliance.marshal Credential.marshal
    SessionRevoked.marshal TokenClaims.marshal Verification.marshal StreamUpdate.marshal
    write_fields
marshal-payload (assurance_level e) = refl
marshal-payload (device_compliance e) = refl
marshal-payload (credential e) = refl
marshal-payload (session e) = refl
marshal-payload (claims e) = refl
marshal-payload (verified e) = refl
marshal-payload (updated e) = refl
