-- ===== src/Tokens/Delivered.antt =====
-- What the hub's broker makes of a parsed token of secevent/pkg/token: the payloads that it reads
-- (ssf-hub/internal/controller/broker.go) are those of the token's subject and event.
use Prim.Native.String.{◌++◌}
use caep_dev.Base.{◌≡◌, ◌≢◌, ◌↔◌, ◌∙◌, refl, ap, String, true, [], some, returns}
use caep_dev.Base.Dict.{lookup}
use caep_dev.Models.Receiver.{Time, EventFilter}
use caep_dev.Models.Event.{SecurityEvent}
use caep_dev.Models.Filter.{op_exists, index, extract_field_value, filter_matches}
use caep_dev.Models.Filter.Laws.{extract_field_value-data, filter_matches-missing}
use caep_dev.Subjects
use caep_dev.Subjects.Complex.{Subject}
use caep_dev.Subjects.Payloads.{format_of, payload-IsPayload}
use caep_dev.Events
use caep_dev.Events.Registry.{
  Event, assurance_level, device_compliance, credential, session, claims, verified, updated,
  type_of,
}
use caep_dev.Events.Payloads.{EventPayload, map_value, struct_value}
use caep_dev.Broker
use caep_dev.Broker.{Readings, Payload, map_payload, other_payload, convert_to_security_event}
use caep_dev.Tokens.Defs.{RegisteredClaims}

-- The interface value that the broker tests for a map
abbrev pub as_interface : EventPayload → Payload
as_interface (map_value m) = map_payload m
as_interface (struct_value fields metadata) = other_payload

-- What the broker reads of a token through the methods of its subject and event.
abbrev pub as_read : RegisteredClaims → Event → Subject → Broker.SecEvent
as_read c e s = record {
  id = c.id;
  issuer = c.issuer;
  issued_at = c.issued_at;
  subject_payload = Subjects.Complex.payload s;
  event_type = type_of e;
  event_payload = as_interface (Events.Payloads.payload e);
}

-- No event of the schemes has a map as its payload.
payload-as_interface : (e : Event) → as_interface (Events.Payloads.payload e) ≡ other_payload
unfolding Events.Payloads.payload
payload-as_interface (assurance_level e) = refl
payload-as_interface (device_compliance e) = refl
payload-as_interface (credential e) = refl
payload-as_interface (session e) = refl
payload-as_interface (claims e) = refl
payload-as_interface (verified e) = refl
payload-as_interface (updated e) = refl

without_data :
    (f : EventFilter) (x : SecurityEvent) (k : String)
    → f.field ≡ "data." ++ k
    → k ≢ ""
    → x.event_data ≡ []
    → (filter_matches f x ≡ returns true) ↔ (f.operator ≢ op_exists)
unfolding index lookup
without_data f x k field given h =
    filter_matches-missing f x (
      ap (λ n. extract_field_value n x) field ∙ extract_field_value-data k x given ∙ ap (index k) h)

-- The broker converts a token with an issue time without a panic, and the hub's event has the type of
-- the token's event and the format of its subject, but an empty identifier and no data of the event:
-- a filter on a field of the data lets it through exactly when its operator is not `exists`, whatever
-- the token's event holds.
pub convert_to_security_event-token :
    (now : Readings) (c : RegisteredClaims) (e : Event) (s : Subject)
    (raw_set transmitter_id : String) (t : Time) (f : EventFilter) (k : String)
    → c.issued_at ≡ some t
    → f.field ≡ "data." ++ k
    → k ≢ ""
    → (x : SecurityEvent) × (convert_to_security_event now (as_read c e s) raw_set transmitter_id
        ≡ returns x)
      × (x.type ≡ type_of e)
      × (x.subject.format ≡ format_of s)
      × (x.subject.identifier ≡ "")
      × (x.event_data ≡ [])
      × ((filter_matches f x ≡ returns true) ↔ (f.operator ≢ op_exists))
unfolding convert_to_security_event
convert_to_security_event-token now c e s raw_set transmitter_id t f k issued field given =
    let (p, found, (formatted, unidentified)) = payload-IsPayload s in
    rw (issued, found, payload-as_interface e)
      (
        _,
        refl,
        refl,
        rw formatted refl,
        rw unidentified refl,
        refl,
        without_data f _ k field given refl,
      )
