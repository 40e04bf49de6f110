-- ===== src/Events/SessionRevoked.antt =====
-- SessionRevokedEvent of secevent/pkg/schemes/caep/session_revoked_event.go.
use caep_dev.Base.{
  ℕ, ◌≡◌, refl, String, List, [], ◌∷◌, contains, Option, none, some, Result, ok, and_then, sym,
}
use caep_dev.Base.Int.{ℤ}
use caep_dev.Base.Text.{same_fold, fold_rune}
use caep_dev.Json.{Json, object, Members}
use caep_dev.Json.Decode.{Mismatch, addresses, struct_members, write_fields}
use caep_dev.Events.Defs.{
  EventError, new_error, Details, with_details, parsed_with, as_details, checked, session_revoked,
}
use caep_dev.Events.Metadata.{EventMetadata, optional_members, decode_metadata}
use caep_dev.Events.Base
use caep_dev.Events.Base.{BaseCaepEvent, base_event, validate_metadata}
use caep_dev.Events.Written.{IsWritableOption, TellsApart, Avoids, decode_metadata-written}

pub record SessionRevokedEvent : Type 0 where
  pub base : BaseCaepEvent

unfoldable pub new : SessionRevokedEvent
unfolding base_event
new = record { base = base_event session_revoked }

unfoldable pub with_event_timestamp : ℤ → SessionRevokedEvent → SessionRevokedEvent
unfolding Base.with_event_timestamp
with_event_timestamp t e = record e { base = Base.with_event_timestamp t e.base }

unfoldable pub with_initiating_entity : ℕ → SessionRevokedEvent → SessionRevokedEvent
unfolding Base.with_initiating_entity
with_initiating_entity i e = record e { base = Base.with_initiating_entity i e.base }

unfoldable pub with_reason_admin :
    (language reason : String) → SessionRevokedEvent → SessionRevokedEvent
unfolding Base.with_reason_admin
with_reason_admin language reason e = record e {
  base = Base.with_reason_admin language reason e.base;
}

unfoldable pub with_reason_user :
    (language reason : String) → SessionRevokedEvent → SessionRevokedEvent
unfolding Base.with_reason_user
with_reason_user language reason e = record e {
  base = Base.with_reason_user language reason e.base;
}

unfoldable pub validate : SessionRevokedEvent → Option EventError
unfolding validate_metadata new_error
validate e = elim (validate_metadata e.base) [ some x ↦ some x | none ↦ none ]

-- `Payload()`: a struct of the metadata alone
unfoldable pub payload : SessionRevokedEvent → Unit {0} × Option EventMetadata
payload e = (tt, e.base.metadata)

abbrev pub fields_of : Unit {0} → List (String × Option Json)
fields_of p = []

unfoldable pub marshal : SessionRevokedEvent → Json
unfolding payload write_fields
marshal e = let (p, m) = payload e in object (write_fields (fields_of p) (optional_members m))

abbrev names : List String
names = "event_timestamp" ∷ "initiating_entity" ∷ "reason_admin" ∷ "reason_user" ∷ []

abbrev read_payload : Members → Result Mismatch (Unit {0})
read_payload members = ok tt

abbrev pub decode : Json → Result Details (Unit {0} × Option EventMetadata)
decode doc = and_then (with_details (struct_members doc)) (decode_metadata names read_payload)

abbrev pub received : Unit {0} × Option EventMetadata → SessionRevokedEvent
received (p, m) = record { base = record { type = session_revoked; metadata = m } }

-- `UnmarshalJSON`
unfoldable pub unmarshal : Json → Result EventError SessionRevokedEvent
unfolding validate and_then
unmarshal doc =
    and_then (parsed_with "failed to parse session revoked event data" (decode doc))
      (λ r. checked (validate (received r)) (received r))

unfoldable pub parse : Json → Result EventError SessionRevokedEvent
unfolding unmarshal
parse doc = parsed_with "failed to parse session revoked event" (as_details (unmarshal doc))

apart : TellsApart names
unfolding addresses contains same_fold fold_rune
apart = (
  (refl, refl, refl, refl),
  (refl, refl, refl, refl),
  (refl, refl, refl, refl),
  (refl, refl, refl, refl),
  (refl, refl, refl, refl),
)

avoided : Avoids names (fields_of tt)
unfolding addresses contains same_fold fold_rune
avoided = (tt, tt, tt, tt, tt)

-- A valid event, with metadata that are written whole, is read back as it was.
pub parse-marshal :
    (e : SessionRevokedEvent)
    → e.base.type ≡ session_revoked
    → IsWritableOption e.base.metadata
    → validate e ≡ none
    → parse (marshal e) ≡ ok e
unfolding parse unmarshal marshal payload struct_members and_then addresses contains same_fold
    fold_rune
parse-marshal e t w v =
    rw
      (
        decode_metadata-written names read_payload tt (fields_of tt) e.base.metadata apart avoided w
            (refl),
        sym t,
        v,
      )
      refl
