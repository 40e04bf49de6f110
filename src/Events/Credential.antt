-- ===== src/Events/Credential.antt =====
-- CredentialChangeEvent of secevent/pkg/schemes/caep/credential_change_event.go.
use Prim.Native.String.{◌++◌}
use caep_dev.Base.{
  ℕ, ◌≡◌, refl, String, Bool, true, false, not, List, [], ◌∷◌, contains, Option, none, some,
  if◌then◌else◌, Result, ok, and_then, sym,
}
use caep_dev.Base.Int.{ℤ}
use caep_dev.Base.Text.{same_fold, fold_rune}
use caep_dev.Json.{Json, text, object, Members}
use caep_dev.Json.Decode.{
  Mismatch, field, read_text, read_pointer, addresses, struct_members, write_fields,
}
use caep_dev.Json.Laws.{field-optional}
use caep_dev.Events.Defs.{
  EventError, new_error, Details, blank, with_details, parsed_with, as_details, checked,
  invalid_value, credential_change, assurance_level_change,
}
use caep_dev.Events.Metadata.{EventMetadata, optional_members, decode_metadata, map_option}
use caep_dev.Events.Base
use caep_dev.Events.Base.{BaseCaepEvent, base_event, validate_metadata}
use caep_dev.Events.Written.{
  IsWritableOption, TellsApart, Avoids, decode_metadata-written, other_field, pointer_read,
}
pub mod Written

pub record CredentialChangePayload : Type 0 where
  pub credential_type : String
  pub change_type : String
  pub friendly_name : Option String
  pub x509_issuer : Option String
  pub x509_serial : Option String
  pub fido2_aaguid : Option String

pub record CredentialChangeEvent : Type 0 where
  pub base : BaseCaepEvent
  pub payload : CredentialChangePayload

unfoldable pub new : (credential_type change_type : String) → CredentialChangeEvent
unfolding base_event
new cred change = record {
  base = base_event assurance_level_change;
  payload = record {
    credential_type = cred;
    change_type = change;
    friendly_name = none;
    x509_issuer = none;
    x509_serial = none;
    fido2_aaguid = none;
  };
}

unfoldable pub with_event_timestamp : ℤ → CredentialChangeEvent → CredentialChangeEvent
unfolding Base.with_event_timestamp
with_event_timestamp t e = record e { base = Base.with_event_timestamp t e.base }

unfoldable pub with_initiating_entity : ℕ → CredentialChangeEvent → CredentialChangeEvent
unfolding Base.with_initiating_entity
with_initiating_entity i e = record e { base = Base.with_initiating_entity i e.base }

unfoldable pub with_reason_admin :
    (language reason : String) → CredentialChangeEvent → CredentialChangeEvent
unfolding Base.with_reason_admin
with_reason_admin language reason e = record e {
  base = Base.with_reason_admin language reason e.base;
}

unfoldable pub with_reason_user :
    (language reason : String) → CredentialChangeEvent → CredentialChangeEvent
unfolding Base.with_reason_user
with_reason_user language reason e = record e {
  base = Base.with_reason_user language reason e.base;
}

unfoldable pub with_friendly_name : String → CredentialChangeEvent → CredentialChangeEvent
with_friendly_name s e =
    let p = e.payload in record e { payload = record p { friendly_name = some s } }

unfoldable pub with_x509_details :
    (issuer serial : String) → CredentialChangeEvent → CredentialChangeEvent
with_x509_details issuer serial e =
    let p = e.payload in
    record e { payload = record p { x509_issuer = some issuer; x509_serial = some serial } }

unfoldable pub with_fido2_aaguid : String → CredentialChangeEvent → CredentialChangeEvent
with_fido2_aaguid s e =
    let p = e.payload in record e { payload = record p { fido2_aaguid = some s } }

unfoldable pub get_credential_type : CredentialChangeEvent → String
get_credential_type e = e.payload.credential_type

unfoldable pub get_change_type : CredentialChangeEvent → String
get_change_type e = e.payload.change_type

unfoldable pub get_friendly_name : CredentialChangeEvent → Option String
get_friendly_name e = e.payload.friendly_name

unfoldable pub get_x509_issuer : CredentialChangeEvent → Option String
get_x509_issuer e = e.payload.x509_issuer

unfoldable pub get_x509_serial : CredentialChangeEvent → Option String
get_x509_serial e = e.payload.x509_serial

unfoldable pub get_fido2_aaguid : CredentialChangeEvent → Option String
get_fido2_aaguid e = e.payload.fido2_aaguid

abbrev credential_types : List String
credential_types =
    "password" ∷ "pin" ∷ "x509" ∷ "fido2-platform" ∷ "fido2-roaming" ∷ "fido-u2f"
    ∷ "verifiable-credential" ∷ "phone-voice" ∷ "phone-sms" ∷ "app" ∷ []

unfoldable pub is_valid_credential_type : String → Bool
unfolding contains
is_valid_credential_type t = contains credential_types t

abbrev change_types : List String
change_types = "create" ∷ "revoke" ∷ "update" ∷ "delete" ∷ []

unfoldable pub is_valid_change_type : String → Bool
unfolding contains
is_valid_change_type t = contains change_types t

-- exactly one of the two is nil
abbrev pub is_half_given : Option String → Option String → Bool
is_half_given none none = false
is_half_given none (some s) = true
is_half_given (some i) none = true
is_half_given (some i) (some s) = false

unfoldable pub validate : CredentialChangeEvent → Option EventError
unfolding validate_metadata new_error is_valid_credential_type is_valid_change_type
validate e = elim (validate_metadata e.base) [
  | some x ↦ some x
  | none ↦
      if not (is_valid_credential_type e.payload.credential_type)
      then some (
          new_error invalid_value ("invalid credential type: " ++ e.payload.credential_type)
            "credential_type" blank)
      else if not (is_valid_change_type e.payload.change_type)
      then some (
          new_error invalid_value ("invalid change type: " ++ e.payload.change_type) "change_type"
            blank)
      else if is_half_given e.payload.x509_issuer e.payload.x509_serial
      then some (
          new_error invalid_value "both x509_issuer and x509_serial must be provided together"
            "x509" blank)
      else none
]

-- `Payload()`: a struct of the two
unfoldable pub payload : CredentialChangeEvent → CredentialChangePayload × Option EventMetadata
payload e = (e.payload, e.base.metadata)

abbrev pub fields_of : CredentialChangePayload → List (String × Option Json)
fields_of p =
    ("credential_type", some (text p.credential_type))
    ∷ ("change_type", some (text p.change_type))
    ∷ ("friendly_name", map_option text p.friendly_name)
    ∷ ("x509_issuer", map_option text p.x509_issuer)
    ∷ ("x509_serial", map_option text p.x509_serial)
    ∷ ("fido2_aaguid", map_option text p.fido2_aaguid)
    ∷ []

unfoldable pub marshal : CredentialChangeEvent → Json
unfolding payload write_fields
marshal e = let (p, m) = payload e in object (write_fields (fields_of p) (optional_members m))

abbrev pub names : List String
names =
    "credential_type" ∷ "change_type" ∷ "friendly_name" ∷ "x509_issuer" ∷ "x509_serial"
    ∷ "fido2_aaguid" ∷ "event_timestamp" ∷ "initiating_entity" ∷ "reason_admin" ∷ "reason_user" ∷ []

abbrev pub read_payload : Members → Result Mismatch CredentialChangePayload
read_payload members =
    and_then (field read_text (addresses names "credential_type") "" members) (λ x0.
      and_then (field read_text (addresses names "change_type") "" members) (λ x1.
        and_then (field read_pointer (addresses names "friendly_name") none members) (λ x2.
          and_then (field read_pointer (addresses names "x509_issuer") none members) (λ x3.
            and_then (field read_pointer (addresses names "x509_serial") none members) (λ x4.
              and_then (field read_pointer (addresses names "fido2_aaguid") none members) (λ x5.
                ok (record {
                  credential_type = x0;
                  change_type = x1;
                  friendly_name = x2;
                  x509_issuer = x3;
                  x509_serial = x4;
                  fido2_aaguid = x5;
                })))))))

abbrev pub decode : Json → Result Details (CredentialChangePayload × Option EventMetadata)
decode doc = and_then (with_details (struct_members doc)) (decode_metadata names read_payload)

abbrev pub received : CredentialChangePayload × Option EventMetadata → CredentialChangeEvent
received (p, m) = record { base = record { type = credential_change; metadata = m }; payload = p }

-- `UnmarshalJSON`
unfoldable pub unmarshal : Json → Result EventError CredentialChangeEvent
unfolding validate and_then
unmarshal doc =
    and_then (parsed_with "failed to parse credential change event data" (decode doc))
      (λ r. checked (validate (received r)) (received r))

unfoldable pub parse : Json → Result EventError CredentialChangeEvent
unfolding unmarshal
parse doc = parsed_with "failed to parse credential change event" (as_details (unmarshal doc))
