-- ===== src/Events/Parsing.antt =====
-- What secevent/pkg/event ParseEvent accepts.
use mathlib.Core.Logic.{inl, inr}
use caep_dev.Base.{
  ◌≡◌, refl, ap, ◌∙◌, sym, String, contains, Option, none, some, eq_iff, arith, Result, ok, err,
  and_then, Option-cases,
}
use caep_dev.Base.Text.{same_fold, fold_rune}
use caep_dev.Base.Dict.{lookup, put, AllEntries, AllEntries-lookup}
use caep_dev.Json.{Json}
use caep_dev.Json.Decode.{field, has_any, addresses, struct_members, write_fields, optional}
use caep_dev.Events.Defs.{EventError, parsed_with, as_details, checked}
use caep_dev.Events.Base.{base_event, validate_metadata}
use caep_dev.Events.Registry.{
  Event, assurance_level, credential, device_compliance, session, claims, updated, verified,
  type_of, validate, marshal, failed, Parser, EventParserRegistry, register_event_parser,
  get_event_parser, has_type, parse_event, as_event, scheme_parsers,
}
use caep_dev.Events.AssuranceLevel
use caep_dev.Events.Credential
use caep_dev.Events.DeviceCompliance
use caep_dev.Events.SessionRevoked
use caep_dev.Events.TokenClaims
use caep_dev.Events.StreamUpdate
use caep_dev.Events.Verification

checked-ok :
    {A : Type 0} (words : String) (o : Option EventError) (a e : A)
    → parsed_with words (as_details (checked o a)) ≡ ok e
    → (o ≡ none) × (a ≡ e)
checked-ok words none a e h = (refl, cc h)
checked-ok words (some x) a e h = absurd (cc h)

-- An event that a parser returns has passed its own Validate.
checked_event :
    {A B : Type 0} (words : String) (x : Result EventError B) (received : B → A)
    (test : A → Option EventError) (e : A)
    → parsed_with words (as_details (and_then x (λ r. checked (test (received r)) (received r))))
      ≡ ok e
    → test e ≡ none
unfolding and_then
checked_event words (err x) received test e h = absurd (cc h)
checked_event words (ok r) received test e h =
    let (passed, same) = checked-ok words (test (received r)) (received r) e h in
    ap test (sym same) ∙ passed

abbrev IsSound : Parser → Type 0
IsSound parser = (doc : Json) (e : Event) → parser doc ≡ ok e → validate e ≡ none

as_event-ok :
    {A : Type 0} (make : A → Event) (r : Result EventError A) (e : Event)
    → as_event make r ≡ ok e
    → (a : A) × (r ≡ ok a) × (make a ≡ e)
as_event-ok make (ok a) e h = (a, refl, cc h)
as_event-ok make (err x) e h = absurd (cc h)

as_event-IsSound :
    {A : Type 0} (make : A → Event) (test : A → Option EventError)
    (parse : Json → Result EventError A)
    → ((a : A) → validate (make a) ≡ test a)
    → ((doc : Json) (a : A) → parse doc ≡ ok a → test a ≡ none)
    → IsSound (λ doc. as_event make (parse doc))
as_event-IsSound make test parse same sound doc e h =
    let (a, parsed, made) = as_event-ok make (parse doc) e h in
    ap validate (sym made) ∙ same a ∙ sound doc a parsed

has_type-ok :
    (t : String) (r : Result EventError Event) (e : Event)
    → has_type t r ≡ ok e
    → (r ≡ ok e) × (type_of e ≡ t)
has_type-ok t (err x) e h = absurd (cc h)
has_type-ok t (ok x) e h = ground (arith, eq_iff (type_of x) t)

-- Whatever the registry holds, an event that is returned has the type that was asked for.
pub parse_event-type_of :
    (registry : EventParserRegistry) (t : String) (doc : Json) (e : Event)
    → parse_event registry t doc ≡ ok e
    → type_of e ≡ t
unfolding parse_event
parse_event-type_of registry t doc e h = elim (Option-cases (get_event_parser t registry)) [
  | inl missing ↦ absurd (cc (rw missing at h))
  | inr (parser, found) ↦ (has_type-ok t (parser doc) e (rw found at h)).1
]

assurance_level_sound :
    (doc : Json) (e : AssuranceLevel.AssuranceLevelChangeEvent)
    → AssuranceLevel.parse doc ≡ ok e
    → AssuranceLevel.validate e ≡ none
unfolding AssuranceLevel.parse AssuranceLevel.unmarshal
assurance_level_sound doc e h =
    checked_event "failed to parse assurance level change event"
      (parsed_with "failed to parse assurance level change event data" (AssuranceLevel.decode doc))
      AssuranceLevel.received AssuranceLevel.validate e h

credential_sound :
    (doc : Json) (e : Credential.CredentialChangeEvent)
    → Credential.parse doc ≡ ok e
    → Credential.validate e ≡ none
unfolding Credential.parse Credential.unmarshal
credential_sound doc e h =
    checked_event "failed to parse credential change event"
      (parsed_with "failed to parse credential change event data" (Credential.decode doc))
      Credential.received Credential.validate e h

device_compliance_sound :
    (doc : Json) (e : DeviceCompliance.DeviceComplianceChangeEvent)
    → DeviceCompliance.parse doc ≡ ok e
    → DeviceCompliance.validate e ≡ none
unfolding DeviceCompliance.parse DeviceCompliance.unmarshal
device_compliance_sound doc e h =
    checked_event "failed to parse device compliance change event"
      (parsed_with "failed to parse device compliance change event data"
        (DeviceCompliance.decode doc))
      DeviceCompliance.received DeviceCompliance.validate e h

session_sound :
    (doc : Json) (e : SessionRevoked.SessionRevokedEvent)
    → SessionRevoked.parse doc ≡ ok e
    → SessionRevoked.validate e ≡ none
unfolding SessionRevoked.parse SessionRevoked.unmarshal
session_sound doc e h =
    checked_event "failed to parse session revoked event"
      (parsed_with "failed to parse session revoked event data" (SessionRevoked.decode doc))
      SessionRevoked.received SessionRevoked.validate e h

claims_sound :
    (doc : Json) (e : TokenClaims.TokenClaimsChangeEvent)
    → TokenClaims.parse doc ≡ ok e
    → TokenClaims.validate e ≡ none
unfolding TokenClaims.parse TokenClaims.unmarshal
claims_sound doc e h =
    checked_event "failed to parse token claims change event"
      (parsed_with "failed to parse token claims change event data" (TokenClaims.decode doc))
      TokenClaims.received TokenClaims.validate e h

updated_sound :
    (doc : Json) (e : StreamUpdate.StreamUpdateEvent)
    → StreamUpdate.parse doc ≡ ok e
    → StreamUpdate.validate e ≡ none
unfolding StreamUpdate.parse StreamUpdate.unmarshal
updated_sound doc e h =
    checked_event "failed to parse stream update event"
      (parsed_with "failed to parse stream update event data" (StreamUpdate.decode doc))
      StreamUpdate.received StreamUpdate.validate e h

verified_sound :
    (doc : Json) (e : Verification.VerificationEvent)
    → Verification.parse doc ≡ ok e
    → Verification.validate e ≡ none
unfolding Verification.parse Verification.unmarshal
verified_sound doc e h =
    checked_event "failed to parse verification event"
      (parsed_with "failed to parse verification event data" (Verification.decode doc))
      Verification.received Verification.validate e h

scheme_parsers-IsSound : AllEntries (λ t parser. IsSound parser) scheme_parsers
unfolding scheme_parsers register_event_parser put validate
scheme_parsers-IsSound = (
  as_event-IsSound assurance_level AssuranceLevel.validate AssuranceLevel.parse (λ a. refl)
      assurance_level_sound,
  (
    as_event-IsSound credential Credential.validate Credential.parse (λ a. refl) credential_sound,
    (
      as_event-IsSound device_compliance DeviceCompliance.validate DeviceCompliance.parse
          (λ a. refl) device_compliance_sound,
      (
        as_event-IsSound session SessionRevoked.validate SessionRevoked.parse (λ a. refl)
            session_sound,
        (
          as_event-IsSound claims TokenClaims.validate TokenClaims.parse (λ a. refl) claims_sound,
          (
            as_event-IsSound updated StreamUpdate.validate StreamUpdate.parse (λ a. refl)
                updated_sound,
            (
              as_event-IsSound verified Verification.validate Verification.parse (λ a. refl)
                  verified_sound,
              tt,
            ),
          ),
        ),
      ),
    ),
  ),
)

-- With the parsers of the two schemes, an event that ParseEvent returns passes its Validate and is of
-- the type that was asked for.
pub parse_event-validate :
    (t : String) (doc : Json) (e : Event)
    → parse_event scheme_parsers t doc ≡ ok e
    → (validate e ≡ none) × (type_of e ≡ t)
unfolding parse_event get_event_parser
parse_event-validate t doc e h = elim (Option-cases (lookup t scheme_parsers)) [
  | inl missing ↦ absurd (cc (rw missing at h))
  | inr (parser, found) ↦
      let (parsed, typed) = has_type-ok t (parser doc) e (rw found at h) in
      (
        AllEntries-lookup (λ t p. IsSound p) t parser scheme_parsers scheme_parsers-IsSound found
            doc e parsed,
        typed,
      )
]

-- A new credential change event has the type of an assurance level change: parsing the document that
-- it writes, under its type, fails, whatever its credential type and its change type are.
pub new_credential-refused :
    (cred change : String)
    → (x : EventError) × (parse_event scheme_parsers
          (type_of (credential (Credential.new cred change)))
          (marshal (credential (Credential.new cred change)))
        ≡ err (failed x))
unfolding parse_event get_event_parser scheme_parsers register_event_parser put lookup marshal
    Credential.new base_event Credential.marshal Credential.payload AssuranceLevel.parse
    AssuranceLevel.unmarshal AssuranceLevel.validate validate_metadata field has_any addresses
    contains same_fold fold_rune struct_members write_fields optional and_then
new_credential-refused cred change = (_, refl)
