-- ===== src/Events/Registry.antt =====
-- The interface Event of secevent/pkg/event/event.go on the events of the schemes, its registry of
-- parsers, and ParseEvent.
use Prim.Native.String.{◌++◌}
use caep_dev.Base.{
  ◌≡◌, refl, ap, ◌∙◌, String, Bool, true, false, not, List, [], ◌∷◌, Option, none, some, ◌==◌,
  eq_refl, if◌then◌else◌, Result, ok, err,
}
use caep_dev.Base.Dict.{Dict, lookup, put}
use caep_dev.Json.{Json}
use caep_dev.Events.Defs.{
  EventError, new_error, blank, invalid_event_type, token_claims_change, session_revoked,
  credential_change, assurance_level_change, device_compliance_change, verification, stream_update,
}
use caep_dev.Events.Written.{IsWritableOption}
use caep_dev.Events.AssuranceLevel
use caep_dev.Events.DeviceCompliance
use caep_dev.Events.Credential
use caep_dev.Events.SessionRevoked
use caep_dev.Events.TokenClaims
use caep_dev.Events.Verification
use caep_dev.Events.StreamUpdate

pub data Event : Type 0 where
  assurance_level : AssuranceLevel.AssuranceLevelChangeEvent → Event
  device_compliance : DeviceCompliance.DeviceComplianceChangeEvent → Event
  credential : Credential.CredentialChangeEvent → Event
  session : SessionRevoked.SessionRevokedEvent → Event
  claims : TokenClaims.TokenClaimsChangeEvent → Event
  verified : Verification.VerificationEvent → Event
  updated : StreamUpdate.StreamUpdateEvent → Event

-- `Type()`
abbrev pub type_of : Event → String
type_of (assurance_level e) = e.base.type
type_of (device_compliance e) = e.base.type
type_of (credential e) = e.base.type
type_of (session e) = e.base.type
type_of (claims e) = e.base.type
type_of (verified e) = e.type
type_of (updated e) = e.type

unfoldable pub validate : Event → Option EventError
unfolding AssuranceLevel.validate DeviceCompliance.validate Credential.validate
    SessionRevoked.validate TokenClaims.validate Verification.validate StreamUpdate.validate
validate (assurance_level e) = AssuranceLevel.validate e
validate (device_compliance e) = DeviceCompliance.validate e
validate (credential e) = Credential.validate e
validate (session e) = SessionRevoked.validate e
validate (claims e) = TokenClaims.validate e
validate (verified e) = Verification.validate e
validate (updated e) = StreamUpdate.validate e

unfoldable pub marshal : Event → Json
unfolding AssuranceLevel.marshal DeviceCompliance.marshal Credential.marshal SessionRevoked.marshal
    TokenClaims.marshal Verification.marshal StreamUpdate.marshal
marshal (assurance_level e) = AssuranceLevel.marshal e
marshal (device_compliance e) = DeviceCompliance.marshal e
marshal (credential e) = Credential.marshal e
marshal (session e) = SessionRevoked.marshal e
marshal (claims e) = TokenClaims.marshal e
marshal (verified e) = Verification.marshal e
marshal (updated e) = StreamUpdate.marshal e

-- An error of ParseEvent: its own, or that of a parser behind "failed to parse event".
pub data ParseError : Type 0 where
  refused : EventError → ParseError
  failed : EventError → ParseError

-- `EventParserRegistry`
abbrev pub Parser : Type 0
Parser = Json → Result EventError Event

abbrev pub EventParserRegistry : Type 0
EventParserRegistry = Dict Parser

unfoldable pub register_event_parser : String → Parser → EventParserRegistry → EventParserRegistry
unfolding put
register_event_parser event_type parser registry = put event_type parser registry

unfoldable pub get_event_parser : String → EventParserRegistry → Option Parser
unfolding lookup
get_event_parser event_type registry = lookup event_type registry

abbrev keys : EventParserRegistry → List String
keys [] = []
keys ((event_type, parser) ∷ registry) = event_type ∷ keys registry

unfoldable pub get_registered_event_types : EventParserRegistry → List String
get_registered_event_types registry = keys registry

abbrev is_some : Option Parser → Bool
is_some none = false
is_some (some parser) = true

unfoldable pub is_event_type_registered : String → EventParserRegistry → Bool
unfolding lookup
is_event_type_registered event_type registry = is_some (lookup event_type registry)

abbrev pub has_type : String → Result EventError Event → Result ParseError Event
has_type event_type (err e) = err (failed e)
has_type event_type (ok e) =
    if not (type_of e == event_type)
    then err (
        refused (
          new_error invalid_event_type
            ("parsed event type "
              ++ (type_of e ++ (" does not match expected type " ++ event_type)))
            "event_type" blank))
    else ok e

abbrev pub parse_by : String → Option Parser → Json → Result ParseError Event
parse_by event_type none doc = err (
    refused (
      new_error invalid_event_type ("no parser registered for event type: " ++ event_type)
        "event_type" blank))
parse_by event_type (some parser) doc = has_type event_type (parser doc)

-- `ParseEvent`, on valid JSON
unfoldable pub parse_event : EventParserRegistry → String → Json → Result ParseError Event
unfolding get_event_parser new_error
parse_event registry event_type doc = parse_by event_type (get_event_parser event_type registry) doc

-- The parsers that the `init` functions of the two schemes register.
abbrev pub as_event : {A : Type 0} → (A → Event) → Result EventError A → Result EventError Event
as_event make (ok e) = ok (make e)
as_event make (err e) = err e

unfoldable pub scheme_parsers : EventParserRegistry
unfolding register_event_parser AssuranceLevel.parse DeviceCompliance.parse Credential.parse
    SessionRevoked.parse TokenClaims.parse Verification.parse StreamUpdate.parse
scheme_parsers =
    register_event_parser verification (λ doc. as_event verified (Verification.parse doc))
      (register_event_parser stream_update (λ doc. as_event updated (StreamUpdate.parse doc))
        (register_event_parser token_claims_change (λ doc. as_event claims (TokenClaims.parse doc))
          (register_event_parser session_revoked
            (λ doc. as_event session (SessionRevoked.parse doc))
            (register_event_parser device_compliance_change
              (λ doc. as_event device_compliance (DeviceCompliance.parse doc))
              (register_event_parser credential_change
                (λ doc. as_event credential (Credential.parse doc))
                (register_event_parser assurance_level_change
                  (λ doc. as_event assurance_level (AssuranceLevel.parse doc)) ([])))))))

-- A written event that its parser reads back: of its own type, valid, its metadata written whole.
abbrev pub IsReadable : Event → Type 0
IsReadable (assurance_level e) =
    (e.base.type ≡ assurance_level_change) × IsWritableOption e.base.metadata
IsReadable (device_compliance e) =
    (e.base.type ≡ device_compliance_change) × IsWritableOption e.base.metadata
IsReadable (credential e) = (e.base.type ≡ credential_change) × IsWritableOption e.base.metadata
IsReadable (session e) = (e.base.type ≡ session_revoked) × IsWritableOption e.base.metadata
IsReadable (claims e) =
    (e.base.type ≡ token_claims_change)
    × IsWritableOption e.base.metadata
    × TokenClaims.IsReadable e.payload.claims
IsReadable (verified e) = (e.type ≡ verification)
IsReadable (updated e) = (e.type ≡ stream_update)

parse_event-parsed :
    (event_type : String) (doc : Json) (e : Event) (parser : Parser)
    → get_event_parser event_type scheme_parsers ≡ some parser
    → parser doc ≡ ok e
    → type_of e ≡ event_type
    → parse_event scheme_parsers (type_of e) doc ≡ ok e
unfolding parse_event
parse_event-parsed event_type doc e parser found read typed =
    ap (λ t. parse_event scheme_parsers t doc) typed
    ∙ rw (found, read, typed, eq_refl event_type) refl

-- With the parsers of the two schemes, a valid event of its own type whose metadata, if it has any,
-- are written whole, and whose claims, if it has any, have distinct names, is parsed back under its
-- type from the document that it writes.
pub parse_event-marshal :
    (e : Event)
    → IsReadable e
    → validate e ≡ none
    → parse_event scheme_parsers (type_of e) (marshal e) ≡ ok e
unfolding scheme_parsers register_event_parser get_event_parser put lookup marshal validate
parse_event-marshal (assurance_level e) (t, w) v =
    parse_event-parsed assurance_level_change (AssuranceLevel.marshal e) (assurance_level e) _ refl
      (ap (as_event assurance_level) (AssuranceLevel.parse-marshal e t w v)) t
parse_event-marshal (device_compliance e) (t, w) v =
    parse_event-parsed device_compliance_change (DeviceCompliance.marshal e) (device_compliance e) _
      refl (ap (as_event device_compliance) (DeviceCompliance.parse-marshal e t w v)) t
parse_event-marshal (credential e) (t, w) v =
    parse_event-parsed credential_change (Credential.marshal e) (credential e) _ refl
      (ap (as_event credential) (Credential.Written.parse-marshal e t w v)) t
parse_event-marshal (session e) (t, w) v =
    parse_event-parsed session_revoked (SessionRevoked.marshal e) (session e) _ refl
      (ap (as_event session) (SessionRevoked.parse-marshal e t w v)) t
parse_event-marshal (claims e) (t, w, d) v =
    parse_event-parsed token_claims_change (TokenClaims.marshal e) (claims e) _ refl
      (ap (as_event claims) (TokenClaims.parse-marshal e t w d v)) t
parse_event-marshal (verified e) t v =
    parse_event-parsed verification (Verification.marshal e) (verified e) _ refl
      (ap (as_event verified) (Verification.parse-marshal e t v)) t
parse_event-marshal (updated e) t v =
    parse_event-parsed stream_update (StreamUpdate.marshal e) (updated e) _ refl
      (ap (as_event updated) (StreamUpdate.parse-marshal e t v)) t
