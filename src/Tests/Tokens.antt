-- ===== src/Tests/Tokens.antt =====
-- The theorems on the events and tokens of secevent/pkg at concrete tokens.
use caep_dev.Base.{
  ◌≡◌, ◌≢◌, ◌↔◌, true, refl, [], ◌∷◌, Option, none, some, ok, err, and_then, contains, arith,
  Result, returns, String, List, ◌*◌, ◌/◌, ◌+◌, ◌-◌, ◌==◌, if◌then◌else◌,
}
use caep_dev.Base.Int.{pos}
use caep_dev.Base.Dict.{lookup}
use caep_dev.Json.{Json, Members, null, text, array, integer, empty, Elements, no_elements, element}
use caep_dev.Json.Decode.{
  Mismatch, mismatch, field, read_text, addresses, write_fields, optional, has_any, read_int64,
}
use caep_dev.Json.Laws.{field-optional}
use caep_dev.Models.Receiver.{Time, second, EventFilter}
use caep_dev.Models.Value.{Value}
use caep_dev.Models.Filter.{op_exists, filter_matches}
use caep_dev.Models.Event.{SecurityEvent}
use caep_dev.Broker.{convert_to_security_event}
use caep_dev.Subjects.Complex.{Subject}
use caep_dev.Events
use caep_dev.Events.Defs.{EventError, session_revoked}
use caep_dev.Events.Credential
use caep_dev.Events.SessionRevoked
use caep_dev.Events.Base.{validate_metadata}
use caep_dev.Events.Metadata
use caep_dev.Events.Metadata.{metadata_members}
use caep_dev.Subjects.Complex
use caep_dev.Subjects.Simple
use caep_dev.Subjects.Email
use caep_dev.Subjects.Opaque
use caep_dev.Base.Text.{trim_space, same_fold, fold_rune}
use caep_dev.Events.Registry.{
  Event, session, credential, failed, type_of, validate, marshal, parse_event, scheme_parsers,
  parse_event-marshal,
}
use caep_dev.Events.Parsing.{parse_event-validate, new_credential-refused}
use caep_dev.Tokens.Defs.{RegisteredClaims, ClaimsCodec, names}
use caep_dev.Tokens.Single
use caep_dev.Tokens.RoundTrip.{token_of, Restores, unmarshal-marshal}
use caep_dev.Tokens.Delivered.{as_read, convert_to_security_event-token}
use caep_dev.Tests.Data.{now}
use caep_dev.Tests.Subjects.{grammars, ann_on_laptop, ann_on_laptop-IsReadable}

abbrev revoked : Event
revoked = session (record {
  base = record {
    type = session_revoked;
    metadata = some (record {
      event_timestamp = some (pos 1_700_000_000);
      initiating_entity = some 2;
      reason_admin = some (("en", "Policy violation") ∷ []);
      reason_user = none;
    });
  };
})

-- 2023-11-14 22:13:20 UTC
abbrev issue_time : Time
issue_time = (62_135_596_800 + 1_700_000_000) * second

abbrev claims : RegisteredClaims
claims = record {
  issuer = "https://idp.example";
  id = "set-1";
  audience = "https://hub.example" ∷ "https://rp.example" ∷ [];
  issued_at = some issue_time;
}

abbrev written_texts : List String → Elements
written_texts [] = no_elements
written_texts (s ∷ ss) = element (text s) (written_texts ss)

abbrev read_texts : Elements → Result Mismatch (List String)
unfolding and_then
read_texts no_elements = ok []
read_texts (element (text s) others) = and_then (read_texts others) (λ ss. ok (s ∷ ss))
read_texts (element _ others) = err mismatch

-- an audience: one text, or an array of them
abbrev read_audience : List String → Json → Result Mismatch (List String)
read_audience kept null = ok kept
read_audience kept (text s) = ok (s ∷ [])
read_audience kept (array ss) = read_texts ss
read_audience kept _ = err mismatch

-- a date: the seconds since 1970
abbrev read_date : Option Time → Json → Result Mismatch (Option Time)
read_date kept null = ok none
read_date kept (integer (pos n)) = ok (some ((62_135_596_800 + n) * second))
read_date kept _ = err mismatch

abbrev unless_blank : String → Option Json
unless_blank s = if s == "" then none else some (text s)

abbrev unless_empty : List String → Option Json
unless_empty [] = none
unless_empty (s ∷ ss) = some (array (written_texts (s ∷ ss)))

abbrev date_of : Option Time → Option Json
date_of none = none
date_of (some t) = some (integer (pos (t / second - 62_135_596_800)))

abbrev read_claims : Members → Result Mismatch RegisteredClaims
unfolding and_then
read_claims members = and_then (field read_text (addresses names "iss") "" members) (λ iss.
    and_then (field read_audience (addresses names "aud") [] members) (λ aud.
      and_then (field read_date (addresses names "iat") none members) (λ iat.
        and_then (field read_text (addresses names "jti") "" members)
          (λ jti. ok (record { issuer = iss; id = jti; audience = aud; issued_at = iat })))))

-- The four claims that the package uses, each left out when it is empty.
abbrev codec : ClaimsCodec
codec = record {
  write = λ c.
      ("iss", unless_blank c.issuer)
      ∷ ("aud", unless_empty c.audience)
      ∷ ("iat", date_of c.issued_at)
      ∷ ("jti", unless_blank c.id)
      ∷ [];
  read = read_claims;
}

revoked-IsReadable : Events.Registry.IsReadable revoked
unfolding read_int64 metadata_members has_any optional lookup
revoked-IsReadable = (refl, (refl, omega arith, (refl, tt), tt, refl))

revoked_valid : validate revoked ≡ none
unfolding validate SessionRevoked.validate validate_metadata Metadata.validate
revoked_valid = refl

parse_event-marshal_run : parse_event scheme_parsers session_revoked (marshal revoked) ≡ ok revoked
parse_event-marshal_run = parse_event-marshal revoked revoked-IsReadable revoked_valid

parse_event-marshal_example :
    parse_event scheme_parsers (type_of revoked) (marshal revoked) ≡ ok revoked
parse_event-marshal_example = parse_event-marshal revoked revoked-IsReadable revoked_valid

parse_event-validate_example : (validate revoked ≡ none) × (type_of revoked ≡ session_revoked)
parse_event-validate_example =
    parse_event-validate session_revoked (marshal revoked) revoked parse_event-marshal_run

new_credential-refused_example :
    (x : EventError) × (parse_event scheme_parsers
        (type_of (credential (Credential.new "password" "revoke")))
        (marshal (credential (Credential.new "password" "revoke")))
      ≡ err (failed x))
new_credential-refused_example = new_credential-refused "password" "revoke"

abbrev written : (sub txn events : Option Json) → Members
written sub txn events =
    write_fields (codec.write claims)
      (write_fields (("sub_id", sub) ∷ ("txn", txn) ∷ ("events", events) ∷ []) empty)

module _ (sub txn events : Option Json) where
  iss_read :
      field read_text (addresses names "iss") "" (written sub txn events) ≡ ok "https://idp.example"
  unfolding write_fields field addresses contains same_fold fold_rune and_then
  iss_read = simp field-optional refl

  aud_read :
      field read_audience (addresses names "aud") [] (written sub txn events) ≡ ok claims.audience
  unfolding write_fields field addresses contains same_fold fold_rune and_then read_texts
  aud_read = simp field-optional refl

  iat_read :
      field read_date (addresses names "iat") none (written sub txn events) ≡ ok (some issue_time)
  unfolding write_fields field addresses contains same_fold fold_rune and_then
  iat_read = simp field-optional refl

  jti_read : field read_text (addresses names "jti") "" (written sub txn events) ≡ ok "set-1"
  unfolding write_fields field addresses contains same_fold fold_rune and_then
  jti_read = simp field-optional refl

codec-Restores : Restores codec claims
unfolding addresses contains same_fold fold_rune and_then read_claims
codec-Restores = (
  λ sub txn events.
      rw
        (
          iss_read sub txn events,
          aud_read sub txn events,
          iat_read sub txn events,
          jti_read sub txn events,
        )
        refl,
  (refl, (refl, (refl, (refl, tt)))),
  (refl, (refl, (refl, (refl, tt)))),
  (refl, (refl, (refl, (refl, tt)))),
)

token_valid : Single.validate grammars (token_of claims revoked ann_on_laptop none) ≡ none
unfolding Single.validate validate SessionRevoked.validate validate_metadata Metadata.validate
    Complex.validate Simple.validate Email.validate Opaque.validate trim_space
token_valid = refl

unmarshal-marshal_example :
    Single.unmarshal grammars scheme_parsers codec
      (Single.marshal codec (token_of claims revoked ann_on_laptop none))
    ≡ ok (token_of claims revoked ann_on_laptop none)
unmarshal-marshal_example =
    unmarshal-marshal grammars codec claims revoked ann_on_laptop none codec-Restores
      revoked-IsReadable ann_on_laptop-IsReadable token_valid

-- a filter on the reason of the event, which the token's event has
abbrev wants_reason : EventFilter
wants_reason = record { field = "data.reason_admin"; operator = "exists"; value = Value.null }

convert_to_security_event-token_example :
    (x : SecurityEvent) × (convert_to_security_event now
        (as_read claims revoked ann_on_laptop)
        "e30"
        "idp"
      ≡ returns x)
    × (x.type ≡ session_revoked)
    × (x.subject.format ≡ "complex")
    × (x.subject.identifier ≡ "")
    × (x.event_data ≡ [])
    × ((filter_matches wants_reason x ≡ returns true) ↔ (wants_reason.operator ≢ op_exists))
convert_to_security_event-token_example =
    convert_to_security_event-token now claims revoked ann_on_laptop "e30" "idp" issue_time
      wants_reason "reason_admin" refl refl (λ h. cc h)
