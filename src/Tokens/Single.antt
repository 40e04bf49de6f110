-- ===== src/Tokens/Single.antt =====
-- SecEvent of secevent/pkg/token/token.go.
use caep_dev.Base.{
  String, List, [], ◌∷◌, Option, none, some, ◌==◌, if◌then◌else◌, Result, ok, err, and_then,
}
use caep_dev.Base.Dict.{Dict}
use caep_dev.Models.Receiver.{Time}
use caep_dev.Json.{Json, null, text, object, Members, empty, member}
use caep_dev.Json.Decode.{
  field, read_pointer, read_any, fill_map, addresses, last_entry, struct_members, write_fields,
}
use caep_dev.Subjects.Defs.{Grammars}
use caep_dev.Subjects
use caep_dev.Subjects.Complex.{Subject}
use caep_dev.Subjects.Parse.{Parsed, parse_subject}
use caep_dev.Events.Metadata.{map_option}
use caep_dev.Events
use caep_dev.Events.Registry.{Event, EventParserRegistry, parse_event}
use caep_dev.Tokens.Defs.{
  RegisteredClaims, no_claims, ClaimsCodec, TokenError, issuer_required, id_required,
  event_required, subject_required, subject_failed, not_one_event, event_failed, names, entries,
  decoded, or_else_check, event_check, subject_check,
}

-- The event and the subject may be nil.
pub record SecEvent : Type 0 where
  pub claims : RegisteredClaims
  pub event : Option Event
  pub subject : Option Subject
  pub transaction_id : Option String

-- `time.Now()` is an argument, and so is `jwt.NewNumericDate`, by the time that it keeps of another.
unfoldable pub new_sec_event : (numeric_date : Time → Time) → Time → SecEvent
new_sec_event numeric_date now = record {
  claims = record no_claims { issued_at = some (numeric_date now) };
  event = none;
  subject = none;
  transaction_id = none;
}

abbrev part_checks : Grammars → Option Event → Option Subject → Option TokenError
part_checks g none s = some event_required
part_checks g (some e) none = some subject_required
part_checks g (some e) (some s) =
    or_else_check (event_check (Events.Registry.validate e))
      (subject_check (Subjects.Complex.validate g s))

unfoldable pub validate : Grammars → SecEvent → Option TokenError
unfolding Events.Registry.validate Subjects.Complex.validate
validate g t =
    if t.claims.issuer == ""
    then some issuer_required
    else if t.claims.id == ""
    then some id_required
    else part_checks g t.event t.subject

unfoldable pub with_issuer : String → SecEvent → SecEvent
with_issuer issuer t = let c = t.claims in record t { claims = record c { issuer = issuer } }

unfoldable pub with_id : String → SecEvent → SecEvent
with_id id t = let c = t.claims in record t { claims = record c { id = id } }

unfoldable pub with_audience : List String → SecEvent → SecEvent
with_audience audience t =
    let c = t.claims in record t { claims = record c { audience = audience } }

unfoldable pub with_subject : Option Subject → SecEvent → SecEvent
with_subject s t = record t { subject = s }

unfoldable pub with_event : Option Event → SecEvent → SecEvent
with_event e t = record t { event = e }

unfoldable pub with_transaction_id : String → SecEvent → SecEvent
with_transaction_id txn t = record t { transaction_id = some txn }

unfoldable pub get_expiration_time : SecEvent → Option Time
get_expiration_time t = none

unfoldable pub get_issued_at : SecEvent → Option Time
get_issued_at t = t.claims.issued_at

unfoldable pub get_not_before : SecEvent → Option Time
get_not_before t = none

unfoldable pub get_issuer : SecEvent → String
get_issuer t = t.claims.issuer

unfoldable pub get_subject : SecEvent → String
get_subject t = ""

unfoldable pub get_audience : SecEvent → List String
get_audience t = t.claims.audience

abbrev pub subject_document : Option Subject → Json
subject_document none = null
subject_document (some s) = Subjects.Complex.marshal s

abbrev pub events_document : Option Event → Json
events_document none = object empty
events_document (some e) =
    object (member (Events.Registry.type_of e) (Events.Registry.marshal e) empty)

-- the members after the registered claims
abbrev pub own_members : SecEvent → Members
own_members t =
    write_fields
      (("sub_id", some (subject_document t.subject))
        ∷ ("txn", map_option text t.transaction_id)
        ∷ ("events", some (events_document t.event))
        ∷ [])
      empty

unfoldable pub marshal : ClaimsCodec → SecEvent → Json
unfolding Events.Registry.marshal Subjects.Complex.marshal write_fields
marshal codec t = object (write_fields (codec.write t.claims) (own_members t))

abbrev pub subject_in : Option Parsed → Result TokenError (Option Subject)
subject_in none = ok none
subject_in (some (ok s)) = ok (some s)
subject_in (some (err e)) = err (subject_failed e)

abbrev event_result : Result Events.Registry.ParseError Event → Result TokenError Event
event_result (ok e) = ok e
event_result (err e) = err (event_failed e)

abbrev pub the_event : EventParserRegistry → Option (Dict Json) → Result TokenError Event
the_event registry none = err not_one_event
the_event registry (some []) = err not_one_event
the_event registry (some ((t, doc) ∷ [])) = event_result (parse_event registry t doc)
the_event registry (some (a ∷ b ∷ m)) = err not_one_event

abbrev pub validated : Grammars → SecEvent → Result TokenError SecEvent
validated g t = elim (validate g t) [ none ↦ ok t | some e ↦ err e ]

-- `UnmarshalJSON` into a token that is empty
unfoldable pub unmarshal :
    Grammars → EventParserRegistry → ClaimsCodec → Json → Result TokenError SecEvent
unfolding validate parse_event parse_subject field last_entry struct_members and_then
unmarshal g registry codec doc = and_then (decoded (struct_members doc)) (λ members.
    and_then (decoded (codec.read members)) (λ claims.
      and_then (decoded (field read_pointer (addresses names "txn") none members)) (λ txn.
        and_then (decoded (field (fill_map read_any) (addresses names "events") none members))
          (λ events.
            and_then
              (subject_in (
                map_option parse_subject (last_entry (addresses names "sub_id") (entries members))))
              (λ subject. and_then (the_event registry events) (λ event. validated g (record {
                claims = claims;
                event = some event;
                subject = subject;
                transaction_id = txn;
              })))))))
