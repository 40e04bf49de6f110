-- ===== src/Tokens/Multi.antt =====
-- MultiSecEvent of secevent/pkg/token/token.go.
use caep_dev.Base.{
  String, List, [], ◌∷◌, Option, none, some, ◌==◌, if◌then◌else◌, Result, ok, err, and_then,
  Outcome, returns, panics,
}
use caep_dev.Base.Dict.{Dict, put}
use caep_dev.Models.Receiver.{Time}
use caep_dev.Json.{Json}
use caep_dev.Json.Decode.{
  field, read_pointer, read_any, fill_map, addresses, last_entry, struct_members,
}
use caep_dev.Subjects.Defs.{Grammars}
use caep_dev.Subjects
use caep_dev.Subjects.Complex.{Subject}
use caep_dev.Subjects.Parse.{Parsed, parse_subject}
use caep_dev.Events.Metadata.{map_option}
use caep_dev.Events
use caep_dev.Events.Registry.{Event, EventParserRegistry, parse_event}
use caep_dev.Tokens.Defs.{
  RegisteredClaims, no_claims, ClaimsCodec, TokenError, issuer_required, id_required,
  events_required, subject_required, subject_failed, event_of_type_failed, names, entries, decoded,
  or_else_check, event_check, subject_check,
}

-- The subject and the map may be nil.
pub record MultiSecEvent : Type 0 where
  pub claims : RegisteredClaims
  pub events : Option (Dict Event)
  pub subject : Option Subject
  pub transaction_id : Option String

-- `time.Now()` is an argument, and so is `jwt.NewNumericDate`, by the time that it keeps of another.
unfoldable pub new_multi_sec_event : (numeric_date : Time → Time) → Time → MultiSecEvent
new_multi_sec_event numeric_date now = record {
  claims = record no_claims { issued_at = some (numeric_date now) };
  events = some [];
  subject = none;
  transaction_id = none;
}

-- `range s.Events`, in the order of the map
abbrev events_check : Dict Event → Option TokenError
events_check [] = none
events_check ((t, e) ∷ m) =
    or_else_check (event_check (Events.Registry.validate e)) (events_check m)

abbrev part_checks : Grammars → Option (Dict Event) → Option Subject → Option TokenError
part_checks g none s = some events_required
part_checks g (some []) s = some events_required
part_checks g (some (e ∷ m)) none = some subject_required
part_checks g (some (e ∷ m)) (some s) =
    or_else_check (events_check (e ∷ m)) (subject_check (Subjects.Complex.validate g s))

unfoldable pub validate : Grammars → MultiSecEvent → Option TokenError
unfolding Events.Registry.validate Subjects.Complex.validate
validate g t =
    if t.claims.issuer == ""
    then some issuer_required
    else if t.claims.id == ""
    then some id_required
    else part_checks g t.events t.subject

unfoldable pub with_issuer : String → MultiSecEvent → MultiSecEvent
with_issuer issuer t = let c = t.claims in record t { claims = record c { issuer = issuer } }

unfoldable pub with_id : String → MultiSecEvent → MultiSecEvent
with_id id t = let c = t.claims in record t { claims = record c { id = id } }

unfoldable pub with_audience : List String → MultiSecEvent → MultiSecEvent
with_audience audience t =
    let c = t.claims in record t { claims = record c { audience = audience } }

unfoldable pub with_subject : Option Subject → MultiSecEvent → MultiSecEvent
with_subject s t = record t { subject = s }

-- A write into a nil map panics.
unfoldable pub with_event : Event → MultiSecEvent → Outcome MultiSecEvent
unfolding put
with_event e t = elim t.events [
  | none ↦ panics
  | some m ↦ returns (record t { events = some (put (Events.Registry.type_of e) e m) })
]

unfoldable pub with_transaction_id : String → MultiSecEvent → MultiSecEvent
with_transaction_id txn t = record t { transaction_id = some txn }

unfoldable pub get_expiration_time : MultiSecEvent → Option Time
get_expiration_time t = none

unfoldable pub get_issued_at : MultiSecEvent → Option Time
get_issued_at t = t.claims.issued_at

unfoldable pub get_not_before : MultiSecEvent → Option Time
get_not_before t = none

unfoldable pub get_issuer : MultiSecEvent → String
get_issuer t = t.claims.issuer

unfoldable pub get_subject : MultiSecEvent → String
get_subject t = ""

unfoldable pub get_audience : MultiSecEvent → List String
get_audience t = t.claims.audience

abbrev subject_in : Option Parsed → Result TokenError (Option Subject)
subject_in none = ok none
subject_in (some (ok s)) = ok (some s)
subject_in (some (err e)) = err (subject_failed e)

abbrev event_of : String → Result Events.Registry.ParseError Event → Result TokenError Event
event_of t (ok e) = ok e
event_of t (err e) = err (event_of_type_failed t e)

-- the loop over the documents, in the order of the map
unfoldable pub parse_events :
    EventParserRegistry → Dict Json → Dict Event → Result TokenError (Dict Event)
unfolding parse_event put and_then
parse_events registry [] m = ok m
parse_events registry ((t, doc) ∷ docs) m =
    and_then (event_of t (parse_event registry t doc)) (λ e. parse_events registry docs (put t e m))

abbrev documents : Option (Dict Json) → Dict Json
documents none = []
documents (some m) = m

abbrev validated : Grammars → MultiSecEvent → Result TokenError MultiSecEvent
validated g t = elim (validate g t) [ none ↦ ok t | some e ↦ err e ]

-- `UnmarshalJSON` into a token that is empty
unfoldable pub unmarshal :
    Grammars → EventParserRegistry → ClaimsCodec → Json → Result TokenError MultiSecEvent
unfolding validate parse_events parse_subject field last_entry struct_members and_then
unmarshal g registry codec doc = and_then (decoded (struct_members doc)) (λ members.
    and_then (decoded (codec.read members)) (λ claims.
      and_then (decoded (field read_pointer (addresses names "txn") none members)) (λ txn.
        and_then (decoded (field (fill_map read_any) (addresses names "events") none members))
          (λ docs.
            and_then
              (subject_in (
                map_option parse_subject (last_entry (addresses names "sub_id") (entries members))))
              (λ subject. and_then (parse_events registry (documents docs) []) (λ events.
                validated g (record {
                  claims = claims;
                  events = some events;
                  subject = subject;
                  transaction_id = txn;
                })))))))
