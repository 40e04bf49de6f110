-- ===== src/Subjects/Parse.antt =====
-- ParseSubject and ParseComplexSubject of secevent/pkg/subject/parser.go, and the UnmarshalJSON of
-- complex subjects. They call each other on the components of a document: here every member is
-- parsed, and the components that the struct has are taken from the results.
use Prim.Native.String.{◌++◌}
use caep_dev.Base.{
  String, Bool, not, ◌||◌, List, [], ◌∷◌, Option, none, some, ◌==◌, if◌then◌else◌, Result, ok, err,
  and_then,
}
use caep_dev.Base.Dict.{Dict}
use caep_dev.Json.{Json, null, object, Members, empty, member}
use caep_dev.Json.Decode.{field, read_text, addresses, last_entry}
use caep_dev.Subjects.Defs.{
  new_error, ParseError, malformed, refused, within, wrong_format, invalid_format, format_email,
  format_phone, format_issuer_sub, format_uri, format_opaque, format_complex,
}
use caep_dev.Subjects.Simple.{parse_simple_subject}
use caep_dev.Subjects.Complex.{Subject, simple, complex, Component, absent, present}

-- the names of the struct in UnmarshalJSON
abbrev pub complex_names : List String
complex_names =
    "format" ∷ "user" ∷ "device" ∷ "session" ∷ "application" ∷ "tenant" ∷ "org_unit" ∷ "group" ∷ []

abbrev pub Parsed : Type 0
Parsed = Result ParseError Subject

-- a string field of a struct, "" without a member
unfoldable pub string_at :
    (names : List String) (name : String) → Members → Result ParseError String
unfolding field addresses
string_at names name members = elim (field read_text (addresses names name) "" members) [
  | ok s ↦ ok s
  | err e ↦ err malformed
]

abbrev pub component_of : (what : String) → Option Parsed → Result ParseError Component
component_of what none = ok absent
component_of what (some (ok s)) = ok (present s)
component_of what (some (err e)) = err (within ("failed to parse " ++ (what ++ " component")) e)

abbrev component_at : (what name : String) → Dict Parsed → Result ParseError Component
component_at what name parsed = component_of what (last_entry (addresses complex_names name) parsed)

abbrev pub complex_with : Dict Parsed → Parsed
complex_with parsed = and_then (component_at "user" "user" parsed) (λ u.
    and_then (component_at "device" "device" parsed) (λ d.
      and_then (component_at "session" "session" parsed) (λ s.
        and_then (component_at "application" "application" parsed) (λ a.
          and_then (component_at "tenant" "tenant" parsed) (λ t.
            and_then (component_at "org unit" "org_unit" parsed) (λ o.
              and_then (component_at "group" "group" parsed)
                (λ r. ok (complex format_complex u d s a t o r))))))))

-- `UnmarshalJSON` of a complex subject, on an object
unfoldable pub unmarshal_complex : Members → Dict Parsed → Parsed
unfolding string_at last_entry addresses and_then
unmarshal_complex members parsed = and_then (string_at complex_names "format" members) (λ named.
    if not (named == format_complex) then err (wrong_format "complex") else complex_with parsed)

abbrev pub is_simple_format : String → Bool
is_simple_format named =
    named == format_email
    || (named == format_phone
        || (named == format_issuer_sub || (named == format_uri || named == format_opaque)))

abbrev pub within_words : {A : Type 0} → String → Result ParseError A → Result ParseError A
within_words words (ok s) = ok s
within_words words (err e) = err (within words e)

-- `ParseComplexSubject`
unfoldable pub parse_complex_subject : Members → Dict Parsed → Parsed
unfolding unmarshal_complex
parse_complex_subject members parsed =
    within_words "failed to parse complex subject" (unmarshal_complex members parsed)

-- the switch of `ParseSubject`
unfoldable pub parse_named : String → Members → Dict Parsed → Parsed
unfolding parse_complex_subject parse_simple_subject and_then
parse_named named members parsed =
    if named == format_complex
    then parse_complex_subject members parsed
    else if is_simple_format named
    then and_then (parse_simple_subject (object members)) (λ s. ok (simple s))
    else err (refused (new_error invalid_format ("unsupported subject format: " ++ named) "format"))

unfoldable pub parse_object : Members → Dict Parsed → Parsed
unfolding string_at parse_named and_then
parse_object members parsed =
    and_then
      (within_words "failed to parse subject format" (string_at ("format" ∷ []) "format" members))
      (λ named. parse_named named members parsed)

-- A null leaves the format empty.
unfoldable mutual
  unfolding parse_object

  pub parse_subject : Json → Parsed
  parse_subject null = parse_object empty []
  parse_subject (object members) = parse_object members (parse_members members)
  parse_subject _ = err (within "failed to parse subject format" malformed)

  pub parse_members : Members → Dict Parsed
  parse_members empty = []
  parse_members (member key v others) = (key, parse_subject v) ∷ parse_members others
