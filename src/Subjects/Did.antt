-- ===== src/Subjects/Did.antt =====
-- DIDSubject of secevent/pkg/subject/simple.go.
use caep_dev.Base.{
  ◌≡◌, refl, ap, String, not, true, false, [], ◌∷◌, Option, none, some, ◌==◌, eq_iff, arith,
  if◌then◌else◌, Result, ok, err, and_then, Bool-cases, inl, inr,
}
use caep_dev.Base.Text.{trim_space, trim_space_again, has_prefix}
use caep_dev.Base.Dict.{Dict, lookup, put}
use caep_dev.Json.{Json, text, object, empty, member}
use caep_dev.Json.Decode.{decode_map, read_map}
use caep_dev.Models.Value.{Value, str}
use caep_dev.Subjects.Defs.{
  SubjectError, new_error, ParseError, text_at, raw_subject, wrong_format, invalid_value,
  missing_value, format_did,
}

pub record DidSubject : Type 0 where
  pub format : String
  pub url : String

unfoldable pub new : (url : String) → Result SubjectError DidSubject
unfolding trim_space new_error
new url =
    if not (has_prefix (trim_space url) "did:")
    then err (new_error invalid_value "URL must begin with 'did:' scheme" "url")
    else ok (record { format = format_did; url = trim_space url })

-- `MarshalJSON`: the keys of a map are written in order.
unfoldable pub marshal : DidSubject → Json
marshal s = object (member "format" (text s.format) (member "url" (text s.url) empty))

unfoldable pub read_raw : Dict String → Result ParseError DidSubject
unfolding text_at trim_space
read_raw raw =
    if not (text_at "format" raw == format_did)
    then err (wrong_format "DID")
    else ok (record { format = format_did; url = trim_space (text_at "url" raw) })

-- `UnmarshalJSON`
unfoldable pub unmarshal : Json → Result ParseError DidSubject
unfolding raw_subject read_raw and_then
unmarshal doc = and_then (raw_subject doc) read_raw

unfoldable pub validate : DidSubject → Option SubjectError
unfolding trim_space new_error
validate s =
    if (trim_space s.url) == ""
    then some (new_error missing_value "URL is required" "url")
    else if not (has_prefix (trim_space s.url) "did:")
    then some (new_error invalid_value "URL must begin with 'did:' scheme" "url")
    else none

unfoldable pub payload : DidSubject → Dict Value
payload s = ("format", str s.format) ∷ ("url", str s.url) ∷ []

-- a subject as `new` and `unmarshal` make it
abbrev pub IsTrimmed : DidSubject → Type 0
IsTrimmed s = (s.format ≡ format_did) × (trim_space s.url ≡ s.url)

pub unmarshal-marshal : (s : DidSubject) → IsTrimmed s → unmarshal (marshal s) ≡ ok s
unfolding unmarshal marshal raw_subject read_raw decode_map read_map text_at put lookup and_then
unmarshal-marshal s h = rw (h.0, h.1) refl

pub did_not_blank : (s : String) → has_prefix s "did:" ≡ true → (s == "") ≡ false
unfolding has_prefix
did_not_blank s h = elim (Bool-cases (s == "")) [
  | inl blank ↦ cc (ap (λ t. has_prefix t "did:") ((eq_iff s "").0 blank), h)
  | inr other ↦ other
]

-- A constructor makes a subject that passes validation.
pub new_sound : (url : String) (s : DidSubject) → new url ≡ ok s → IsTrimmed s × (validate s ≡ none)
unfolding new validate
new_sound url s h = ground (arith, trim_space_again url, did_not_blank (trim_space url))
