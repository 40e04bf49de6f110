-- ===== src/Subjects/IssuerSub.antt =====
-- IssuerSubSubject of secevent/pkg/subject/simple.go.
use caep_dev.Base.{
  ◌≡◌, refl, String, not, [], ◌∷◌, Option, none, some, ◌==◌, arith, if◌then◌else◌, Result, ok, err,
  and_then,
}
use caep_dev.Base.Text.{trim_space, trim_space_again}
use caep_dev.Base.Dict.{Dict, lookup, put}
use caep_dev.Json.{Json, text, object, empty, member}
use caep_dev.Json.Decode.{decode_map, read_map}
use caep_dev.Models.Value.{Value, str}
use caep_dev.Subjects.Defs.{
  SubjectError, new_error, ParseError, text_at, raw_subject, wrong_format, missing_value,
  format_issuer_sub,
}

pub record IssuerSubSubject : Type 0 where
  pub format : String
  pub issuer : String
  pub sub : String

unfoldable pub new : (issuer sub : String) → Result SubjectError IssuerSubSubject
unfolding trim_space new_error
new issuer sub =
    if (trim_space issuer) == ""
    then err (new_error missing_value "issuer is required" "issuer")
    else if (trim_space sub) == ""
    then err (new_error missing_value "subject is required" "sub")
    else ok
        (record { format = format_issuer_sub; issuer = trim_space issuer; sub = trim_space sub })

-- `MarshalJSON`: the keys of a map are written in order.
unfoldable pub marshal : IssuerSubSubject → Json
marshal s = object (
    member "format" (text s.format)
      (member "issuer" (text s.issuer) (member "sub" (text s.sub) empty)))

unfoldable pub read_raw : Dict String → Result ParseError IssuerSubSubject
unfolding text_at trim_space
read_raw raw =
    if not (text_at "format" raw == format_issuer_sub)
    then err (wrong_format "issuer_sub")
    else ok (record {
      format = format_issuer_sub;
      issuer = trim_space (text_at "issuer" raw);
      sub = trim_space (text_at "sub" raw);
    })

-- `UnmarshalJSON`
unfoldable pub unmarshal : Json → Result ParseError IssuerSubSubject
unfolding raw_subject read_raw and_then
unmarshal doc = and_then (raw_subject doc) read_raw

unfoldable pub validate : IssuerSubSubject → Option SubjectError
unfolding trim_space new_error
validate s =
    if (trim_space s.issuer) == ""
    then some (new_error missing_value "issuer is required" "issuer")
    else if (trim_space s.sub) == ""
    then some (new_error missing_value "subject is required" "sub")
    else none

unfoldable pub payload : IssuerSubSubject → Dict Value
payload s = ("format", str s.format) ∷ ("issuer", str s.issuer) ∷ ("sub", str s.sub) ∷ []

-- a subject as `new` and `unmarshal` make it
abbrev pub IsTrimmed : IssuerSubSubject → Type 0
IsTrimmed s =
    (s.format ≡ format_issuer_sub) × (trim_space s.issuer ≡ s.issuer) × (trim_space s.sub ≡ s.sub)

pub unmarshal-marshal : (s : IssuerSubSubject) → IsTrimmed s → unmarshal (marshal s) ≡ ok s
unfolding unmarshal marshal raw_subject read_raw decode_map read_map text_at put lookup and_then
unmarshal-marshal s h = rw (h.0, h.1, h.2) refl

-- A constructor makes a subject that passes validation.
pub new_sound :
    (issuer sub : String) (s : IssuerSubSubject)
    → new issuer sub ≡ ok s
    → IsTrimmed s × (validate s ≡ none)
unfolding new validate
new_sound issuer sub s h = ground (arith, trim_space_again issuer, trim_space_again sub)
