-- ===== src/Subjects/SamlId.antt =====
-- SAMLIDSubject of secevent/pkg/subject/simple.go.
use caep_dev.Base.{
  ◌≡◌, refl, String, not, [], ◌∷◌, Option, none, some, ◌==◌, arith, if◌then◌else◌, Result, ok, err,
  and_then,
}
use caep_dev.Base.Text.{trim_space, trim_space_again}
use caep_dev.Base.Dict.{Dict, lookup, put}
use caep_dev.Json.{Json, text, object, empty, member}
use caep_dev.Json.Decode.{decode_map, read_map}
use caep_dev.Models.Value.{Value, str}
use caep_dev.Subjects.Defs.{
  SubjectError, new_error, ParseError, text_at, raw_subject, wrong_format, missing_value,
  format_saml_id,
}

pub record SamlIdSubject : Type 0 where
  pub format : String
  pub issuer : String
  pub assertion_id : String

unfoldable pub new : (issuer assertion_id : String) → Result SubjectError SamlIdSubject
unfolding trim_space new_error
new issuer assertion_id =
    if (trim_space issuer) == ""
    then err (new_error missing_value "issuer is required" "issuer")
    else if (trim_space assertion_id) == ""
    then err (new_error missing_value "assertion ID is required" "assertion_id")
    else ok (record {
      format = format_saml_id;
      issuer = trim_space issuer;
      assertion_id = trim_space assertion_id;
    })

-- `MarshalJSON`: the keys of a map are written in order.
unfoldable pub marshal : SamlIdSubject → Json
marshal s = object (
    member "assertion_id" (text s.assertion_id)
      (member "format" (text s.format) (member "issuer" (text s.issuer) empty)))

unfoldable pub read_raw : Dict String → Result ParseError SamlIdSubject
unfolding text_at trim_space
read_raw raw =
    if not (text_at "format" raw == format_saml_id)
    then err (wrong_format "SAML ID")
    else ok (record {
      format = format_saml_id;
      issuer = trim_space (text_at "issuer" raw);
      assertion_id = trim_space (text_at "assertion_id" raw);
    })

-- `UnmarshalJSON`
unfoldable pub unmarshal : Json → Result ParseError SamlIdSubject
unfolding raw_subject read_raw and_then
unmarshal doc = and_then (raw_subject doc) read_raw

unfoldable pub validate : SamlIdSubject → Option SubjectError
unfolding trim_space new_error
validate s =
    if (trim_space s.issuer) == ""
    then some (new_error missing_value "issuer is required" "issuer")
    else if (trim_space s.assertion_id) == ""
    then some (new_error missing_value "assertion ID is required" "assertion_id")
    else none

unfoldable pub payload : SamlIdSubject → Dict Value
payload s =
    ("format", str s.format) ∷ ("issuer", str s.issuer) ∷ ("assertion_id", str s.assertion_id) ∷ []

-- a subject as `new` and `unmarshal` make it
abbrev pub IsTrimmed : SamlIdSubject → Type 0
IsTrimmed s =
    (s.format ≡ format_saml_id)
    × (trim_space s.issuer ≡ s.issuer)
    × (trim_space s.assertion_id ≡ s.assertion_id)

pub unmarshal-marshal : (s : SamlIdSubject) → IsTrimmed s → unmarshal (marshal s) ≡ ok s
unfolding unmarshal marshal raw_subject read_raw decode_map read_map text_at put lookup and_then
unmarshal-marshal s h = rw (h.0, h.1, h.2) refl

-- A constructor makes a subject that passes validation.
pub new_sound :
    (issuer assertion_id : String) (s : SamlIdSubject)
    → new issuer assertion_id ≡ ok s
    → IsTrimmed s × (validate s ≡ none)
unfolding new validate
new_sound issuer assertion_id s h =
    ground (arith, trim_space_again issuer, trim_space_again assertion_id)
