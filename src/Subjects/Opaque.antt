-- ===== src/Subjects/Opaque.antt =====
-- OpaqueSubject of secevent/pkg/subject/simple.go.
use caep_dev.Base.{
  ◌≡◌, refl, String, not, [], ◌∷◌, Option, none, some, ◌==◌, arith, if◌then◌else◌, Result, ok, err,
  and_then,
}
use caep_dev.Base.Text.{trim_space, trim_space_again}
use caep_dev.Base.Dict.{Dict, lookup, put}
use caep_dev.Json.{Json, text, object, empty, member}
use caep_dev.Json.Decode.{decode_map, read_map}
use caep_dev.Models.Value.{Value, str}
use caep_dev.Subjects.Defs.{
  SubjectError, new_error, ParseError, text_at, raw_subject, wrong_format, missing_value,
  format_opaque,
}

pub record OpaqueSubject : Type 0 where
  pub format : String
  pub id : String

unfoldable pub new : (id : String) → Result SubjectError OpaqueSubject
unfolding trim_space new_error
new id =
    if (trim_space id) == ""
    then err (new_error missing_value "identifier is required" "id")
    else ok (record { format = format_opaque; id = trim_space id })

-- `MarshalJSON`: the keys of a map are written in order.
unfoldable pub marshal : OpaqueSubject → Json
marshal s = object (member "format" (text s.format) (member "id" (text s.id) empty))

unfoldable pub read_raw : Dict String → Result ParseError OpaqueSubject
unfolding text_at trim_space
read_raw raw =
    if not (text_at "format" raw == format_opaque)
    then err (wrong_format "opaque")
    else ok (record { format = format_opaque; id = trim_space (text_at "id" raw) })

-- `UnmarshalJSON`
unfoldable pub unmarshal : Json → Result ParseError OpaqueSubject
unfolding raw_subject read_raw and_then
unmarshal doc = and_then (raw_subject doc) read_raw

unfoldable pub validate : OpaqueSubject → Option SubjectError
unfolding trim_space new_error
validate s =
    if (trim_space s.id) == ""
    then some (new_error missing_value "identifier is required" "id")
    else none

unfoldable pub payload : OpaqueSubject → Dict Value
payload s = ("format", str s.format) ∷ ("id", str s.id) ∷ []

-- a subject as `new` and `unmarshal` make it
abbrev pub IsTrimmed : OpaqueSubject → Type 0
IsTrimmed s = (s.format ≡ format_opaque) × (trim_space s.id ≡ s.id)

pub unmarshal-marshal : (s : OpaqueSubject) → IsTrimmed s → unmarshal (marshal s) ≡ ok s
unfolding unmarshal marshal raw_subject read_raw decode_map read_map text_at put lookup and_then
unmarshal-marshal s h = rw (h.0, h.1) refl

-- A constructor makes a subject that passes validation.
pub new_sound :
    (id : String) (s : OpaqueSubject) → new id ≡ ok s → IsTrimmed s × (validate s ≡ none)
unfolding new validate
new_sound id s h = ground (arith, trim_space_again id)
