-- ===== src/Subjects/Phone.antt =====
-- PhoneSubject of secevent/pkg/subject/simple.go.
use caep_dev.Base.{
  ◌≡◌, refl, String, not, [], ◌∷◌, Option, none, some, ◌==◌, arith, if◌then◌else◌, Result, ok, err,
  and_then,
}
use caep_dev.Base.Text.{trim_space, trim_space_again}
use caep_dev.Base.Dict.{Dict, lookup, put}
use caep_dev.Json.{Json, text, object, empty, member}
use caep_dev.Json.Decode.{decode_map, read_map}
use caep_dev.Models.Value.{Value, str}
use caep_dev.Subjects.Defs.{
  SubjectError, new_error, ParseError, text_at, raw_subject, wrong_format, missing_value,
  format_phone,
}

pub record PhoneSubject : Type 0 where
  pub format : String
  pub phone : String

unfoldable pub new : (phone : String) → Result SubjectError PhoneSubject
unfolding trim_space new_error
new phone =
    if (trim_space phone) == ""
    then err (new_error missing_value "phone cannot be empty" "phone")
    else ok (record { format = format_phone; phone = trim_space phone })

-- `MarshalJSON`: the keys of a map are written in order.
unfoldable pub marshal : PhoneSubject → Json
marshal s = object (member "format" (text s.format) (member "phone" (text s.phone) empty))

unfoldable pub read_raw : Dict String → Result ParseError PhoneSubject
unfolding text_at trim_space
read_raw raw =
    if not (text_at "format" raw == format_phone)
    then err (wrong_format "phone")
    else ok (record { format = format_phone; phone = trim_space (text_at "phone" raw) })

-- `UnmarshalJSON`
unfoldable pub unmarshal : Json → Result ParseError PhoneSubject
unfolding raw_subject read_raw and_then
unmarshal doc = and_then (raw_subject doc) read_raw

unfoldable pub validate : PhoneSubject → Option SubjectError
unfolding trim_space new_error
validate s =
    if (trim_space s.phone) == ""
    then some (new_error missing_value "phone cannot be empty" "phone")
    else none

unfoldable pub payload : PhoneSubject → Dict Value
payload s = ("format", str s.format) ∷ ("phone", str s.phone) ∷ []

-- a subject as `new` and `unmarshal` make it
abbrev pub IsTrimmed : PhoneSubject → Type 0
IsTrimmed s = (s.format ≡ format_phone) × (trim_space s.phone ≡ s.phone)

pub unmarshal-marshal : (s : PhoneSubject) → IsTrimmed s → unmarshal (marshal s) ≡ ok s
unfolding unmarshal marshal raw_subject read_raw decode_map read_map text_at put lookup and_then
unmarshal-marshal s h = rw (h.0, h.1) refl

-- A constructor makes a subject that passes validation.
pub new_sound :
    (phone : String) (s : PhoneSubject) → new phone ≡ ok s → IsTrimmed s × (validate s ≡ none)
unfolding new validate
new_sound phone s h = ground (arith, trim_space_again phone)
