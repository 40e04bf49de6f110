-- ===== src/Subjects/Email.antt =====
-- EmailSubject of secevent/pkg/subject/simple.go.
use caep_dev.Base.{
  ◌≡◌, refl, String, not, [], ◌∷◌, Option, none, some, ◌==◌, arith, if◌then◌else◌, Result, ok, err,
  and_then,
}
use caep_dev.Base.Text.{trim_space, trim_space_again}
use caep_dev.Base.Dict.{Dict, lookup, put}
use caep_dev.Json.{Json, text, object, empty, member}
use caep_dev.Json.Decode.{decode_map, read_map}
use caep_dev.Models.Value.{Value, str}
use caep_dev.Subjects.Defs.{
  Grammars, SubjectError, new_error, ParseError, text_at, raw_subject, wrong_format, invalid_value,
  format_email,
}

pub record EmailSubject : Type 0 where
  pub format : String
  pub email : String

unfoldable pub new : (g : Grammars) → (email : String) → Result SubjectError EmailSubject
unfolding trim_space new_error
new g email =
    if not (g.is_address (trim_space email))
    then err (new_error invalid_value "invalid email format" "email")
    else ok (record { format = format_email; email = trim_space email })

-- `MarshalJSON`: the keys of a map are written in order.
unfoldable pub marshal : EmailSubject → Json
marshal s = object (member "email" (text s.email) (member "format" (text s.format) empty))

unfoldable pub read_raw : Dict String → Result ParseError EmailSubject
unfolding text_at trim_space
read_raw raw =
    if not (text_at "format" raw == format_email)
    then err (wrong_format "email")
    else ok (record { format = format_email; email = trim_space (text_at "email" raw) })

-- `UnmarshalJSON`
unfoldable pub unmarshal : Json → Result ParseError EmailSubject
unfolding raw_subject read_raw and_then
unmarshal doc = and_then (raw_subject doc) read_raw

unfoldable pub validate : (g : Grammars) → EmailSubject → Option SubjectError
unfolding trim_space new_error
validate g s =
    if not (g.is_address (trim_space s.email))
    then some (new_error invalid_value "invalid email format" "email")
    else none

unfoldable pub payload : EmailSubject → Dict Value
payload s = ("format", str s.format) ∷ ("email", str s.email) ∷ []

-- a subject as `new` and `unmarshal` make it
abbrev pub IsTrimmed : EmailSubject → Type 0
IsTrimmed s = (s.format ≡ format_email) × (trim_space s.email ≡ s.email)

pub unmarshal-marshal : (s : EmailSubject) → IsTrimmed s → unmarshal (marshal s) ≡ ok s
unfolding unmarshal marshal raw_subject read_raw decode_map read_map text_at put lookup and_then
unmarshal-marshal s h = rw (h.0, h.1) refl

-- A constructor makes a subject that passes validation.
pub new_sound :
    (g : Grammars)
    → (email : String) (s : EmailSubject) → new g email ≡ ok s
    → IsTrimmed s × (validate g s ≡ none)
unfolding new validate
new_sound g email s h = ground (arith, trim_space_again email)
