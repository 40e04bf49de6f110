-- ===== src/Subjects/JwtId.antt =====
-- JWTIDSubject of secevent/pkg/subject/simple.go.
use caep_dev.Base.{
  ◌≡◌, refl, String, not, [], ◌∷◌, Option, none, some, ◌==◌, arith, if◌then◌else◌, Result, ok, err,
  and_then,
}
use caep_dev.Base.Text.{trim_space, trim_space_again}
use caep_dev.Base.Dict.{Dict, lookup, put}
use caep_dev.Json.{Json, text, object, empty, member}
use caep_dev.Json.Decode.{decode_map, read_map}
use caep_dev.Models.Value.{Value, str}
use caep_dev.Subjects.Defs.{
  SubjectError, new_error, ParseError, text_at, raw_subject, wrong_format, missing_value,
  format_jwt_id,
}

pub record JwtIdSubject : Type 0 where
  pub format : String
  pub iss : String
  pub jti : String

unfoldable pub new : (iss jti : String) → Result SubjectError JwtIdSubject
unfolding trim_space new_error
new iss jti =
    if (trim_space iss) == ""
    then err (new_error missing_value "issuer is required" "iss")
    else if (trim_space jti) == ""
    then err (new_error missing_value "JWT ID is required" "jti")
    else ok (record { format = format_jwt_id; iss = trim_space iss; jti = trim_space jti })

-- `MarshalJSON`: the keys of a map are written in order.
unfoldable pub marshal : JwtIdSubject → Json
marshal s =
    object (
      member "format" (text s.format) (member "iss" (text s.iss) (member "jti" (text s.jti) empty)))

unfoldable pub read_raw : Dict String → Result ParseError JwtIdSubject
unfolding text_at trim_space
read_raw raw =
    if not (text_at "format" raw == format_jwt_id)
    then err (wrong_format "JWT ID")
    else ok (record {
      format = format_jwt_id;
      iss = trim_space (text_at "iss" raw);
      jti = trim_space (text_at "jti" raw);
    })

-- `UnmarshalJSON`
unfoldable pub unmarshal : Json → Result ParseError JwtIdSubject
unfolding raw_subject read_raw and_then
unmarshal doc = and_then (raw_subject doc) read_raw

unfoldable pub validate : JwtIdSubject → Option SubjectError
unfolding trim_space new_error
validate s =
    if (trim_space s.iss) == ""
    then some (new_error missing_value "issuer is required" "iss")
    else if (trim_space s.jti) == ""
    then some (new_error missing_value "JWT ID is required" "jti")
    else none

unfoldable pub payload : JwtIdSubject → Dict Value
payload s = ("format", str s.format) ∷ ("iss", str s.iss) ∷ ("jti", str s.jti) ∷ []

-- a subject as `new` and `unmarshal` make it
abbrev pub IsTrimmed : JwtIdSubject → Type 0
IsTrimmed s = (s.format ≡ format_jwt_id) × (trim_space s.iss ≡ s.iss) × (trim_space s.jti ≡ s.jti)

pub unmarshal-marshal : (s : JwtIdSubject) → IsTrimmed s → unmarshal (marshal s) ≡ ok s
unfolding unmarshal marshal raw_subject read_raw decode_map read_map text_at put lookup and_then
unmarshal-marshal s h = rw (h.0, h.1, h.2) refl

-- A constructor makes a subject that passes validation.
pub new_sound :
    (iss jti : String) (s : JwtIdSubject) → new iss jti ≡ ok s → IsTrimmed s × (validate s ≡ none)
unfolding new validate
new_sound iss jti s h = ground (arith, trim_space_again iss, trim_space_again jti)
