-- ===== src/Subjects/Account.antt =====
-- AccountSubject of secevent/pkg/subject/simple.go.
use caep_dev.Base.{
  ◌≡◌, refl, String, not, [], ◌∷◌, Option, none, some, ◌==◌, arith, if◌then◌else◌, Result, ok, err,
  and_then,
}
use caep_dev.Base.Text.{trim_space, trim_space_again, has_prefix}
use caep_dev.Base.Dict.{Dict, lookup, put}
use caep_dev.Json.{Json, text, object, empty, member}
use caep_dev.Json.Decode.{decode_map, read_map}
use caep_dev.Models.Value.{Value, str}
use caep_dev.Subjects.Defs.{
  Grammars, SubjectError, new_error, ParseError, text_at, raw_subject, wrong_format, invalid_value,
  format_account,
}

pub record AccountSubject : Type 0 where
  pub format : String
  pub uri : String

unfoldable pub new : (g : Grammars) → (uri : String) → Result SubjectError AccountSubject
unfolding trim_space new_error
new g uri =
    if not (has_prefix (trim_space uri) "acct:")
    then err (new_error invalid_value "URI must begin with 'acct:' scheme" "uri")
    else if not (g.is_url (trim_space uri))
    then err (new_error invalid_value "invalid acct URI format" "uri")
    else ok (record { format = format_account; uri = trim_space uri })

-- `MarshalJSON`: the keys of a map are written in order.
unfoldable pub marshal : AccountSubject → Json
marshal s = object (member "format" (text s.format) (member "uri" (text s.uri) empty))

unfoldable pub read_raw : Dict String → Result ParseError AccountSubject
unfolding text_at trim_space
read_raw raw =
    if not (text_at "format" raw == format_account)
    then err (wrong_format "account")
    else ok (record { format = format_account; uri = trim_space (text_at "uri" raw) })

-- `UnmarshalJSON`
unfoldable pub unmarshal : Json → Result ParseError AccountSubject
unfolding raw_subject read_raw and_then
unmarshal doc = and_then (raw_subject doc) read_raw

unfoldable pub validate : (g : Grammars) → AccountSubject → Option SubjectError
unfolding trim_space new_error
validate g s =
    if not (has_prefix (trim_space s.uri) "acct:")
    then some (new_error invalid_value "URI must begin with 'acct:' scheme" "uri")
    else if not (g.is_url (trim_space s.uri))
    then some (new_error invalid_value "invalid acct URI format" "uri")
    else none

unfoldable pub payload : AccountSubject → Dict Value
payload s = ("format", str s.format) ∷ ("uri", str s.uri) ∷ []

-- a subject as `new` and `unmarshal` make it
abbrev pub IsTrimmed : AccountSubject → Type 0
IsTrimmed s = (s.format ≡ format_account) × (trim_space s.uri ≡ s.uri)

pub unmarshal-marshal : (s : AccountSubject) → IsTrimmed s → unmarshal (marshal s) ≡ ok s
unfolding unmarshal marshal raw_subject read_raw decode_map read_map text_at put lookup and_then
unmarshal-marshal s h = rw (h.0, h.1) refl

-- A constructor makes a subject that passes validation.
pub new_sound :
    (g : Grammars)
    → (uri : String) (s : AccountSubject) → new g uri ≡ ok s
    → IsTrimmed s × (validate g s ≡ none)
unfolding new validate
new_sound g uri s h = ground (arith, trim_space_again uri)
