-- ===== src/Subjects/Simple.antt =====
-- The nine simple subjects as one type, and ParseSimpleSubject of secevent/pkg/subject/parser.go.
use caep_dev.Base.{◌≡◌, ap, ◌∙◌, String, Option, ◌==◌, if◌then◌else◌, Result, ok, err, and_then}
use caep_dev.Base.Dict.{Dict, put, lookup}
use caep_dev.Json.{Json}
use caep_dev.Json.Decode.{decode_map, read_map}
use caep_dev.Models.Value.{Value}
use caep_dev.Subjects.Defs.{
  Grammars, SubjectError, new_error, ParseError, refused, text_at, raw_subject, invalid_format,
  format_email, format_phone, format_issuer_sub, format_uri, format_opaque,
}
use caep_dev.Subjects.Email
use caep_dev.Subjects.Phone
use caep_dev.Subjects.IssuerSub
use caep_dev.Subjects.Uri
use caep_dev.Subjects.Opaque
use caep_dev.Subjects.Account
use caep_dev.Subjects.Did
use caep_dev.Subjects.JwtId
use caep_dev.Subjects.SamlId

pub data SimpleSubject : Type 0 where
  email : Email.EmailSubject → SimpleSubject
  phone : Phone.PhoneSubject → SimpleSubject
  issuer_sub : IssuerSub.IssuerSubSubject → SimpleSubject
  uri : Uri.UriSubject → SimpleSubject
  opaque : Opaque.OpaqueSubject → SimpleSubject
  account : Account.AccountSubject → SimpleSubject
  did : Did.DidSubject → SimpleSubject
  jwt_id : JwtId.JwtIdSubject → SimpleSubject
  saml_id : SamlId.SamlIdSubject → SimpleSubject

-- the methods of the interface `Subject`
abbrev pub format : SimpleSubject → String
format (email s) = s.format
format (phone s) = s.format
format (issuer_sub s) = s.format
format (uri s) = s.format
format (opaque s) = s.format
format (account s) = s.format
format (did s) = s.format
format (jwt_id s) = s.format
format (saml_id s) = s.format

unfoldable pub validate : Grammars → SimpleSubject → Option SubjectError
unfolding Email.validate Phone.validate IssuerSub.validate Uri.validate Opaque.validate
    Account.validate Did.validate JwtId.validate SamlId.validate
validate g (email s) = Email.validate g s
validate g (phone s) = Phone.validate s
validate g (issuer_sub s) = IssuerSub.validate s
validate g (uri s) = Uri.validate g s
validate g (opaque s) = Opaque.validate s
validate g (account s) = Account.validate g s
validate g (did s) = Did.validate s
validate g (jwt_id s) = JwtId.validate s
validate g (saml_id s) = SamlId.validate s

unfoldable pub marshal : SimpleSubject → Json
unfolding Email.marshal Phone.marshal IssuerSub.marshal Uri.marshal Opaque.marshal Account.marshal
    Did.marshal JwtId.marshal SamlId.marshal
marshal (email s) = Email.marshal s
marshal (phone s) = Phone.marshal s
marshal (issuer_sub s) = IssuerSub.marshal s
marshal (uri s) = Uri.marshal s
marshal (opaque s) = Opaque.marshal s
marshal (account s) = Account.marshal s
marshal (did s) = Did.marshal s
marshal (jwt_id s) = JwtId.marshal s
marshal (saml_id s) = SamlId.marshal s

unfoldable pub payload : SimpleSubject → Dict Value
unfolding Email.payload Phone.payload IssuerSub.payload Uri.payload Opaque.payload Account.payload
    Did.payload JwtId.payload SamlId.payload
payload (email s) = Email.payload s
payload (phone s) = Phone.payload s
payload (issuer_sub s) = IssuerSub.payload s
payload (uri s) = Uri.payload s
payload (opaque s) = Opaque.payload s
payload (account s) = Account.payload s
payload (did s) = Did.payload s
payload (jwt_id s) = JwtId.payload s
payload (saml_id s) = SamlId.payload s

-- The switch of `ParseSimpleSubject`, on the format that the document names.
unfoldable pub parse_format : String → Json → Result ParseError SimpleSubject
unfolding Email.unmarshal Phone.unmarshal IssuerSub.unmarshal Uri.unmarshal Opaque.unmarshal
    and_then
parse_format named doc =
    if named == format_email
    then and_then (Email.unmarshal doc) (λ s. ok (email s))
    else if named == format_phone
    then and_then (Phone.unmarshal doc) (λ s. ok (phone s))
    else if named == format_issuer_sub
    then and_then (IssuerSub.unmarshal doc) (λ s. ok (issuer_sub s))
    else if named == format_uri
    then and_then (Uri.unmarshal doc) (λ s. ok (uri s))
    else if named == format_opaque
    then and_then (Opaque.unmarshal doc) (λ s. ok (opaque s))
    else err (refused (new_error invalid_format "unsupported subject format" "format"))

unfoldable pub parse_simple_subject : Json → Result ParseError SimpleSubject
unfolding raw_subject text_at parse_format and_then
parse_simple_subject doc =
    and_then (raw_subject doc) (λ raw. parse_format (text_at "format" raw) doc)

-- a subject of one of the five formats that are parsed, trimmed
abbrev pub IsReadable : SimpleSubject → Type 0
IsReadable (email s) = Email.IsTrimmed s
IsReadable (phone s) = Phone.IsTrimmed s
IsReadable (issuer_sub s) = IssuerSub.IsTrimmed s
IsReadable (uri s) = Uri.IsTrimmed s
IsReadable (opaque s) = Opaque.IsTrimmed s
IsReadable _ = ⊥

-- Whatever parses, by its format, is what was written.
pub parse_simple_subject-marshal :
    (s : SimpleSubject) → IsReadable s → parse_simple_subject (marshal s) ≡ ok s
unfolding parse_simple_subject parse_format marshal raw_subject text_at decode_map read_map and_then
    put lookup Email.marshal Phone.marshal IssuerSub.marshal Uri.marshal Opaque.marshal
parse_simple_subject-marshal (email s) h =
    ap (λ f. parse_format f (Email.marshal s)) h.0
    ∙ ap (λ r. and_then r (λ x. ok (email x))) (Email.unmarshal-marshal s h)
parse_simple_subject-marshal (phone s) h =
    ap (λ f. parse_format f (Phone.marshal s)) h.0
    ∙ ap (λ r. and_then r (λ x. ok (phone x))) (Phone.unmarshal-marshal s h)
parse_simple_subject-marshal (issuer_sub s) h =
    ap (λ f. parse_format f (IssuerSub.marshal s)) h.0
    ∙ ap (λ r. and_then r (λ x. ok (issuer_sub x))) (IssuerSub.unmarshal-marshal s h)
parse_simple_subject-marshal (uri s) h =
    ap (λ f. parse_format f (Uri.marshal s)) h.0
    ∙ ap (λ r. and_then r (λ x. ok (uri x))) (Uri.unmarshal-marshal s h)
parse_simple_subject-marshal (opaque s) h =
    ap (λ f. parse_format f (Opaque.marshal s)) h.0
    ∙ ap (λ r. and_then r (λ x. ok (opaque x))) (Opaque.unmarshal-marshal s h)
parse_simple_subject-marshal _ h = absurd h
