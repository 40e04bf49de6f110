-- ===== src/Subjects/Defs.antt =====
-- The formats, the errors and what the nine simple subjects share: interfaces.go, and the reading of
-- a document into a `map[string]string` by each UnmarshalJSON of simple.go.
use Prim.Native.String.{◌++◌}
use caep_dev.Base.{String, Bool, none, some, ◌==◌, if◌then◌else◌, Result, ok, err}
use caep_dev.Base.Dict.{Dict, lookup}
use caep_dev.Json.{Json}
use caep_dev.Json.Decode.{decode_map, read_entry}

abbrev pub format_account : String
format_account = "account"

abbrev pub format_email : String
format_email = "email"

abbrev pub format_issuer_sub : String
format_issuer_sub = "iss_sub"

abbrev pub format_opaque : String
format_opaque = "opaque"

abbrev pub format_phone : String
format_phone = "phone_number"

abbrev pub format_did : String
format_did = "did"

abbrev pub format_uri : String
format_uri = "uri"

abbrev pub format_jwt_id : String
format_jwt_id = "jwt_id"

abbrev pub format_saml_id : String
format_saml_id = "saml_assertion_id"

abbrev pub format_complex : String
format_complex = "complex"

abbrev pub invalid_format : String
invalid_format = "invalid_format"

abbrev pub missing_value : String
missing_value = "missing_value"

abbrev pub invalid_value : String
invalid_value = "invalid_value"

abbrev pub missing_component : String
missing_component = "missing_component"

pub record SubjectError : Type 0 where
  pub code : String
  pub message : String
  pub field : String

unfoldable pub new_error : (code message field : String) → SubjectError
new_error code message field = record { code = code; message = message; field = field }

-- `Error()`
unfoldable pub error_text : SubjectError → String
error_text e =
    if e.field == ""
    then e.code ++ (": " ++ e.message)
    else e.code ++ (": " ++ (e.message ++ (" (" ++ (e.field ++ ")"))))

-- What reading a subject returns: an error of `encoding/json`, one of the package, or one of these
-- behind the words that `fmt.Errorf` puts before it.
pub data ParseError : Type 0 where
  malformed : ParseError
  refused : SubjectError → ParseError
  within : (words : String) → ParseError → ParseError

-- `mail.ParseAddress` and `url.Parse` of the standard library: whether they take a text
pub record Grammars : Type 0 where
  pub is_address : String → Bool
  pub is_url : String → Bool

-- raw[key], with "" for a key that is not there
unfoldable pub text_at : String → Dict String → String
unfolding lookup
text_at key raw = elim (lookup key raw) [ some s ↦ s | none ↦ "" ]

-- `json.Unmarshal(data, &raw)` and the error around it
unfoldable pub raw_subject : Json → Result ParseError (Dict String)
unfolding decode_map
raw_subject doc = elim (decode_map read_entry doc) [
  | ok raw ↦ ok raw
  | err e ↦ err (within "failed to parse subject" malformed)
]

abbrev pub wrong_format : String → ParseError
wrong_format what =
    refused (new_error invalid_format ("invalid format for " ++ (what ++ " subject")) "format")
