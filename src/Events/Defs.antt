-- ===== src/Events/Defs.antt =====
-- The errors of secevent/pkg/event/errors.go, and the event types of pkg/schemes.
use Prim.Native.String.{◌++◌}
use caep_dev.Base.{String, Bool, ◌||◌, Option, none, some, ◌==◌, if◌then◌else◌, Result, ok, err}
use caep_dev.Json.Decode.{Mismatch, mismatch}

abbrev pub invalid_format : String
invalid_format = "invalid_format"

abbrev pub missing_value : String
missing_value = "missing_value"

abbrev pub invalid_value : String
invalid_value = "invalid_value"

abbrev pub invalid_event_type : String
invalid_event_type = "invalid_event_type"

abbrev pub missing_field : String
missing_field = "missing_field"

abbrev pub parse_error : String
parse_error = "parse_error"

-- The details are a text: none, that of an error of `encoding/json`, or that of another error.
mutual
  pub data EventError : Type 0 where
    event_error : (code message field : String) → Details → EventError

  pub data Details : Type 0 where
    blank : Details
    of_json : Details
    of_error : EventError → Details

unfoldable pub new_error : (code message field : String) → Details → EventError
new_error code message field details = event_error code message field details

-- the four forms of `Error()`, on the text of the details
abbrev error_line : (code message field details : String) → String
error_line code message field details =
    code
    ++ (": "
        ++ (message
            ++ (if field == ""
                then (if details == "" then "" else " (details: " ++ (details ++ ")"))
                else if details == ""
                then " (field: " ++ (field ++ ")")
                else " (field: " ++ (field ++ (", details: " ++ (details ++ ")"))))))

-- `Error()`, where `json` is the text of an error of `encoding/json`
unfoldable mutual
  pub error_text : (json : String) → EventError → String
  error_text json (event_error code message field details) =
      error_line code message field (details_text json details)

  pub details_text : (json : String) → Details → String
  details_text json blank = ""
  details_text json of_json = json
  details_text json (of_error e) = error_text json e

abbrev pub token_claims_change : String
token_claims_change = "https://schemas.openid.net/secevent/caep/event-type/token-claims-change"

abbrev pub session_revoked : String
session_revoked = "https://schemas.openid.net/secevent/caep/event-type/session-revoked"

abbrev pub credential_change : String
credential_change = "https://schemas.openid.net/secevent/caep/event-type/credential-change"

abbrev pub assurance_level_change : String
assurance_level_change =
    "https://schemas.openid.net/secevent/caep/event-type/assurance-level-change"

abbrev pub device_compliance_change : String
device_compliance_change =
    "https://schemas.openid.net/secevent/caep/event-type/device-compliance-change"

unfoldable pub is_caep_event_type : String → Bool
is_caep_event_type t =
    t == token_claims_change
    || (t == session_revoked
        || (t == credential_change
            || (t == assurance_level_change || t == device_compliance_change)))

abbrev pub verification : String
verification = "https://schemas.openid.net/secevent/ssf/event-type/verification"

abbrev pub stream_update : String
stream_update = "https://schemas.openid.net/secevent/ssf/event-type/stream-updated"

-- an error of `encoding/json` as the details of an error of the package
abbrev pub with_details : {A : Type 0} → Result Mismatch A → Result Details A
with_details (ok a) = ok a
with_details (err mismatch) = err of_json

-- what an UnmarshalJSON and a parser return for an error below: its text becomes the details
abbrev pub parsed_with : {A : Type 0} → (words : String) → Result Details A → Result EventError A
parsed_with words (ok a) = ok a
parsed_with words (err d) = err (new_error parse_error words "" d)

abbrev pub as_details : {A : Type 0} → Result EventError A → Result Details A
as_details (ok a) = ok a
as_details (err e) = err (of_error e)

-- the event, if its Validate passes
abbrev pub checked : {A : Type 0} → Option EventError → A → Result EventError A
checked none a = ok a
checked (some e) a = err e
