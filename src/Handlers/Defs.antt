-- ===== src/Handlers/Defs.antt =====
-- Requests and responses of ssf-hub/internal/handlers/handlers.go, the helpers, and the handlers that
-- change nothing.
use Prim.Native.String.{◌++◌}
use caep_dev.Base.{
  ℕ, String, Bool, ◌||◌, List, [], ◌∷◌, Option, none, some, ◌==◌, if◌then◌else◌, Result,
}
use caep_dev.Base.Dict.{Dict, lookup}
use caep_dev.Models.Receiver.{Receiver}
use caep_dev.Registry.{MemoryRegistry, count}
use caep_dev.Broker.{ReceiverError}

-- What the handlers read of `http.Request`: the first value of each header and of each query
-- parameter, the value of "id" in the path, and what reading the body gives. `timestamp` is the text
-- of the context's value "timestamp".
pub record Request : Type 0 where
  pub headers : Dict String
  pub query : Dict String
  pub path_id : String
  pub body : Result String String
  pub host : String
  pub is_tls : Bool
  pub timestamp : String

-- The two environment variables; one that is not set is "".
pub record Environment : Type 0 where
  pub dev_debug : String
  pub dev_default_transmitter : String

pub record Configuration : Type 0 where
  pub issuer : String
  pub delivery_methods_supported : List String
  pub critical_subject_members : List String
  pub events_supported : List String
  pub events_delivery_endpoint : String
  pub management_endpoint : String
  pub registration_endpoint : String
  pub subject_formats_supported : List String
  pub specification_version : String
  pub vendor : String
  pub version : String

-- The data that a handler writes.
pub data Body : Type 0 where
  error : (message : String) (status : ℕ) → Body
  failure : (words : String) → ReceiverError → (status : ℕ) → Body
  accepted : (transmitter_id timestamp : String) → Body
  configuration : Configuration → Body
  healthy : (timestamp version : String) → Body
  ready : (receiver_count : ℕ) (timestamp : String) → Body
  metrics : String → Body
  stored : Option Receiver → Body
  listed : List Receiver → (total : ℕ) (status event_type : String) → Body
  found : Receiver → Option (Dict String) → Body
  removed : (receiver_id : String) → Body

pub record Response : Type 0 where
  pub status : ℕ
  pub body : Body

unfoldable pub write_json_response : ℕ → Body → Response
write_json_response status body = record { status = status; body = body }

unfoldable pub write_error_response : ℕ → String → Response
unfolding write_json_response
write_error_response status message = write_json_response status (error message status)

-- `Get`: "" for a name that is missing
unfoldable pub value_of : String → Dict String → String
unfolding lookup
value_of name values = elim (lookup name values) [ none ↦ "" | some v ↦ v ]

unfoldable pub is_dev_mode : Environment → Request → Bool
unfolding value_of
is_dev_mode env r = env.dev_debug == "true" || value_of "X-Dev-Mode" r.headers == "true"

-- the first text that is not empty
abbrev pub or_next : String → String → String
or_next s next = if s == "" then next else s

unfoldable pub get_transmitter_id : Environment → Request → String
unfolding is_dev_mode value_of
get_transmitter_id env r =
    if is_dev_mode env r
    then or_next (value_of "X-Transmitter-ID" r.headers)
        (or_next env.dev_default_transmitter "dev-transmitter")
    else or_next (value_of "X-Transmitter-ID" r.headers) (
        if value_of "Authorization" r.headers == ""
        then or_next (value_of "transmitter_id" r.query) "default-transmitter"
        else "jwt-transmitter")

unfoldable pub get_base_url : Request → String
get_base_url r = (if r.is_tls then "https" else "http") ++ ("://" ++ r.host)

unfoldable pub handle_ssf_configuration : Request → Response
unfolding get_base_url write_json_response
handle_ssf_configuration r =
    let base_url = get_base_url r in
    write_json_response 200 (
      configuration (record {
        issuer = base_url;
        delivery_methods_supported = "push" ∷ "pull" ∷ "urn:google:cloud:pubsub" ∷ [];
        critical_subject_members = "sub" ∷ "email" ∷ "phone_number" ∷ [];
        events_supported =
            "https://schemas.openid.net/secevent/caep/event-type/session-revoked"
            ∷ "https://schemas.openid.net/secevent/caep/event-type/assurance-level-change"
            ∷ "https://schemas.openid.net/secevent/caep/event-type/credential-change"
            ∷ "https://schemas.openid.net/secevent/caep/event-type/device-compliance-change"
            ∷ "https://schemas.openid.net/secevent/ssf/event-type/verification" ∷ [];
        events_delivery_endpoint = base_url ++ "/events";
        management_endpoint = base_url ++ "/api/v1";
        registration_endpoint = base_url ++ "/api/v1/receivers";
        subject_formats_supported =
            "email" ∷ "phone_number" ∷ "iss_sub" ∷ "opaque" ∷ "did" ∷ "uri" ∷ [];
        specification_version = "1.0";
        vendor = "SSF Hub Service";
        version = "1.0.0";
      }))

unfoldable pub handle_health : Response
unfolding write_json_response
handle_health = write_json_response 200 (healthy "1234567890" "1.0.0")

unfoldable pub handle_ready : MemoryRegistry → Response
unfolding count write_json_response
handle_ready reg = write_json_response 200 (ready (count reg) "1234567890")
