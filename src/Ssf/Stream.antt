-- ===== src/Ssf/Stream.antt =====
-- ssfreceiver/stream and ssfreceiver/options: a stream, and the operations that only send a request.
use Prim.Native.String
use caep_dev.Base.{
  ℕ, String, Bool, false, not, Option, none, some, List, [], ◌∷◌, ◌++◌, if◌then◌else◌, Result, ok,
  err, Outcome, returns, panics,
}
use caep_dev.Base.Dict.{Dict, lookup, put}
use caep_dev.Base.Int.{ℤ, pos}
use caep_dev.Ssf.Types.{
  Url, SsfError, StreamConfiguration, StreamStatusRequest, validate_status_request,
}
use caep_dev.Ssf.Retry.Defs.{
  eqℤ, Floats, RetryError, Step, close, Round, RetryConfig, Returned, do_retry,
}

pub data RequestBody : Type 0 where
  no_body : RequestBody
  status_body : StreamStatusRequest → RequestBody
  verification_body : (stream_id state : String) → RequestBody

-- A request as the operations build it: `headers` are the calls of `Header.Set`, in order.
pub record Outgoing : Type 0 where
  pub method : String
  pub url : String
  pub headers : List (String × String)
  pub body : RequestBody

-- `AddAuth`
abbrev pub Authorizer : Type 0
Authorizer = Outgoing → Result String Outgoing

pub record OperationOptions : Type 0 where
  pub auth : Option Authorizer
  pub max_events : ℤ
  pub auto_ack : Bool
  pub ack_jtis : List String
  pub state : String
  pub subject_verified : Bool
  pub headers : Dict String
  pub status_reason : String

unfoldable pub default_options : OperationOptions
default_options = record {
  auth = none;
  max_events = pos 100;
  auto_ack = false;
  ack_jtis = [];
  state = "";
  subject_verified = false;
  headers = [];
  status_reason = "";
}

abbrev applied : List (OperationOptions → OperationOptions) → OperationOptions → OperationOptions
applied [] o = o
applied (f ∷ fs) o = applied fs (f o)

unfoldable pub apply : List (OperationOptions → OperationOptions) → OperationOptions
unfolding default_options
apply opts = applied opts default_options

-- The endpoints of the transmitter that the operations use.
pub record TransmitterMetadata : Type 0 where
  pub configuration_endpoint : Option Url
  pub status_endpoint : Option Url
  pub verification_endpoint : Option Url

pub record Stream (F : Type 0) : Type 0 where
  pub stream_id : String
  pub metadata : TransmitterMetadata
  pub config : StreamConfiguration
  pub authorizer : Authorizer
  pub retry_config : RetryConfig F
  pub endpoint_headers : Dict (Dict String)

-- What fails in an operation: its own words, and what it wraps.
pub data StreamError : Type 0 where
  refused : SsfError → StreamError
  failed : (words : String) → String → StreamError
  retry_failed : (words : String) → RetryError → StreamError
  request_failed : (words : String) (status : ℤ) (body : String) → StreamError

abbrev pub Sent : Type 0
Sent = Outcome (Option StreamError × List Step)

-- `headers[k] = v` for every `k` and `v` of a map
unfoldable pub merge : Dict String → (headers : Dict String) → Dict String
unfolding put
merge [] headers = headers
merge ((k, v) ∷ m) headers = merge m (put k v headers)

abbrev own_headers : Option (Dict String) → Dict String
unfolding merge
own_headers none = []
own_headers (some h) = merge h []

module _ {F : Type 0} where
  unfoldable pub get_authorizer : Stream F → OperationOptions → Authorizer
  get_authorizer s opts = elim opts.auth [ none ↦ s.authorizer | some a ↦ a ]

  unfoldable pub get_endpoint_headers : Stream F → (endpoint : String) → Dict String → Dict String
  unfolding lookup merge
  get_endpoint_headers s endpoint operation_headers =
      merge operation_headers (own_headers (lookup endpoint s.endpoint_headers))

  -- After `retry.Do`: the error, or the test of the status; a nil response has no body.
  unfoldable pub checked : (words failure : String) (expected : ℤ) → Returned F → Sent
  checked words failure expected (resp, some e, l) = returns (some (retry_failed words e), l.steps)
  checked words failure expected (none, none, l) = panics
  checked words failure expected (some r, none, l) = returns (
    (if not (eqℤ r.status_code expected)
        then some (request_failed failure r.status_code r.body)
        else none),
    l.steps ++ close r ∷ [],
  )

module _ {F : Type 0} (floats : Floats F) where
  abbrev pub zero_policy : RetryConfig F
  zero_policy = record {
    max_retries = pos 0;
    initial_backoff = pos 0;
    max_backoff = pos 0;
    backoff_multiplier = floats.zero_value;
    retryable_status = none;
  }

  -- The policy is an argument that is not stored.
  unfoldable pub new_stream :
      (stream_id : String)
      → TransmitterMetadata
      → StreamConfiguration
      → Authorizer
      → RetryConfig F
      → Dict (Dict String)
      → Stream F
  new_stream stream_id metadata config authorizer retry_config endpoint_headers = record {
    stream_id = stream_id;
    metadata = metadata;
    config = config;
    authorizer = authorizer;
    retry_config = zero_policy;
    endpoint_headers = endpoint_headers;
  }

  -- `new_request` is the error of `http.NewRequestWithContext` for a URL; `env` is what the rounds of
  -- a request meet; `show` prints a status code.
  module _ (show : ℤ → String) (new_request : String → Option String)
      (env : Outgoing → ℕ → Round F) where
    abbrev authorized :
        Stream F → (words failure : String) (expected : ℤ) → Result String Outgoing → Sent
    unfolding do_retry checked
    authorized s words failure expected (err e) =
        returns (some (failed "failed to add authorization" e), [])
    authorized s words failure expected (ok q) =
        checked words failure expected (do_retry floats show s.retry_config (env q))

    abbrev created :
        Stream F
        → OperationOptions
        → (words failure : String) (expected : ℤ) → Outgoing
        → Option String
        → Sent
    unfolding do_retry checked get_authorizer
    created s opts words failure expected q (some e) =
        returns (some (failed "failed to create request" e), [])
    created s opts words failure expected q none =
        authorized s words failure expected (get_authorizer s opts q)

    -- What the operations have in common, from the request on.
    unfoldable pub send :
        Stream F → OperationOptions → (words failure : String) (expected : ℤ) → Outgoing → Sent
    unfolding do_retry checked get_authorizer
    send s opts words failure expected q =
        created s opts words failure expected q (new_request q.url)

    -- `String()` of the URL of an endpoint; of a nil one it panics
    abbrev pub at_endpoint : Option Url → (String → Sent) → Sent
    at_endpoint none f = panics
    at_endpoint (some u) f = f u.text

    abbrev json_headers : List (String × String)
    json_headers = ("Content-Type", "application/json") ∷ []

    abbrev validated : Option SsfError → Sent → Sent
    validated none next = next
    validated (some e) next = returns (some (refused e), [])

    unfoldable pub update_status :
        Stream F → (status : String) → List (OperationOptions → OperationOptions) → Sent
    unfolding apply validate_status_request get_endpoint_headers send
    update_status s status opts =
        let o = apply opts in
        let request : StreamStatusRequest = record {
          stream_id = s.stream_id;
          status = status;
          reason = o.status_reason;
        } in
        validated (validate_status_request request) (
          at_endpoint s.metadata.status_endpoint (λ url.
            send s o "failed to update status" "update-status request failed" (pos 200) (record {
              method = "POST";
              url = url;
              headers = json_headers ++ get_endpoint_headers s "status" o.headers;
              body = status_body request;
            })))

    unfoldable pub pause : Stream F → List (OperationOptions → OperationOptions) → Sent
    unfolding update_status
    pause s opts = update_status s "paused" opts

    unfoldable pub resume : Stream F → List (OperationOptions → OperationOptions) → Sent
    unfolding update_status
    resume s opts = update_status s "enabled" opts

    unfoldable pub disable : Stream F → List (OperationOptions → OperationOptions) → Sent
    unfolding update_status
    disable s opts = update_status s "disabled" opts

    unfoldable pub verify : Stream F → List (OperationOptions → OperationOptions) → Sent
    unfolding apply get_endpoint_headers send
    verify s opts =
        let o = apply opts in
        at_endpoint s.metadata.verification_endpoint (λ url.
          send s o "failed to verify stream" "verification-event-request request failed" (pos 200)
            (record {
              method = "POST";
              url = url;
              headers = json_headers ++ get_endpoint_headers s "verification" o.headers;
              body = verification_body s.stream_id o.state;
            }))

    unfoldable pub delete : Stream F → List (OperationOptions → OperationOptions) → Sent
    unfolding apply get_endpoint_headers send
    delete s opts =
        let o = apply opts in
        at_endpoint s.metadata.configuration_endpoint (λ url.
          send s o "failed to delete stream" "stream-deletion request failed" (pos 204) (record {
            method = "DELETE";
            url = String.◌++◌ url (String.◌++◌ "?stream_id=" s.stream_id);
            headers = get_endpoint_headers s "configuration" o.headers;
            body = no_body;
          }))
