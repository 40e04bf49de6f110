-- ===== src/Distributor/Defs.antt =====
-- The state and the functions of ssf-hub/internal/distributor/distributor.go.
use Prim.Native.String
use caep_dev.Base.{
  ℕ, String, Bool, false, ◌&&◌, ◌||◌, List, [], ◌∷◌, Option, none, some, ◌==◌, if◌then◌else◌, leb,
  ltb, contains, Outcome, returns, ◌>>=◌, Result, ok, err,
}
use caep_dev.Base.Int.{ℤ, pos, is_zero}
use caep_dev.Base.Dict.{Dict, put}
use caep_dev.Models.Receiver.{
  Duration, AuthConfig, Receiver, webhook, auth_none, auth_bearer, auth_oauth2, auth_hmac, second,
}
use caep_dev.Models.Event.{SecurityEvent}
use caep_dev.Models.Message.{InternalMessage}
use caep_dev.Registry.{MemoryRegistry, Error, get, matches_filters}

-- `multiplier` is a float64, by its bits
pub record RetryPolicy : Type 0 where
  pub max_retries : ℤ
  pub initial_interval : Duration
  pub max_interval : Duration
  pub multiplier : ℕ

-- int64 counters and an int64 duration, by their bits
pub record DistributorMetrics : Type 0 where
  pub deliveries_attempted : ℕ
  pub deliveries_succeeded : ℕ
  pub deliveries_failed : ℕ
  pub delivery_duration : ℕ

pub record Config : Type 0 where
  pub http_timeout : Duration
  pub retry_policy : Option RetryPolicy

-- The registry is shared with the broker, and is an argument of what uses it.
pub record EventDistributor : Type 0 where
  pub http_timeout : Duration
  pub retry_policy : RetryPolicy
  pub metrics : DistributorMetrics

abbrev pub default_policy : RetryPolicy
default_policy = record {
  max_retries = pos 3;
  initial_interval = pos second;
  max_interval = pos 60_000_000_000;
  multiplier = 0x4000_0000_0000_0000;
}

abbrev or_default : Option RetryPolicy → RetryPolicy
or_default none = default_policy
or_default (some p) = p

unfoldable pub new_event_distributor : Config → EventDistributor
new_event_distributor c = record {
  http_timeout = if is_zero c.http_timeout then pos 30_000_000_000 else c.http_timeout;
  retry_policy = or_default c.retry_policy;
  metrics = record {
    deliveries_attempted = 0;
    deliveries_succeeded = 0;
    deliveries_failed = 0;
    delivery_duration = 0;
  };
}

-- the first loop of `shouldDeliverToReceiver`
abbrev pub type_matched : List String → String → Bool
type_matched types t = contains types "*" || contains types t

-- The second loop is the one of the registry's `matchesFilters`.
unfoldable pub should_deliver : Receiver → SecurityEvent → Outcome Bool
unfolding contains matches_filters
should_deliver r e =
    if type_matched r.event_types e.type then matches_filters e r.filters else returns false

-- One round of the loop of `DistributeToReceivers`, for what the registry has under the id; the
-- result holds the receivers to which a delivery is started.
unfoldable pub dispatch :
    SecurityEvent → Result Error Receiver → Outcome (List Receiver) → Outcome (List Receiver)
unfolding should_deliver
dispatch e (err x) rest = rest
dispatch e (ok r) rest = do
  wanted ← should_deliver r e
  started ← rest
  returns (if wanted && (r.delivery.method == webhook) then r ∷ started else started)

unfoldable pub dispatch_all : MemoryRegistry → SecurityEvent → List String → Outcome (List Receiver)
unfolding dispatch get
dispatch_all reg e [] = returns []
dispatch_all reg e (id ∷ ids) = dispatch e (get id reg) (dispatch_all reg e ids)

unfoldable pub distribute_to_receivers : MemoryRegistry → InternalMessage → Outcome (List Receiver)
unfolding dispatch_all
distribute_to_receivers reg msg = dispatch_all reg msg.event msg.routing.target_receivers

-- An HTTP request: its address, its body and its headers.
pub record Request : Type 0 where
  pub url : String
  pub body : String
  pub headers : Dict String

abbrev set_header : String → String → Request → Request
set_header k v q = record q { headers = put k v q.headers }

unfoldable pub add_authentication : Request → AuthConfig → Result String Request
unfolding put
add_authentication q a =
    if a.type == auth_none
    then ok q
    else if a.type == auth_bearer
    then (if a.token == ""
        then err "bearer token is required but not provided"
        else ok (set_header "Authorization" (String.◌++◌ "Bearer " a.token) q))
    else if a.type == auth_hmac
    then (if a.secret == ""
        then err "HMAC secret is required but not provided"
        else err "HMAC authentication not yet implemented")
    else if a.type == auth_oauth2
    then err "OAuth2 authentication not yet implemented"
    else err (String.◌++◌ "unsupported authentication type: " a.type)

-- What the network answers to a request: a status and the text read of the body, or an error.
pub data Answer : Type 0 where
  response : (status_code : ℕ) (body : String) → Answer
  failed : String → Answer

-- What the standard library does for a delivery: `json.Marshal` of the event, and the error of
-- `http.NewRequestWithContext` for an address.
pub record Http : Type 0 where
  pub marshal : SecurityEvent → Result String String
  pub new_request : (url : String) (body : String) → Result String Request

-- the results of `performWebhookDelivery`
pub record WebhookResult : Type 0 where
  pub success : Bool
  pub status_code : ℕ
  pub response_body : String
  pub error : Option String

abbrev failure : String → String → WebhookResult
failure what e = record {
  success = false;
  status_code = 0;
  response_body = "";
  error = some (String.◌++◌ what e);
}

abbrev with_answer : Answer → WebhookResult
with_answer (failed e) = failure "HTTP request failed: " e
with_answer (response code body) = record {
  success = leb 200 code && ltb code 300;
  status_code = code;
  response_body = body;
  error = none;
}

abbrev pub with_headers : SecurityEvent → Request → Request
with_headers e q = set_header "X-SSF-Event-Type" e.type (
    set_header "X-SSF-Event-ID" e.id
      (set_header "User-Agent" "SSF-Hub/1.0" (set_header "Content-Type" "application/json" q)))

-- The request that is sent, if one is; and the result, for what the network answers to it.
abbrev pub sent : Answer → Result String Request → Option Request × WebhookResult
sent a (err x) = (none, failure "failed to add authentication: " x)
sent a (ok q) = (some q, with_answer a)

abbrev pub requested :
    Receiver → SecurityEvent → Answer → Result String Request → Option Request × WebhookResult
requested r e a (err x) = (none, failure "failed to create request: " x)
requested r e a (ok q) = sent a (add_authentication (with_headers e q) r.auth)

abbrev pub marshalled :
    Http → Receiver → SecurityEvent → Answer → Result String String → Option Request × WebhookResult
marshalled http r e a (err x) = (none, failure "failed to marshal event: " x)
marshalled http r e a (ok body) = requested r e a (http.new_request r.webhook_url body)

unfoldable pub perform_webhook_delivery :
    Http → Receiver → SecurityEvent → Answer → Option Request × WebhookResult
unfolding add_authentication
perform_webhook_delivery http r e a = marshalled http r e a (http.marshal e)
