-- ===== src/Models/Receiver/Defs.antt =====
-- The types of ssf-hub/pkg/models/receiver.go, and its functions.
use caep_dev.Base.{ℕ, String, Bool, ◌||◌, List, [], Option, none, some, eqb, ◌==◌, if◌then◌else◌}
use caep_dev.Base.Int.{ℤ, pos, is_zero}
use caep_dev.Base.Dict.{Dict}
use caep_dev.Models.Value.{Value, float_is_zero}

-- nanoseconds since the zero `time.Time`
abbrev pub Time : Type 0
Time = ℕ

-- `time.Duration`, in nanoseconds
abbrev pub Duration : Type 0
Duration = ℤ

abbrev pub second : ℕ
second = 1_000_000_000

pub record DeliveryConfig : Type 0 where
  pub method : String
  pub batch_size : ℤ
  pub timeout : Duration

pub record AuthConfig : Type 0 where
  pub type : String
  pub token : String
  pub client_id : String
  pub client_secret : String
  pub token_url : String
  pub scopes : List String
  pub secret : String
  pub algorithm : String

pub record EventFilter : Type 0 where
  pub field : String
  pub operator : String
  pub value : Value

-- `multiplier` is a float64, by its bits
pub record RetryConfig : Type 0 where
  pub max_retries : ℤ
  pub initial_interval : Duration
  pub max_interval : Duration
  pub multiplier : ℕ
  pub enable_jitter : Bool

-- The three counters are int64, by their bits.
pub record ReceiverMetadata : Type 0 where
  pub created_at : Time
  pub updated_at : Time
  pub last_event_at : Time
  pub events_received : ℕ
  pub events_delivered : ℕ
  pub events_failed : ℕ
  pub last_delivery_error : String
  pub tags : Option (Dict String)

pub record Receiver : Type 0 where
  pub id : String
  pub name : String
  pub description : String
  pub webhook_url : String
  pub event_types : List String
  pub delivery : DeliveryConfig
  pub auth : AuthConfig
  pub filters : List EventFilter
  pub retry : RetryConfig
  pub status : String
  pub metadata : ReceiverMetadata

pub record ReceiverRequest : Type 0 where
  pub id : String
  pub name : String
  pub description : String
  pub webhook_url : String
  pub event_types : List String
  pub delivery : DeliveryConfig
  pub auth : AuthConfig
  pub filters : List EventFilter
  pub retry : RetryConfig
  pub tags : Option (Dict String)

-- The string constants of the enums.
abbrev pub webhook : String
webhook = "webhook"

abbrev pub auth_none : String
auth_none = "none"

abbrev pub auth_bearer : String
auth_bearer = "bearer"

abbrev pub auth_oauth2 : String
auth_oauth2 = "oauth2"

abbrev pub auth_hmac : String
auth_hmac = "hmac"

abbrev pub active : String
active = "active"

pub data AuthError : Type 0 where
  token_required oauth2_required secret_required : AuthError
  invalid_auth_type : String → AuthError

pub data ValidationError : Type 0 where
  id_required event_types_required webhook_url_required webhook_url_invalid : ValidationError
  invalid_method : String → ValidationError
  auth_invalid : AuthError → ValidationError

-- `AuthConfig.Validate` has a pointer receiver and fills in the algorithm: it gives the new value.
unfoldable pub validate_auth : AuthConfig → AuthConfig × Option AuthError
validate_auth a =
    if a.type == auth_none || a.type == ""
    then (a, none)
    else if a.type == auth_bearer
    then (a, if a.token == "" then some token_required else none)
    else if a.type == auth_oauth2
    then (
      a,
      if a.client_id == "" || a.client_secret == "" || a.token_url == ""
          then some oauth2_required
          else none,
    )
    else if a.type == auth_hmac
    then (if a.secret == ""
        then (a, some secret_required)
        else (if a.algorithm == "" then record a { algorithm = "sha256" } else a, none))
    else (a, some (invalid_auth_type a.type))

abbrev is_empty {ℓ} : {A : Type ℓ} → List A → Bool
is_empty [] = Bool.true
is_empty _ = Bool.false

abbrev auth_error : Option AuthError → Option ValidationError
auth_error none = none
auth_error (some e) = some (auth_invalid e)

-- `parse_url` says whether `url.Parse` accepts a text.
unfoldable pub validate : (parse_url : String → Bool) → Receiver → Receiver × Option ValidationError
validate parse_url r =
    if r.id == ""
    then (r, some id_required)
    else if is_empty r.event_types
    then (r, some event_types_required)
    else if r.delivery.method == webhook
    then (if r.webhook_url == ""
        then (r, some webhook_url_required)
        else if parse_url r.webhook_url
        then (let (a, e) = validate_auth r.auth in (record r { auth = a }, auth_error e))
        else (r, some webhook_url_invalid))
    else (r, some (invalid_method r.delivery.method))

unfoldable pub default_delivery : DeliveryConfig → DeliveryConfig
default_delivery d = record {
  method = if d.method == "" then webhook else d.method;
  batch_size = if is_zero d.batch_size then pos 1 else d.batch_size;
  timeout = if is_zero d.timeout then pos 30_000_000_000 else d.timeout;
}

unfoldable pub default_retry : RetryConfig → RetryConfig
default_retry t = record {
  max_retries = if is_zero t.max_retries then pos 3 else t.max_retries;
  initial_interval = if is_zero t.initial_interval then pos second else t.initial_interval;
  max_interval = if is_zero t.max_interval then pos 60_000_000_000 else t.max_interval;
  multiplier = if float_is_zero t.multiplier then 0x4000_0000_0000_0000 else t.multiplier;
  enable_jitter = t.enable_jitter;
}

abbrev made : Option (Dict String) → Option (Dict String)
made none = some []
made (some m) = some m

-- `now` is the reading of the clock.
unfoldable pub set_defaults : (now : Time) → Receiver → Receiver
unfolding default_delivery default_retry
set_defaults now r = record r {
  status = if r.status == "" then active else r.status;
  delivery = default_delivery r.delivery;
  auth = record r.auth { type = if r.auth.type == "" then auth_none else r.auth.type };
  retry = default_retry r.retry;
  metadata = record r.metadata {
    created_at = if eqb r.metadata.created_at 0 then now else r.metadata.created_at;
    updated_at = now;
    tags = made r.metadata.tags;
  };
}

-- The composite literal of `ToReceiver`: what it leaves out has its zero value.
abbrev from_request : ReceiverRequest → Receiver
from_request q = record {
  id = q.id;
  name = q.name;
  description = q.description;
  webhook_url = q.webhook_url;
  event_types = q.event_types;
  delivery = q.delivery;
  auth = q.auth;
  filters = q.filters;
  retry = q.retry;
  status = "";
  metadata = record {
    created_at = 0;
    updated_at = 0;
    last_event_at = 0;
    events_received = 0;
    events_delivered = 0;
    events_failed = 0;
    last_delivery_error = "";
    tags = q.tags;
  };
}

unfoldable pub to_receiver : (now : Time) → ReceiverRequest → Receiver
unfolding set_defaults
to_receiver now q = set_defaults now (from_request q)
