-- ===== src/Tests/Data.antt =====
-- Concrete receivers, events, messages and clients for the tests.
use caep_dev.Base.{
  ℕ, ◌+◌, ◌-◌, ◌*◌, if◌then◌else◌, String, Bool, true, false, not, ◌==◌, [], ◌∷◌, none, some,
  Result, ok, err,
}
use caep_dev.Base.Int.{pos}
use caep_dev.Models.Value.{str}
use caep_dev.Models.Receiver.{
  Duration, Receiver, ReceiverRequest, EventFilter, AuthConfig, webhook, active, second,
}
use caep_dev.Models.Event.{SecurityEvent, pending}
use caep_dev.Models.Message.{InternalMessage, Stamp}
use caep_dev.Registry.{MemoryRegistry}
use caep_dev.Distributor.{Http, Attempt, Run, response, default_policy}
use caep_dev.PubSub.Mock.{MockClient, MockTopic, MockSubscription}
use caep_dev.HubReceiver.{HubReceiver, Hub, Moment}
use caep_dev.Broker.{Readings, SecEvent, no_payload}

abbrev pub accepts : String → Bool
accepts u = not (u == ":")

abbrev pub from_example : EventFilter
from_example = record { field = "source"; operator = "contains"; value = str ".example" }

abbrev pub no_auth : AuthConfig
no_auth = record {
  type = "none";
  token = "";
  client_id = "";
  client_secret = "";
  token_url = "";
  scopes = [];
  secret = "";
  algorithm = "";
}

abbrev pub alpha : Receiver
alpha = record {
  id = "alpha";
  name = "Alpha";
  description = "";
  webhook_url = "https://alpha.example/hook";
  event_types = "session-revoked" ∷ [];
  delivery = record { method = webhook; batch_size = pos 1; timeout = pos 30_000_000_000 };
  auth = no_auth;
  filters = from_example ∷ [];
  retry = record {
    max_retries = pos 3;
    initial_interval = pos second;
    max_interval = pos 60_000_000_000;
    multiplier = 0x4000_0000_0000_0000;
    enable_jitter = false;
  };
  status = active;
  metadata = record {
    created_at = 5;
    updated_at = 5;
    last_event_at = 0;
    events_received = 0;
    events_delivered = 0;
    events_failed = 0;
    last_delivery_error = "";
    tags = some [];
  };
}

abbrev pub beta : Receiver
beta = record alpha { id = "beta"; event_types = "*" ∷ [] }

abbrev pub request : ReceiverRequest
request = record {
  id = "alpha";
  name = "Alpha";
  description = "";
  webhook_url = "https://alpha.example/hook";
  event_types = "credential-change" ∷ [];
  delivery = record { method = ""; batch_size = pos 0; timeout = pos 0 };
  auth = record no_auth { type = "" };
  filters = [];
  retry = record alpha.retry { max_retries = pos 0 };
  tags = none;
}

abbrev pub event : SecurityEvent
event = record {
  id = "e1";
  type = "session-revoked";
  source = "https://idp.example";
  spec_version = "1.0";
  time = second;
  subject = record { format = "email"; identifier = ""; claims = ("format", str "email") ∷ [] };
  event_data = [];
  extensions = [];
  metadata = record {
    received_at = 7;
    processed_at = 8;
    transmitter_id = "idp";
    raw_set = "token";
    processing_id = "p1";
    tags = [];
  };
}

abbrev pub two : MemoryRegistry
two = record { receivers = ("alpha", alpha) ∷ ("beta", beta) ∷ [] }

abbrev pub stamp : Stamp
stamp = record { message_id = "msg_1"; timestamp = 9; created_at = 9; updated_at = 9 }

abbrev pub message : InternalMessage
message = record {
  message_id = "msg_1";
  message_type = "security_event";
  version = "1.0";
  timestamp = 9;
  event = event;
  routing = record {
    target_receivers = "alpha" ∷ "beta" ∷ "gamma" ∷ [];
    event_type = "session-revoked";
    subject = "";
    priority = pos 0;
    ttl = pos 100;
    tags = [];
  };
  metadata = record {
    hub_instance_id = "hub-1";
    processing_id = "p1";
    retry_count = pos 0;
    original_topic = "";
    created_at = 9;
    updated_at = 9;
  };
}

abbrev pub scale : Duration → ℕ → Duration
scale d m = pos (2 * second)

abbrev pub http : Http
http = record {
  marshal = λ e. ok "{}";
  new_request = λ u b. ok (record { url = u; body = b; headers = [] });
}

-- The first attempt fails, the later ones succeed.
abbrev pub attempt_at : ℕ → Attempt
attempt_at n = record {
  answer = response (200 + 300 * (2 - n)) "done";
  elapsed = 4;
  delivered_at = 20;
  registry_time = 21;
  retry_time = 22;
  cancelled = false;
}

abbrev pub fresh : Run
fresh = record {
  registry = two;
  metrics = record {
    deliveries_attempted = 0;
    deliveries_succeeded = 0;
    deliveries_failed = 0;
    delivery_duration = 0;
  };
  delivery = record {
    delivery_id = "delivery_1";
    receiver_id = "alpha";
    event_id = "e1";
    attempt = 0;
    status = pending;
    delivered_at = 0;
    error_message = "";
    response_code = 0;
    response_body = "";
    duration = pos 0;
    next_retry_at = 0;
    metadata = [];
  };
  effects = [];
}

abbrev pub topic : MockTopic
topic = record { name = "ssf-hub-events"; messages = message ∷ []; created = 1 }

abbrev pub subscription : MockSubscription
subscription = record {
  name = "ssf-hub-subscription-hub-1";
  topic_name = "ssf-hub-events";
  messages = [];
  created = 1;
  ack_deadline = pos 60_000_000_000;
}

abbrev pub client : MockClient
client = record {
  project_id = "project";
  topic_name = "ssf-hub-events";
  hub_instance_id = "hub-1";
  topics = ("ssf-hub-events", topic) ∷ [];
  subscriptions = ("ssf-hub-subscription-hub-1", subscription) ∷ [];
}

abbrev pub hub_receiver : HubReceiver
hub_receiver = record {
  hub_instance_id = "hub-1";
  subscription_name = "ssf-hub-subscription-hub-1";
  distributor = record {
    http_timeout = pos second;
    retry_policy = default_policy;
    metrics = fresh.metrics;
  };
  running = true;
  stopped = false;
  metrics = record {
    messages_received = 0;
    messages_processed = 0;
    messages_failed = 0;
    processing_duration = 0;
    last_processed_at = 0;
  };
}

abbrev pub hub : Hub
hub = record { receiver = hub_receiver; started = [] }

abbrev pub other_hub : Hub
other_hub = record { receiver = record hub_receiver { hub_instance_id = "hub-2" }; started = [] }

abbrev pub moment : InternalMessage → Moment
moment m = record { registry = two; start = 50; checked = 51; ended = 52; last = 53 }

abbrev pub now : Readings
now = record {
  uuid = "p1";
  received_at = 7;
  processed_at = 8;
  stats = λ id. (10, 11);
  stamp = stamp;
}

abbrev pub token : SecEvent
token = record {
  id = "e1";
  issuer = "https://idp.example";
  issued_at = some second;
  subject_payload = ok (("format", str "email") ∷ []);
  event_type = "session-revoked";
  event_payload = no_payload;
}

abbrev pub parse : String → Result String SecEvent
parse t =
    if t == "token"
    then ok token
    else if t == "untimed"
    then ok (record token { issued_at = none })
    else err "not a token"
