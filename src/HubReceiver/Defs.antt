-- ===== src/HubReceiver/Defs.antt =====
-- The state and the methods of ssf-hub/internal/hubreceiver/hubreceiver.go. A Pub/Sub client is an
-- argument with its state.
use Prim.Native.String
use caep_dev.Base.{
  ℕ, ◌+◌, ◌-◌, ◌%◌, ◌^◌, String, Bool, true, false, List, [], ◌∷◌, ◌++◌, Option, none, some, ◌==◌,
  eqb, if◌then◌else◌, ltb, Outcome, returns, panics, ◌>>=◌,
}
use caep_dev.Base.Int.{pos, is_positive}
use caep_dev.Models.Receiver.{Time, Receiver, webhook, active}
use caep_dev.Models.Message.{InternalMessage}
use caep_dev.Registry.{MemoryRegistry, increment}
use caep_dev.Distributor
use caep_dev.Distributor.{EventDistributor, distribute_to_receivers, add_duration}
use caep_dev.PubSub.Api.{Error, Handler, PubSubClient}

-- int64 counters and an int64 duration, by their bits
pub record HubReceiverMetrics : Type 0 where
  pub messages_received : ℕ
  pub messages_processed : ℕ
  pub messages_failed : ℕ
  pub processing_duration : ℕ
  pub last_processed_at : Time

-- `stopped` says whether `stopChan` is closed.
pub record HubReceiver : Type 0 where
  pub hub_instance_id : String
  pub subscription_name : String
  pub distributor : EventDistributor
  pub running : Bool
  pub stopped : Bool
  pub metrics : HubReceiverMetrics

abbrev pub generate_hub_subscription_name : String → String
generate_hub_subscription_name id = String.◌++◌ "ssf-hub-subscription-" id

-- `client_id` is the client's answer to `GetHubInstanceID`.
unfoldable pub new_hub_receiver :
    (hub_instance_id client_id : String) → EventDistributor → HubReceiver
new_hub_receiver hub_instance_id client_id d =
    let id = if hub_instance_id == "" then client_id else hub_instance_id in
    record {
      hub_instance_id = id;
      subscription_name = generate_hub_subscription_name id;
      distributor = d;
      running = false;
      stopped = false;
      metrics = record {
        messages_received = 0;
        messages_processed = 0;
        messages_failed = 0;
        processing_duration = 0;
        last_processed_at = 0;
      };
    }

-- What the handling of one message reads: the registry, which other goroutines write, and the clock.
pub record Moment : Type 0 where
  pub registry : MemoryRegistry
  pub start : Time
  pub checked : Time
  pub ended : Time
  pub last : Time

-- The hub receiver, and the deliveries that it started, for each message that it distributed.
pub record Hub : Type 0 where
  pub receiver : HubReceiver
  pub started : List (InternalMessage × List Receiver)

unfoldable pub is_message_expired : (now : Time) → InternalMessage → Bool
is_message_expired now msg =
    if is_positive msg.routing.ttl
    then ltb (add_duration msg.metadata.created_at msg.routing.ttl) now
    else false

abbrev pub count_received : HubReceiver → HubReceiver
count_received h = record h {
  metrics = record h.metrics { messages_received = increment h.metrics.messages_received };
}

abbrev pub count_processed : Moment → HubReceiver → HubReceiver
count_processed now h = record h {
  metrics = record h.metrics {
    messages_processed = increment h.metrics.messages_processed;
    processing_duration = (h.metrics.processing_duration + (now.ended - now.start)) % 2 ^ 64;
    last_processed_at = now.last;
  };
}

-- `DistributeToReceivers` returns no error, so the branch that counts a failed message is dead.
unfoldable pub process_internal_message : Moment → Handler Hub
unfolding is_message_expired distribute_to_receivers
process_internal_message now msg hub =
    let h = count_received hub.receiver in
    if msg.metadata.hub_instance_id == h.hub_instance_id
    then returns (record hub { receiver = h }, none)
    else if is_message_expired now.checked msg
    then returns (record hub { receiver = h }, none)
    else (do
      receivers ← distribute_to_receivers now.registry msg
      returns (
        record { receiver = count_processed now h; started = hub.started ++ (msg, receivers) ∷ [] },
        none,
      ))

abbrev prefixed : String → Option String → Option String
prefixed what none = none
prefixed what (some e) = some (String.◌++◌ what e)

module _ {C S : Type 0} (client : PubSubClient C S) where
  abbrev pub started : HubReceiver → C × Option Error → C × HubReceiver × Option Error
  started h (c, none) = (c, record h { running = true }, none)
  started h (c, some e) = (c, h, some (String.◌++◌ "failed to create hub subscription: " e))

  -- The consumption loop starts when there is no error.
  unfoldable pub start : (now : Time) → C → HubReceiver → C × HubReceiver × Option Error
  start now c h = started h (client.create_hub_subscription now h.subscription_name c)

  -- To close a closed channel panics. An error of the client is only logged.
  unfoldable pub stop : C → HubReceiver → Outcome (C × HubReceiver × Option Error)
  stop c h =
      if h.stopped
      then panics
      else returns (
        (client.delete_hub_subscription h.subscription_name c).0,
        record h { running = false; stopped = true },
        none,
      )

-- `moment` is what each message meets.
unfoldable pub pull_and_process_messages :
    {C : Type 0}
    → PubSubClient C Hub
    → (moment : InternalMessage → Moment) → C
    → Hub
    → Outcome (C × Hub × Option Error)
unfolding process_internal_message
pull_and_process_messages client moment c hub =
    client.pull_internal_messages hub.receiver.subscription_name (pos 100)
      (λ msg. process_internal_message (moment msg) msg) c hub

pub record Status : Type 0 where
  pub running : Bool
  pub hub_instance_id : String
  pub subscription_name : String
  pub metrics : HubReceiverMetrics

unfoldable pub get_status : HubReceiver → Status
get_status h = record {
  running = h.running;
  hub_instance_id = h.hub_instance_id;
  subscription_name = h.subscription_name;
  metrics = h.metrics;
}

abbrev pub five_minutes : ℕ
five_minutes = 300_000_000_000

-- `show` prints a duration.
unfoldable pub health_check :
    (show : ℕ → String) (now : Time) → MemoryRegistry → HubReceiver → Option String
unfolding Distributor.health_check
health_check show now reg h =
    let idle = now - h.metrics.last_processed_at in
    if h.running
    then (if eqb h.metrics.last_processed_at 0
        then prefixed "distributor unhealthy: " (Distributor.health_check reg)
        else if ltb five_minutes idle
        then some (String.◌++◌ "no messages processed in last " (show idle))
        else prefixed "distributor unhealthy: " (Distributor.health_check reg))
    else some "hub receiver is not running"

-- `t` and `u` are the readings of the clock.
unfoldable pub as_receiver : (t u : Time) → HubReceiver → Receiver
as_receiver t u h = record {
  id = h.hub_instance_id;
  name = String.◌++◌ "SSF Hub Instance " h.hub_instance_id;
  description = "Internal SSF Hub receiver for event distribution";
  webhook_url = "";
  event_types = "*" ∷ [];
  delivery = record { method = webhook; batch_size = pos 0; timeout = pos 0 };
  auth = record {
    type = "";
    token = "";
    client_id = "";
    client_secret = "";
    token_url = "";
    scopes = [];
    secret = "";
    algorithm = "";
  };
  filters = [];
  retry = record {
    max_retries = pos 0;
    initial_interval = pos 0;
    max_interval = pos 0;
    multiplier = 0;
    enable_jitter = false;
  };
  status = active;
  metadata = record {
    created_at = t;
    updated_at = u;
    last_event_at = 0;
    events_received = 0;
    events_delivered = 0;
    events_failed = 0;
    last_delivery_error = "";
    tags =
        some
          (("type", "hub") ∷ ("instance", h.hub_instance_id) ∷ ("role", "internal-receiver") ∷ []);
  };
}
