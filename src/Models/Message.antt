-- ===== src/Models/Message.antt =====
-- ssf-hub/pkg/models/event.go: the internal message of the unified topic.
use Prim.Native.String
use caep_dev.Base.{ℕ, ◌/◌, ◌%◌, String, List, []}
use caep_dev.Base.Int.{ℤ, pos}
use caep_dev.Base.Dict.{Dict}
use caep_dev.Models.Receiver.{Time, Duration, second}
use caep_dev.Models.Event.{SecurityEvent}

pub record RoutingInfo : Type 0 where
  pub target_receivers : List String
  pub event_type : String
  pub subject : String
  pub priority : ℤ
  pub ttl : Duration
  pub tags : Dict String

pub record MessageMetadata : Type 0 where
  pub hub_instance_id : String
  pub processing_id : String
  pub retry_count : ℤ
  pub original_topic : String
  pub created_at : Time
  pub updated_at : Time

-- The event is a pointer that is never nil in the messages that the hub makes.
pub record InternalMessage : Type 0 where
  pub message_id : String
  pub message_type : String
  pub version : String
  pub timestamp : Time
  pub event : SecurityEvent
  pub routing : RoutingInfo
  pub metadata : MessageMetadata

-- What `ToInternalMessage` reads of the clock and of `generateMessageID`.
pub record Stamp : Type 0 where
  pub message_id : String
  pub timestamp : Time
  pub created_at : Time
  pub updated_at : Time

-- `date` prints the seconds of a time by the layout "20060102150405", and `decimal` a number.
unfoldable pub generate_short_id : (decimal : ℕ → String) (now : Time) → String
generate_short_id decimal now = decimal (now % 1_000_000)

unfoldable pub generate_message_id :
    (date : ℕ → String) (decimal : ℕ → String) (t u : Time) → String
unfolding generate_short_id
generate_message_id date decimal t u =
    String.◌++◌ "msg_"
      (String.◌++◌ (date (t / second)) (String.◌++◌ "_" (generate_short_id decimal u)))

abbrev pub day : ℕ
day = 86_400_000_000_000

unfoldable pub to_internal_message :
    Stamp → SecurityEvent → (targets : List String) → (hub_instance_id : String) → InternalMessage
to_internal_message s e targets hub_instance_id = record {
  message_id = s.message_id;
  message_type = "security_event";
  version = "1.0";
  timestamp = s.timestamp;
  event = e;
  routing = record {
    target_receivers = targets;
    event_type = e.type;
    subject = e.subject.identifier;
    priority = pos 0;
    ttl = pos day;
    tags = [];
  };
  metadata = record {
    hub_instance_id = hub_instance_id;
    processing_id = e.metadata.processing_id;
    retry_count = pos 0;
    original_topic = "";
    created_at = s.created_at;
    updated_at = s.updated_at;
  };
}
