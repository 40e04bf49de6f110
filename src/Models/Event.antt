-- ===== src/Models/Event.antt =====
-- ssf-hub/pkg/models/event.go: the security event and a delivery attempt.
-- A nil map and an empty one are one list here, since the code only reads and writes entries.
use caep_dev.Base.{ℕ, String}
use caep_dev.Base.Dict.{Dict}
use caep_dev.Models.Value.{Value}
use caep_dev.Models.Receiver.{Time, Duration}

pub record Subject : Type 0 where
  pub format : String
  pub identifier : String
  pub claims : Dict Value

pub record EventMetadata : Type 0 where
  pub received_at : Time
  pub processed_at : Time
  pub transmitter_id : String
  pub raw_set : String
  pub processing_id : String
  pub tags : Dict String

-- `event_data` is the field `Data`.
pub record SecurityEvent : Type 0 where
  pub id : String
  pub type : String
  pub source : String
  pub spec_version : String
  pub time : Time
  pub subject : Subject
  pub event_data : Dict Value
  pub extensions : Dict Value
  pub metadata : EventMetadata

pub data DeliveryStatus : Type 0 where
  pending delivered failed retrying abandoned : DeliveryStatus

pub record EventDelivery : Type 0 where
  pub delivery_id : String
  pub receiver_id : String
  pub event_id : String
  pub attempt : ℕ
  pub status : DeliveryStatus
  pub delivered_at : Time
  pub error_message : String
  pub response_code : ℕ
  pub response_body : String
  pub duration : Duration
  pub next_retry_at : Time
  pub metadata : Dict String
