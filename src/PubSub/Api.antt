-- ===== src/PubSub/Api.antt =====
-- The operations that ssf-hub/internal/controller/broker.go and
-- ssf-hub/internal/hubreceiver/hubreceiver.go ask of a Pub/Sub client, as an interface.
use caep_dev.Base.{String, List, Option, Outcome}
use caep_dev.Base.Int.{ℤ}
use caep_dev.Models.Receiver.{Time}
use caep_dev.Models.Event.{SecurityEvent}
use caep_dev.Models.Message.{InternalMessage, Stamp}

-- The error of a client, or the one that a handler returned, as a text.
abbrev pub Error : Type 0
Error = String

-- A handler works on a state `S`, and may panic.
abbrev pub Handler : Type 0 → Type 0
Handler S = InternalMessage → S → Outcome (S × Option Error)

-- `C` is the client's state.
pub record PubSubClient (C S : Type 0) : Type 0 where
  pub publish_event : Stamp → SecurityEvent → List String → C → C × Option Error
  pub create_hub_subscription : (now : Time) → String → C → C × Option Error
  pub delete_hub_subscription : String → C → C × Option Error
  pub pull_internal_messages :
      String → (max_messages : ℤ) → Handler S → C → S → Outcome (C × S × Option Error)
  pub get_hub_instance_id : C → String
