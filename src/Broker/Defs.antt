-- ===== src/Broker/Defs.antt =====
-- The processing of a security event token in ssf-hub/internal/controller/broker.go.
use Prim.Native.String
use caep_dev.Base.{
  ◌*◌, ◌/◌, String, List, [], ◌∷◌, Option, none, some, map, ◌==◌, if◌then◌else◌, Outcome, returns,
  panics, ◌>>=◌, Result, ok, err,
}
use caep_dev.Base.Int.{pos}
use caep_dev.Base.Dict.{Dict, lookup, put}
use caep_dev.Models.Value.{Value, str}
use caep_dev.Models.Receiver.{Time, Receiver, second}
use caep_dev.Models.Event.{SecurityEvent, Subject}
use caep_dev.Models.Message.{Stamp}
use caep_dev.Registry
use caep_dev.Registry.{MemoryRegistry, filter_receivers, increment_event_received}
use caep_dev.Distributor.{new_event_distributor}
use caep_dev.PubSub.Api.{PubSubClient}
use caep_dev.HubReceiver
use caep_dev.HubReceiver.{HubReceiver, Hub, new_hub_receiver}

-- What `Event.Payload()` gives: a map, or a value of another type.
pub data Payload : Type 0 where
  no_payload : Payload
  map_payload : Dict Value → Payload
  other_payload : Payload

-- What the broker reads of a parsed token. The parser's token has a subject and an event, since its
-- decoding ends in `Validate`, but its `IssuedAt` may be nil.
pub record SecEvent : Type 0 where
  pub id : String
  pub issuer : String
  pub issued_at : Option Time
  pub subject_payload : Result String (Dict Value)
  pub event_type : String
  pub event_payload : Payload

pub data Error : Type 0 where
  empty_set empty_transmitter : Error
  parse_failed publish_failed : String → Error
  receivers_failed : Registry.Error → Error

-- What the processing reads: a new UUID, the clock when the event is converted and for the statistics
-- of each receiver, and what the client stamps on the message.
pub record Readings : Type 0 where
  pub uuid : String
  pub received_at : Time
  pub processed_at : Time
  pub stats : String → Time × Time
  pub stamp : Stamp

abbrev text_of : Option Value → String
text_of (some (str s)) = s
text_of _ = ""

abbrev subject_of : Result String (Dict Value) → Subject
subject_of (err e) = record { format = ""; identifier = ""; claims = [] }
subject_of (ok claims) = record {
  format = text_of (lookup "format" claims);
  identifier = text_of (lookup "identifier" claims);
  claims = claims;
}

-- the loop that writes the payload into the new map
abbrev write_all : Dict Value → Dict Value → Dict Value
write_all [] m = m
write_all ((k, v) ∷ kvs) m = write_all kvs (put k v m)

abbrev data_of : Payload → Dict Value
data_of no_payload = []
data_of other_payload = []
data_of (map_payload kvs) = write_all kvs []

abbrev issued : Option Time → Outcome Time
issued none = panics
issued (some t) = returns (t / second * second)

unfoldable pub convert_to_security_event :
    Readings → SecEvent → (raw_set transmitter_id : String) → Outcome SecurityEvent
unfolding lookup put
convert_to_security_event now s raw_set transmitter_id = do
  time ← issued s.issued_at
  returns (record {
    id = s.id;
    type = s.event_type;
    source = s.issuer;
    spec_version = "1.0";
    time = time;
    subject = subject_of s.subject_payload;
    event_data = data_of s.event_payload;
    extensions = [];
    metadata = record {
      received_at = now.received_at;
      processed_at = now.processed_at;
      transmitter_id = transmitter_id;
      raw_set = raw_set;
      processing_id = now.uuid;
      tags = [];
    };
  })

-- The loop over the receivers: an error of the registry is only logged.
unfoldable pub notify : Readings → List Receiver → MemoryRegistry → MemoryRegistry
unfolding increment_event_received
notify now [] reg = reg
notify now (r ∷ rs) reg =
    let (t, u) = now.stats r.id in notify now rs (increment_event_received r.id t u reg).0

module _ {C S : Type 0} (client : PubSubClient C S) where
  -- A result: the registry, the client and the error.
  abbrev pub Processed : Type 0
  Processed = MemoryRegistry × C × Option Error

  abbrev pub published : MemoryRegistry → C × Option String → Processed
  published reg (c, none) = (reg, c, none)
  published reg (c, some e) = (reg, c, some (publish_failed e))

  abbrev pub publish_to :
      Readings
      → SecurityEvent
      → MemoryRegistry
      → C
      → Result Registry.Error (List Receiver)
      → Processed
  publish_to now e reg c (err x) = (reg, c, some (receivers_failed x))
  publish_to now e reg c (ok []) = (reg, c, none)
  publish_to now e reg c (ok (r ∷ rs)) =
      published (notify now (r ∷ rs) reg)
        (client.publish_event now.stamp e (map (λ x. x.id) (r ∷ rs)) c)

  -- From the converted event on.
  unfoldable pub publish_converted :
      Readings → SecurityEvent → MemoryRegistry → C → Outcome Processed
  unfolding filter_receivers notify
  publish_converted now e reg c = do
    found ← filter_receivers e reg
    returns (publish_to now e reg c found)

  abbrev pub process_parsed :
      Readings
      → (raw_set transmitter_id : String) → MemoryRegistry
      → C
      → Result String SecEvent
      → Outcome Processed
  process_parsed now raw_set transmitter_id reg c (err x) = returns (reg, c, some (parse_failed x))
  process_parsed now raw_set transmitter_id reg c (ok s) = do
    e ← convert_to_security_event now s raw_set transmitter_id
    publish_converted now e reg c

  -- `parse` is the parser of the tokens.
  unfoldable pub process_security_event :
      (parse : String → Result String SecEvent)
      → Readings
      → (raw_set transmitter_id : String) → MemoryRegistry
      → C
      → Outcome Processed
  unfolding convert_to_security_event publish_converted
  process_security_event parse now raw_set transmitter_id reg c =
      if raw_set == ""
      then returns (reg, c, some empty_set)
      else if transmitter_id == ""
      then returns (reg, c, some empty_transmitter)
      else process_parsed now raw_set transmitter_id reg c (parse raw_set)

pub record Broker : Type 0 where
  pub hub_receiver : HubReceiver
  pub hub_instance_id : String

-- `New`: the distributor that it makes is the one of the hub receiver.
unfoldable pub new_broker : (client_id : String) → Broker
unfolding new_hub_receiver new_event_distributor
new_broker client_id = record {
  hub_receiver =
      new_hub_receiver client_id client_id
        (new_event_distributor (record { http_timeout = pos 30_000_000_000; retry_policy = none }));
  hub_instance_id = client_id;
}

abbrev with_prefix : String → Option String → Option String
with_prefix what none = none
with_prefix what (some e) = some (String.◌++◌ what e)

module _ {C S : Type 0} (client : PubSubClient C S) where
  unfoldable pub start : (now : Time) → C → Broker → C × Broker × Option String
  unfolding HubReceiver.start
  start now c b =
      let (c', h, e) = HubReceiver.start client now c b.hub_receiver in
      (c', record b { hub_receiver = h }, with_prefix "failed to start hub receiver: " e)

  unfoldable pub stop : C → Broker → Outcome (C × Broker × Option String)
  unfolding HubReceiver.stop
  stop c b = do
    (c', h, e) ← HubReceiver.stop client c b.hub_receiver
    returns (c', record b { hub_receiver = h }, with_prefix "failed to stop hub receiver: " e)
