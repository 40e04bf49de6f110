-- ===== src/PubSub/Mock/Defs.antt =====
-- The state and the methods of ssf-hub/internal/pubsub/mock_client.go.
use Prim.Native.String
use caep_dev.Base.{
  ℕ, suc, String, Bool, true, false, ◌||◌, List, [], ◌∷◌, ◌++◌, Option, none, some, ◌==◌,
  if◌then◌else◌, leb, length, Outcome, returns, panics, ◌>>=◌,
}
use caep_dev.Base.Int.{ℤ, pos, negsuc}
use caep_dev.Base.Dict.{Dict, lookup, put, remove}
use caep_dev.Models.Receiver.{Time, Duration}
use caep_dev.Models.Event.{SecurityEvent}
use caep_dev.Models.Message.{InternalMessage, Stamp, to_internal_message}
use caep_dev.PubSub.Api.{Error, Handler}

pub record MockTopic : Type 0 where
  pub name : String
  pub messages : List InternalMessage
  pub created : Time

pub record MockSubscription : Type 0 where
  pub name : String
  pub topic_name : String
  pub messages : List InternalMessage
  pub created : Time
  pub ack_deadline : Duration

pub record MockClient : Type 0 where
  pub project_id : String
  pub topic_name : String
  pub hub_instance_id : String
  pub topics : Dict MockTopic
  pub subscriptions : Dict MockSubscription

abbrev new_topic : (now : Time) → String → MockTopic
new_topic now name = record { name = name; messages = []; created = now }

abbrev pub unified_topic : String
unified_topic = "ssf-hub-events"

unfoldable pub new_mock_client : (now : Time) → (project_id hub_instance_id : String) → MockClient
unfolding put
new_mock_client now project_id hub_instance_id = record {
  project_id = project_id;
  topic_name = unified_topic;
  hub_instance_id = hub_instance_id;
  topics = put unified_topic (new_topic now unified_topic) [];
  subscriptions = [];
}

abbrev or_new : Time → String → Option MockTopic → MockTopic
or_new now name none = new_topic now name
or_new now name (some t) = t

-- `getOrCreateTopic` of the client's topic; a new topic enters the map with the write below.
unfoldable pub get_or_create_topic : (now : Time) → String → MockClient → MockTopic
get_or_create_topic now name c = or_new now name (lookup name c.topics)

unfoldable pub publish_event :
    Stamp → SecurityEvent → List String → MockClient → MockClient × Option Error
unfolding get_or_create_topic
publish_event s e targets c =
    let message = to_internal_message s e targets c.hub_instance_id in
    let topic = get_or_create_topic s.timestamp c.topic_name c in
    let grown = record topic { messages = topic.messages ++ message ∷ [] } in
    (record c { topics = put c.topic_name grown c.topics }, none)

abbrev create_found :
    Time → String → Option MockSubscription → MockClient → MockClient × Option Error
create_found now name (some _) c = (c, none)
create_found now name none c =
    let subscription : MockSubscription = record {
      name = name;
      topic_name = c.topic_name;
      messages = [];
      created = now;
      ack_deadline = pos 60_000_000_000;
    } in
    (record c { subscriptions = put name subscription c.subscriptions }, none)

unfoldable pub create_hub_subscription :
    (now : Time) → String → MockClient → MockClient × Option Error
create_hub_subscription now name c = create_found now name (lookup name c.subscriptions) c

unfoldable pub delete_hub_subscription : String → MockClient → MockClient × Option Error
delete_hub_subscription name c = (record c { subscriptions = remove name c.subscriptions }, none)

-- the loop of `messageInSubscription`
unfoldable pub message_in_subscription : List InternalMessage → InternalMessage → Bool
message_in_subscription [] msg = false
message_in_subscription (m ∷ ms) msg =
    m.message_id == msg.message_id || message_in_subscription ms msg

-- len(xs) >= n
abbrev pub at_least : ℕ → ℤ → Bool
at_least k (pos n) = leb n k
at_least k (negsuc n) = true

-- The loop that gathers the messages to process: `taken` is `messagesToProcess`. It stops when the
-- gathered messages reach the maximum.
unfoldable pub collect :
    (seen : List InternalMessage) (max_messages : ℤ) (taken : List InternalMessage)
    → List InternalMessage
    → List InternalMessage
unfolding message_in_subscription
collect seen max_messages taken [] = taken
collect seen max_messages taken (m ∷ ms) =
    let passed = collect seen max_messages taken ms in
    let more = collect seen max_messages (taken ++ m ∷ []) ms in
    if message_in_subscription seen m
    then passed
    else if at_least (suc (length taken)) max_messages
    then taken ++ m ∷ []
    else more

-- the text of the errors "topic %s does not exist" and "subscription %s does not exist"
abbrev pub missing : String → String → Error
missing what name = String.◌++◌ what (String.◌++◌ name " does not exist")

module _ {S : Type 0} where
  -- The loop that processes: a message is marked as processed before its handler runs.
  unfoldable pub process_messages :
      Handler S
      → List InternalMessage
      → MockSubscription
      → S
      → Outcome (MockSubscription × S × Option Error)
  process_messages handler [] sub s = returns (sub, s, none)
  process_messages handler (m ∷ ms) sub s =
      let marked = record sub { messages = sub.messages ++ m ∷ [] } in
      elim (handler m s) [
        | panics ↦ panics
        | returns (s', some e) ↦ returns (marked, s', some e)
        | returns (s', none) ↦ process_messages handler ms marked s'
      ]

  abbrev pull_found :
      String
      → ℤ
      → Handler S
      → MockClient
      → S
      → MockSubscription
      → Option MockTopic
      → Outcome (MockClient × S × Option Error)
  pull_found name max_messages handler c s sub none =
      returns (c, s, some (missing "topic " sub.topic_name))
  pull_found name max_messages handler c s sub (some topic) = do
    (sub', s', e) ←
        process_messages handler (collect sub.messages max_messages [] topic.messages) sub s
    returns (record c { subscriptions = put name sub' c.subscriptions }, s', e)

  abbrev pull_subscribed :
      String
      → ℤ
      → Handler S
      → MockClient
      → S
      → Option MockSubscription
      → Outcome (MockClient × S × Option Error)
  pull_subscribed name max_messages handler c s none =
      returns (c, s, some (missing "subscription " name))
  pull_subscribed name max_messages handler c s (some sub) =
      pull_found name max_messages handler c s sub (lookup sub.topic_name c.topics)

  unfoldable pub pull_internal_messages :
      String
      → (max_messages : ℤ) → Handler S
      → MockClient
      → S
      → Outcome (MockClient × S × Option Error)
  unfolding process_messages collect
  pull_internal_messages name max_messages handler c s =
      pull_subscribed name max_messages handler c s (lookup name c.subscriptions)

abbrev clear_topics : Dict MockTopic → Dict MockTopic
clear_topics [] = []
clear_topics ((k, t) ∷ ts) = (k, record t { messages = [] }) ∷ clear_topics ts

abbrev clear_subscriptions : Dict MockSubscription → Dict MockSubscription
clear_subscriptions [] = []
clear_subscriptions ((k, t) ∷ ts) = (k, record t { messages = [] }) ∷ clear_subscriptions ts

unfoldable pub clear_all_messages : MockClient → MockClient
clear_all_messages c = record c {
  topics = clear_topics c.topics;
  subscriptions = clear_subscriptions c.subscriptions;
}
