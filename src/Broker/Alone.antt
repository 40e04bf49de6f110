-- ===== src/Broker/Alone.antt =====
-- A hub that runs alone: ssf-hub/internal/controller/broker.go and
-- ssf-hub/internal/hubreceiver/hubreceiver.go on one client of ssf-hub/internal/pubsub/mock_client.go.
use mathlib.Core.Path.{subst}
use mathlib.Core.Logic.{inl, inr}
use caep_dev.Base.{
  String, List, [], ◌∷◌, ◌++◌, map, Option, none, some, ◌≡◌, refl, All, Outcome, returns, panics,
  Result, ok, err, ◌==◌, Bool-cases, Option-cases, Outcome-cases,
}
use caep_dev.Base.Dict.{lookup, put, AllEntries, AllEntries-lookup, AllEntries-put}
use caep_dev.Models.Receiver.{Time, Receiver}
use caep_dev.Models.Event.{SecurityEvent}
use caep_dev.Models.Message.{InternalMessage, Stamp, to_internal_message}
use caep_dev.Registry
use caep_dev.Registry.{MemoryRegistry, filter_receivers}
use caep_dev.PubSub.Mock.{
  MockClient, MockTopic, MockSubscription, new_mock_client, publish_event, get_or_create_topic,
}
use caep_dev.PubSub.Mock.Client.{mock_client}
use caep_dev.HubReceiver.{Hub, Moment, pull_and_process_messages}
use caep_dev.HubReceiver.Own.{IsFrom, pull_own}
use caep_dev.Broker.Defs.{
  Readings, SecEvent, Error, notify, publish_converted, publish_to, published, process_parsed,
  convert_to_security_event, process_security_event,
}

-- Every message in the client's topics was published by the hub instance `id`, the client's own.
abbrev pub IsAlone : String → MockClient → Type 0
IsAlone id c =
    (c.hub_instance_id ≡ id) × AllEntries (λ k (t : MockTopic). All (IsFrom id) t.messages) c.topics

pub new_mock_client-IsAlone :
    (now : Time) (project id : String) → IsAlone id (new_mock_client now project id)
unfolding new_mock_client put
new_mock_client-IsAlone now project id = (refl, (tt, tt))

All-snoc :
    (P : InternalMessage → Type 0) (ms : List InternalMessage) (m : InternalMessage)
    → All P ms
    → P m
    → All P (ms ++ m ∷ [])
All-snoc P [] m h p = (p, tt)
All-snoc P (x ∷ ms) m (h, hs) p = (h, All-snoc P ms m hs p)

topic-IsFrom :
    (id : String) (now : Time) (name : String) (c : MockClient)
    → IsAlone id c
    → All (IsFrom id) (get_or_create_topic now name c).messages
unfolding get_or_create_topic
topic-IsFrom id now name c (own, h) = elim (Option-cases (lookup name c.topics)) [
  | inl p ↦ rw p tt
  | inr (t, p) ↦
      rw p (AllEntries-lookup (λ k (t : MockTopic). All (IsFrom id) t.messages) name t c.topics h p)
]

pub publish_event-IsAlone :
    (id : String) (s : Stamp) (e : SecurityEvent) (targets : List String) (c : MockClient)
    → IsAlone id c
    → IsAlone id (publish_event s e targets c).0
unfolding publish_event to_internal_message
publish_event-IsAlone id s e targets c (own, h) = (
  own,
  AllEntries-put (λ k (t : MockTopic). All (IsFrom id) t.messages) c.topic_name _ c.topics h
      (All-snoc (IsFrom id) _ _ (topic-IsFrom id s.timestamp c.topic_name c (own, h)) own),
)

module _ (now : Readings) (e : SecurityEvent) (id : String) (c : MockClient)
    (alone : IsAlone id c) where
  published-IsAlone :
      (reg : MemoryRegistry) (o : MockClient × Option String)
      → IsAlone id o.0
      → IsAlone id (published (mock_client Hub) reg o).1
  published-IsAlone reg (c', none) h = h
  published-IsAlone reg (c', some x) h = h

  publish_to-IsAlone :
      (reg : MemoryRegistry) (found : Result Registry.Error (List Receiver))
      → IsAlone id (publish_to (mock_client Hub) now e reg c found).1
  unfolding mock_client
  publish_to-IsAlone reg (err x) = alone
  publish_to-IsAlone reg (ok []) = alone
  publish_to-IsAlone reg (ok (r ∷ rs)) =
      let targets = map (λ (x : Receiver). x.id) (r ∷ rs) in
      published-IsAlone (notify now (r ∷ rs) reg) (publish_event now.stamp e targets c)
        (publish_event-IsAlone id now.stamp e targets c alone)

-- What a step leaves of a client, if it returns.
abbrev Leaves : String → Outcome (MemoryRegistry × MockClient × Option Error) → Type 0
Leaves id panics = Unit
Leaves id (returns (reg, c, x)) = IsAlone id c

publish_converted-Leaves :
    (now : Readings) (e : SecurityEvent) (id : String) (reg : MemoryRegistry) (c : MockClient)
    → IsAlone id c
    → Leaves id (publish_converted (mock_client Hub) now e reg c)
unfolding publish_converted
publish_converted-Leaves now e id reg c alone = elim (Outcome-cases (filter_receivers e reg)) [
  | inl p ↦ rw p tt
  | inr (found, p) ↦ rw p (publish_to-IsAlone now e id c alone reg found)
]

module _ (parse : String → Result String SecEvent) (now : Readings) (raw transmitter id : String)
    (reg : MemoryRegistry) (c : MockClient) where
  processed-Leaves :
      (o : Result String SecEvent)
      → IsAlone id c
      → Leaves id (process_parsed (mock_client Hub) now raw transmitter reg c o)
  unfolding process_security_event
  processed-Leaves (err x) alone = alone
  processed-Leaves (ok s) alone =
      elim (Outcome-cases (convert_to_security_event now s raw transmitter)) [
        | inl p ↦ rw p tt
        | inr (e, p) ↦ rw p (publish_converted-Leaves now e id reg c alone)
      ]

  process_security_event-Leaves :
      IsAlone id c
      → Leaves id (process_security_event (mock_client Hub) parse now raw transmitter reg c)
  unfolding process_security_event
  process_security_event-Leaves alone = elim (Bool-cases (raw == "")) [
    | inl a ↦ rw a alone
    | inr a ↦ elim (Bool-cases (transmitter == "")) [
      | inl b ↦ rw (a, b) alone
      | inr b ↦ rw (a, b) (processed-Leaves (parse raw) alone)
    ]
  ]

-- A hub that is alone on its client never delivers what it accepts: after any token is processed
-- without a panic, the hub is still alone, and a pull of its hub receiver, from a subscription and a
-- topic that are there, returns without an error and starts no delivery.
pub process_security_event-undelivered :
    (parse : String → Result String SecEvent) (now : Readings) (raw transmitter : String)
    (reg reg' : MemoryRegistry) (c c' : MockClient) (x : Option Error)
    (moment : InternalMessage → Moment) (hub : Hub) (sub : MockSubscription) (topic : MockTopic)
    → IsAlone hub.receiver.hub_instance_id c
    → process_security_event (mock_client Hub) parse now raw transmitter reg c
      ≡ returns (reg', c', x)
    → lookup hub.receiver.subscription_name c'.subscriptions ≡ some sub
    → lookup sub.topic_name c'.topics ≡ some topic
    → IsAlone hub.receiver.hub_instance_id c'
      × ((c'' : MockClient) × (hub' : Hub) × (pull_and_process_messages
              (mock_client Hub)
              moment
              c'
              hub
            ≡ returns (c'', hub', none))
          × (hub'.started ≡ hub.started))
process_security_event-undelivered parse now raw transmitter reg reg' c c' x moment hub sub topic
      alone ran p q =
    let id = hub.receiver.hub_instance_id in
    let (own, h) : IsAlone id c' =
      subst (Leaves id) ran
        (process_security_event-Leaves parse now raw transmitter id reg c alone) in
    (
      (own, h),
      pull_own moment c' hub sub topic p q (
          AllEntries-lookup (λ k (t : MockTopic). All (IsFrom id) t.messages) sub.topic_name topic
            c'.topics h q),
    )
