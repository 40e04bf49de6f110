-- ===== src/Broker/Polling.antt =====
-- The polling loop of ssf-hub/internal/hubreceiver/hubreceiver.go in a hub that runs alone.
use mathlib.Core.Path.{subst}
use mathlib.Core.Logic.{inl, inr}
use caep_dev.Base.{
  String, Bool, true, false, List, [], ◌∷◌, Option, none, some, ◌≡◌, refl, sym, ◌∙◌, All, returns,
  Bool-cases, ◌||◌, Outcome,
}
use caep_dev.Base.Dict.{AllEntries}
use caep_dev.Models.Receiver.{Receiver}
use caep_dev.Models.Message.{InternalMessage}
use caep_dev.PubSub.Api.{Error}
use caep_dev.PubSub.Mock.{MockClient, MockTopic, delete_hub_subscription}
use caep_dev.PubSub.Mock.Client.{mock_client}
use caep_dev.PubSub.Mock.Keeps.{pull-Keeps_any}
use caep_dev.HubReceiver.{Hub, Moment, pull_and_process_messages, process_internal_message}
use caep_dev.HubReceiver.Own.{IsFrom, HasStarted, own-Keeps}
use caep_dev.HubReceiver.Consume.{
  Publication, Round, publish_all, after_stop, leaves, after_pull, consume_messages,
}
use caep_dev.Broker.Alone.{IsAlone, publish_event-IsAlone}

module _ (id : String) (started : List (InternalMessage × List Receiver)) where
  -- a client of this hub alone, and a hub receiver with these deliveries
  abbrev Idle : MockClient × Hub → Type 0
  Idle (c, hub) = IsAlone id c × HasStarted id started hub

  publish_all-IsAlone :
      (ps : List Publication) (c : MockClient)
      → IsAlone id c
      → IsAlone id (publish_all (mock_client Hub) ps c)
  unfolding mock_client
  publish_all-IsAlone [] c a = a
  publish_all-IsAlone ((stamp, e, ids) ∷ ps) c a =
      publish_all-IsAlone ps _ (publish_event-IsAlone id stamp e ids c a)

  after_stop-Idle :
      (b : Bool) (x : MockClient × Hub) → Idle x → Idle (after_stop (mock_client Hub) b x)
  unfolding mock_client delete_hub_subscription
  after_stop-Idle true (c, hub) h = h
  after_stop-Idle false (c, hub) h = h

  pull-IsAlone :
      (moment : InternalMessage → Moment) (c : MockClient) (hub : Hub)
      → IsAlone id c
      → HasStarted id started hub
      → (c' : MockClient) × (hub' : Hub) × (e : Option Error) × (pull_and_process_messages
            (mock_client Hub)
            moment
            c
            hub
          ≡ returns (c', hub', e))
        × IsAlone id c'
        × HasStarted id started hub'
  unfolding pull_and_process_messages mock_client
  pull-IsAlone moment c hub (own, h) k =
      let (c', hub', e, same, topics, instance_id, k') =
        pull-Keeps_any (λ m. process_internal_message (moment m) m) (own-Keeps id started moment)
          hub.receiver.subscription_name 99 c hub h k in
      (
        c',
        hub',
        e,
        same,
        (
          instance_id ∙ own,
          subst (AllEntries (λ k (t : MockTopic). All (IsFrom id) t.messages)) (sym topics) h,
        ),
        k',
      )

  -- What the loop, or the rest of it, comes to.
  abbrev Idles : Outcome (MockClient × Hub) → Type 0
  Idles o =
      (c : MockClient) × (hub : Hub) × (o ≡ returns (c, hub))
      × IsAlone id c
      × HasStarted id started hub

  after_pull-Idles :
      (r : Round) (continue : MockClient → Hub → Outcome (MockClient × Hub)) (c : MockClient)
      (hub : Hub) (e : Option Error)
      → ((c : MockClient) (hub : Hub)
          → IsAlone id c
          → HasStarted id started hub
          → Idles (continue c hub))
      → IsAlone id c
      → HasStarted id started hub
      → Idles (after_pull (mock_client Hub) r continue (c, hub, e))
  unfolding after_pull
  after_pull-Idles r continue c hub none ih a h = ih c hub a h
  after_pull-Idles r continue c hub (some e) ih a h =
      let x = after_stop (mock_client Hub) r.stop_called_in_wait (c, hub) in
      let (a', h') = after_stop-Idle r.stop_called_in_wait (c, hub) (a, h) in
      elim (Bool-cases (x.1.receiver.stopped || r.cancelled_in_wait)) [
        | inl out ↦ (x.0, x.1, rw out refl, a', h')
        | inr stay ↦ rw stay (ih x.0 x.1 a' h')
      ]

  -- A hub that is alone on its client polls in vain: over any schedule of rounds, events that its
  -- broker publishes meanwhile, stops and cancellations, its loop returns without a panic, and the
  -- deliveries that it has started are those that it had started before.
  pub consume_messages-idles :
      (rs : List Round) (c : MockClient) (hub : Hub)
      → IsAlone id c
      → HasStarted id started hub
      → (c' : MockClient) × (hub' : Hub) × (consume_messages (mock_client Hub) rs c hub
          ≡ returns (c', hub'))
        × IsAlone id c'
        × HasStarted id started hub'
  unfolding consume_messages
  consume_messages-idles [] c hub a h = (c, hub, refl, a, h)
  consume_messages-idles (r ∷ rs) c hub a h =
      let c0 = publish_all (mock_client Hub) r.published c in
      let x = after_stop (mock_client Hub) r.stop_called (c0, hub) in
      let (a1, h1) =
        after_stop-Idle r.stop_called (c0, hub) (publish_all-IsAlone r.published c a, h) in
      elim (Bool-cases (leaves r x.1)) [
        | inl out ↦ (x.0, x.1, rw out refl, a1, h1)
        | inr stay ↦
            let (c2, hub2, e, same, a2, h2) = pull-IsAlone r.moment x.0 x.1 a1 h1 in
            rw (stay, same)
              (after_pull-Idles r (consume_messages (mock_client Hub) rs) c2 hub2 e
                (consume_messages-idles rs) a2 h2)
      ]
