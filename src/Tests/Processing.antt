-- ===== src/Tests/Processing.antt =====
-- The theorems on ssf-hub/internal/controller at concrete inputs.
use mathlib.Core.Logic.{inl, inr}
use caep_dev.Base.{
  ℕ, zero, suc, ◌+◌, ◌≤◌, ◌<◌, ◌%◌, ◌^◌, String, List, [], ◌∷◌, ◌++◌, Option, none, some, ◌≡◌, ◌≢◌,
  ◌↔◌, ◌⊎◌, refl, arith, returns, panics, ok, err, All, keep, take, length, ◌==◌, Bool, true, false,
}
use caep_dev.Base.Dict.{lookup, put, values}
use caep_dev.Models.Receiver.{Receiver, to_receiver, validate, validate_auth}
use caep_dev.Models.Receiver.Validation.{IsDeliverable, validate_iff}
use caep_dev.Models.Receiver.Defaults.{to_receiver-IsDeliverable_iff}
use caep_dev.Models.Message.{to_internal_message}
use caep_dev.Models.Filter.Laws.{IsSafe}
use caep_dev.PubSub.Mock.{MockClient, MockTopic}
use caep_dev.PubSub.Mock.Client.{mock_client}
use caep_dev.Registry.{MemoryRegistry}
use caep_dev.Registry.Invariant.{IsConsistent}
use caep_dev.Registry.Selection.{IsInterested, Selects}
use caep_dev.Base.{false, String}
use caep_dev.HubReceiver.{Hub}
use caep_dev.HubReceiver.Own.{HasStarted}
use caep_dev.HubReceiver.Consume.{Round, consume_messages}
use caep_dev.Broker.Polling.{consume_messages-idles}
use caep_dev.Broker.{SecEvent, process_security_event, publish_converted, register_receiver}
use caep_dev.Broker.Processing.{received_one, publish_converted-counts}
use caep_dev.Broker.Publishing.{
  Publishes, publish_converted-Publishes, process_security_event-panics_iff,
}
use caep_dev.Broker.Registration.{Succeeds, register_receiver_iff}
use caep_dev.Broker.Alone.{IsAlone, process_security_event-undelivered}
use caep_dev.HubReceiver.{pull_and_process_messages}
use caep_dev.Tests.Data.{
  accepts, alpha, beta, request, two, event, message, topic, subscription, client, hub, moment, now,
  parse, token, stamp,
}
use caep_dev.Tests.Registry.{alpha-IsDeliverable, stored_alpha}

two-IsSafe : All (λ r. All IsSafe r.filters) (values two.receivers)
unfolding values
two-IsSafe = (
  (record { value_safe = inr tt; items_safe = inr tt }, tt),
  ((record { value_safe = inr tt; items_safe = inr tt }, tt), tt),
)

publish_converted-Publishes_example :
    (ss : List Receiver) × Selects event (values two.receivers) ss
    × Publishes (mock_client Hub) now event two client ss
publish_converted-Publishes_example =
    publish_converted-Publishes (mock_client Hub) now event two client two-IsSafe

beta_accepted : (validate accepts beta).1 ≡ none
unfolding validate validate_auth
beta_accepted = refl

two-IsConsistent : IsConsistent accepts two
unfolding lookup
two-IsConsistent = record {
  distinct = (refl, (refl, tt));
  entries =
      ((refl, alpha-IsDeliverable), ((refl, (validate_iff accepts beta).0 beta_accepted), tt));
}

abbrev pub counted : MemoryRegistry
counted = record { receivers = ("alpha", received_one 10 11 alpha) ∷ ("beta", beta) ∷ [] }

abbrev topic_after : MockTopic
topic_after = record topic {
  messages = message ∷ to_internal_message stamp event ("alpha" ∷ []) "hub-1" ∷ [];
}

abbrev pub client_after : MockClient
client_after = record client { topics = ("ssf-hub-events", topic_after) ∷ [] }

publishes :
    publish_converted (mock_client Hub) now event two client ≡ returns (counted, client_after, none)
unfolding publish_converted mock_client values caep_dev.Base.copy
    caep_dev.Models.Filter.filter_matches caep_dev.Models.Filter.extract_field_value
    caep_dev.Models.Filter.contains lookup put
publishes = refl

publish_converted-counts_example :
    (IsInterested event alpha
      × (lookup "alpha" counted.receivers ≡ some (received_one 10 11 alpha)))
    ⊎ ((¬ IsInterested event alpha) × (lookup "alpha" counted.receivers ≡ some alpha))
publish_converted-counts_example =
    publish_converted-counts (mock_client Hub) accepts now event two counted client client_after
      none "alpha" alpha two-IsConsistent publishes stored_alpha

pub processes :
    process_security_event (mock_client Hub) parse now "token" "idp" two client
    ≡ returns (counted, client_after, none)
unfolding process_security_event mock_client values caep_dev.Base.copy
    caep_dev.Models.Filter.filter_matches caep_dev.Models.Filter.extract_field_value
    caep_dev.Models.Filter.contains
processes = refl

client-IsAlone : IsAlone "hub-1" client
client-IsAlone = (refl, ((refl, tt), tt))

subscribed : lookup "ssf-hub-subscription-hub-1" client_after.subscriptions ≡ some subscription
unfolding lookup
subscribed = refl

has_topic : lookup "ssf-hub-events" client_after.topics ≡ some topic_after
unfolding lookup
has_topic = refl

process_security_event-undelivered_example :
    IsAlone "hub-1" client_after
    × ((c : MockClient) × (hub' : Hub) × (pull_and_process_messages
            (mock_client Hub)
            moment
            client_after
            hub
          ≡ returns (c, hub', none))
        × (hub'.started ≡ hub.started))
process_security_event-undelivered_example =
    process_security_event-undelivered parse now "token" "idp" two counted client client_after none
      moment hub subscription topic_after client-IsAlone processes subscribed has_topic

process_security_event-panics_iff_example :
    (process_security_event (mock_client Hub) parse now "untimed" "idp" two client ≡ panics) ↔ (
      (◌≢◌ {A = String} "untimed" "")
      × (◌≢◌ {A = String} "idp" "")
      × (s : SecEvent) × (parse "untimed" ≡ ok s)
      × (s.issued_at ≡ none))
process_security_event-panics_iff_example =
    process_security_event-panics_iff (mock_client Hub) parse now "untimed" "idp" two client
      two-IsSafe

untimed_panics :
    process_security_event (mock_client Hub) parse now "untimed" "idp" two client ≡ panics
untimed_panics =
    (process_security_event-panics_iff (mock_client Hub) parse now "untimed" "idp" two client
        two-IsSafe).1
      ((λ h. cc h), (λ h. cc h), record token { issued_at = none }, refl, refl)

register_receiver_iff_example :
    Succeeds (register_receiver accepts 1 2 3 4 request two).1
    ↔ (IsDeliverable accepts (to_receiver 1 request) × (lookup "alpha" two.receivers ≡ none))
register_receiver_iff_example = register_receiver_iff accepts 2 3 4 two 1 request

request-IsDeliverable : IsDeliverable accepts (to_receiver 1 request)
request-IsDeliverable =
    (to_receiver-IsDeliverable_iff accepts 1 request).1
      ((λ h. cc h), (λ h. cc h), inr refl, (λ h. cc h), refl, inl (inr refl))

abbrev quiet : Round
quiet = record {
  published = (stamp, event, "alpha" ∷ []) ∷ [];
  stop_called = false;
  cancelled = false;
  stop_called_in_wait = false;
  cancelled_in_wait = false;
  moment = moment;
}

consume_messages-idles_example :
    (c : MockClient) × (hub' : Hub) × (consume_messages
        (mock_client Hub)
        (quiet ∷ record quiet { stop_called = true } ∷ [])
        client
        hub
      ≡ returns (c, hub'))
    × IsAlone "hub-1" c
    × HasStarted "hub-1" [] hub'
consume_messages-idles_example =
    consume_messages-idles "hub-1" [] (quiet ∷ record quiet { stop_called = true } ∷ []) client hub
      client-IsAlone (refl, refl)
