-- ===== src/HubReceiver/Consume.antt =====
-- The polling loop `consumeMessages` of ssf-hub/internal/hubreceiver/hubreceiver.go. What happens
-- beside it is a schedule with one entry for each round.
use caep_dev.Base.{
  String, Bool, true, false, not, ◌||◌, List, [], ◌∷◌, Option, none, some, if◌then◌else◌, Outcome,
  returns, ◌>>=◌,
}
use caep_dev.Models.Event.{SecurityEvent}
use caep_dev.Models.Message.{InternalMessage, Stamp}
use caep_dev.PubSub.Api.{Error, PubSubClient}
use caep_dev.HubReceiver.Defs.{Hub, Moment, pull_and_process_messages}

-- A call of `PublishEvent`: what the client stamps on the message, the event, and the receivers.
abbrev pub Publication : Type 0
Publication = Stamp × SecurityEvent × List String

-- What a round meets: what the broker published since the last round; whether `Stop` was called since
-- then, or the context was cancelled, before its test and during the wait after an error; and what
-- each message meets.
pub record Round : Type 0 where
  pub published : List Publication
  pub stop_called : Bool
  pub cancelled : Bool
  pub stop_called_in_wait : Bool
  pub cancelled_in_wait : Bool
  pub moment : InternalMessage → Moment

-- The loop's test and the first `select`.
abbrev pub leaves : Round → Hub → Bool
leaves r hub = not hub.receiver.running || (hub.receiver.stopped || r.cancelled)

module _ {C : Type 0} (client : PubSubClient C Hub) where
  abbrev pub publish_all : List Publication → C → C
  publish_all [] c = c
  publish_all ((stamp, e, ids) ∷ ps) c = publish_all ps (client.publish_event stamp e ids c).0

  -- What a `Stop` that returns does, if it was called: an error of the client is only logged.
  abbrev pub after_stop : Bool → C × Hub → C × Hub
  after_stop true (c, hub) = (
    (client.delete_hub_subscription hub.receiver.subscription_name c).0,
    record hub { receiver = record hub.receiver { running = false; stopped = true } },
  )
  after_stop false (c, hub) = (c, hub)

  -- After a pull: an error leads to the wait, whose end by the clock goes on with the loop.
  unfoldable pub after_pull :
      Round → (continue : C → Hub → Outcome (C × Hub)) → C × Hub × Option Error → Outcome (C × Hub)
  after_pull r continue (c, hub, none) = continue c hub
  after_pull r continue (c, hub, some e) =
      let x = after_stop r.stop_called_in_wait (c, hub) in
      if x.1.receiver.stopped || r.cancelled_in_wait then returns x else continue x.0 x.1

  -- At the end of the schedule the loop still runs.
  unfoldable pub consume_messages : List Round → C → Hub → Outcome (C × Hub)
  unfolding after_pull pull_and_process_messages
  consume_messages [] c hub = returns (c, hub)
  consume_messages (r ∷ rs) c hub =
      let x = after_stop r.stop_called (publish_all r.published c, hub) in
      let pulled =
        pull_and_process_messages client r.moment x.0 x.1 >>= after_pull r (consume_messages rs) in
      if leaves r x.1 then returns x else pulled
