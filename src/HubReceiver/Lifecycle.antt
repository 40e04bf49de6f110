-- ===== src/HubReceiver/Lifecycle.antt =====
-- How a hub receiver of ssf-hub/internal/hubreceiver/hubreceiver.go starts and stops.
use caep_dev.Base.{
  List, ◌∷◌, ◌==◌, Bool, true, false, Outcome-cases, Option, none, some, ◌≡◌, refl, sym, ap, ◌∙◌,
  arith, Bool-cases, Outcome, returns, panics,
}
use mathlib.Core.Logic.{inl, inr}
use caep_dev.Models.Receiver.{Time}
use caep_dev.PubSub.Api.{Error, PubSubClient}
use caep_dev.Models.Message.{InternalMessage}
use caep_dev.HubReceiver.Defs.{
  HubReceiver, Hub, Moment, is_message_expired, process_internal_message, started, start, stop,
}
use caep_dev.Distributor.{distribute_to_receivers}
use caep_dev.HubReceiver.Consume.{Round, publish_all, after_stop, leaves, consume_messages}

module _ {C S : Type 0} (client : PubSubClient C S) where
  stop-stopped : (c : C) (h : HubReceiver) → h.stopped ≡ true → stop client c h ≡ panics
  unfolding stop
  stop-stopped c h s = rw s refl

  abbrev closed : Outcome (C × HubReceiver × Option Error) → Bool
  closed panics = true
  closed (returns (c, h, e)) = h.stopped

  stopped-stop :
      (c c' : C) (h h' : HubReceiver) (e : Option Error)
      → stop client c h ≡ returns (c', h', e)
      → h'.stopped ≡ true
  unfolding stop
  stopped-stop c c' h h' e ran = elim (Bool-cases h.stopped) [
    | inl s ↦ absurd (ground (arith, s, ran))
    | inr s ↦ let ran' = rw s at ran in ap closed (sym ran')
  ]

  started-stopped :
      (h : HubReceiver) (o : C × Option Error) → (started client h o).1.stopped ≡ h.stopped
  started-stopped h (c, none) = refl
  started-stopped h (c, some e) = refl

-- whether the receiver that a handler leaves is stopped
abbrev stopped_in : Bool → Outcome (Hub × Option Error) → Bool
stopped_in otherwise panics = otherwise
stopped_in otherwise (returns (hub, e)) = hub.receiver.stopped

stopped_in-process_internal_message :
    (now : Moment) (msg : InternalMessage) (hub : Hub)
    → stopped_in hub.receiver.stopped (process_internal_message now msg hub) ≡ hub.receiver.stopped
unfolding process_internal_message
stopped_in-process_internal_message now msg hub =
    elim (Bool-cases (msg.metadata.hub_instance_id == hub.receiver.hub_instance_id)) [
      | inl own ↦ rw own refl
      | inr other ↦ elim (Bool-cases (is_message_expired now.checked msg)) [
        | inl late ↦ rw (other, late) refl
        | inr timely ↦ elim (Outcome-cases (distribute_to_receivers now.registry msg)) [
          | inl p ↦ rw (other, timely, p) refl
          | inr (rs, p) ↦ rw (other, timely, p) refl
        ]
      ]
    ]

count-stopped :
    (now : Moment) (msg : InternalMessage) (hub hub' : Hub) (e : Option Error)
    → process_internal_message now msg hub ≡ returns (hub', e)
    → hub'.receiver.stopped ≡ hub.receiver.stopped
count-stopped now msg hub hub' e h =
    sym (ap (stopped_in hub.receiver.stopped) h) ∙ stopped_in-process_internal_message now msg hub

module _ {C : Type 0} (client : PubSubClient C Hub) where
  -- How a hub receiver can go on: it rests; or it is started, on any client, whether that fails or
  -- not; or it handles a message.
  pub data GoesOn (h : HubReceiver) : HubReceiver → Type 0 where
    rests : GoesOn h h
    starts : (now : Time) (c : C) (k : HubReceiver) → GoesOn h k → GoesOn h (start client now c k).1
    handles :
        (now : Moment) (msg : InternalMessage) (hub hub' : Hub) (e : Option Error)
        → process_internal_message now msg hub ≡ returns (hub', e)
        → GoesOn h hub.receiver
        → GoesOn h hub'.receiver

  GoesOn-stopped : (h k : HubReceiver) → GoesOn h k → h.stopped ≡ true → k.stopped ≡ true
  unfolding start
  GoesOn-stopped h k rests s = s
  GoesOn-stopped h k (starts now c l before) s =
      started-stopped client l (client.create_hub_subscription now l.subscription_name c)
      ∙ GoesOn-stopped h l before s
  GoesOn-stopped h k (handles now msg hub hub' e ran before) s =
      count-stopped now msg hub hub' e ran ∙ GoesOn-stopped h hub.receiver before s

  leaves-stopped :
      (r : Round) (b : Bool) (c : C) (hub : Hub)
      → hub.receiver.stopped ≡ true
      → leaves r (after_stop client b (c, hub)).1 ≡ true
  leaves-stopped r true c hub h = refl
  leaves-stopped r false c hub h = ground (arith, h)

  -- A stop that returns is the last of its receiver: however the receiver goes on, by starts and
  -- messages in any order, every later stop panics, and a polling loop that is started then leaves in
  -- its first round, without a pull.
  pub stop-GoesOn :
      (c c' d : C) (h h' : HubReceiver) (e : Option Error) (hub : Hub) (r : Round) (rs : List Round)
      → stop client c h ≡ returns (c', h', e)
      → GoesOn h' hub.receiver
      → (stop client d hub.receiver ≡ panics)
        × (consume_messages client (r ∷ rs) d hub
            ≡ returns (after_stop client r.stop_called (publish_all client r.published d, hub)))
  unfolding consume_messages
  stop-GoesOn c c' d h h' e hub r rs ran goes =
      let over = GoesOn-stopped h' hub.receiver goes (stopped-stop client c c' h h' e ran) in
      (
        stop-stopped client d hub.receiver over,
        rw (leaves-stopped r r.stop_called (publish_all client r.published d) hub over) refl,
      )
