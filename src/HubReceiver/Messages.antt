-- ===== src/HubReceiver/Messages.antt =====
-- Which messages ssf-hub/internal/hubreceiver/hubreceiver.go distributes.
use mathlib.Core.Logic.{inl, inr}
use caep_dev.Base.{
  ℕ, zero, suc, ◌+◌, ◌<◌, true, false, List, [], ◌∷◌, ◌++◌, none, ◌≡◌, ◌≢◌, ◌↔◌, ltb, ltb→lt, refl,
  ◌⊎◌, ◌==◌, if◌then◌else◌, arith, eq_iff, eq_refl, Bool-cases, returns, panics, Outcome-cases,
}
use caep_dev.Base.Int.{ℤ, pos, negsuc, is_positive}
use caep_dev.Models.Receiver.{Time, Receiver}
use caep_dev.Models.Message.{InternalMessage}
use caep_dev.Distributor.{distribute_to_receivers, add_duration}
use caep_dev.Distributor.Dispatch.{Starts, distribute_to_receivers-Starts}
use caep_dev.HubReceiver.Defs.{
  Moment, Hub, is_message_expired, process_internal_message, count_received, count_processed,
}

-- The message has a time to live, and it is over.
abbrev pub IsExpired : Time → InternalMessage → Type 0
IsExpired now msg =
    (t : ℕ) × (msg.routing.ttl ≡ pos (suc t)) × (msg.metadata.created_at + suc t < now)

abbrev IsOver : ℤ → Time → Time → Type 0
IsOver ttl created now = (t : ℕ) × (ttl ≡ pos (suc t)) × (created + suc t < now)

IsOver-sound :
    (ttl : ℤ) (created now : Time)
    → (if is_positive ttl then ltb (add_duration created ttl) now else false) ≡ true
    → IsOver ttl created now
IsOver-sound (pos zero) created now h = absurd (cc h)
IsOver-sound (pos (suc t)) created now h = (t, refl, ltb→lt (created + suc t) now h)
IsOver-sound (negsuc t) created now h = absurd (cc h)

IsOver-complete :
    (ttl : ℤ) (created now : Time)
    → IsOver ttl created now
    → (if is_positive ttl then ltb (add_duration created ttl) now else false) ≡ true
IsOver-complete ttl created now (t, same, late) = rw same (ground arith)

-- A message has expired exactly if its time to live is positive, and was over before.
pub is_message_expired_iff :
    (now : Time) (msg : InternalMessage) → (is_message_expired now msg ≡ true) ↔ IsExpired now msg
unfolding is_message_expired
is_message_expired_iff now msg = (
  IsOver-sound msg.routing.ttl msg.metadata.created_at now,
  IsOver-complete msg.routing.ttl msg.metadata.created_at now,
)

-- What the handling of a message may be: it is skipped, or its deliveries are started.
pub data Handled (now : Moment) (msg : InternalMessage) (hub : Hub) : Hub → Type 0 where
  skipped :
      (msg.metadata.hub_instance_id ≡ hub.receiver.hub_instance_id) ⊎ IsExpired now.checked msg
      → Handled now msg hub (record hub { receiver = count_received hub.receiver })
  distributed :
      (rs : List Receiver)
      → msg.metadata.hub_instance_id ≢ hub.receiver.hub_instance_id
      → ¬ IsExpired now.checked msg
      → Starts now.registry msg.event msg.routing.target_receivers rs
      → Handled now msg hub (record {
        receiver = count_processed now (count_received hub.receiver);
        started = hub.started ++ (msg, rs) ∷ [];
      })

-- The handling panics with the distribution, or it returns no error.
abbrev pub Handles : Moment → InternalMessage → Hub → Type 0
Handles now msg hub =
    ((distribute_to_receivers now.registry msg ≡ panics)
      × (process_internal_message now msg hub ≡ panics))
    ⊎ ((hub' : Hub) × (process_internal_message now msg hub ≡ returns (hub', none))
        × Handled now msg hub hub')

module _ (now : Moment) (msg : InternalMessage) (hub : Hub) where
  own-Handles :
      (msg.metadata.hub_instance_id == hub.receiver.hub_instance_id) ≡ true → Handles now msg hub
  unfolding process_internal_message
  own-Handles own = inr (
    _,
    rw own refl,
    skipped
        (inl (ground (arith, eq_iff msg.metadata.hub_instance_id hub.receiver.hub_instance_id))),
  )

  foreign-Handles :
      (msg.metadata.hub_instance_id == hub.receiver.hub_instance_id) ≡ false → Handles now msg hub
  unfolding process_internal_message
  foreign-Handles other = elim (Bool-cases (is_message_expired now.checked msg)) [
    | inl late ↦
        inr (
          _,
          rw (other, late) refl,
          skipped (inr ((is_message_expired_iff now.checked msg).0 late)),
        )
    | inr fresh ↦ elim (Outcome-cases (distribute_to_receivers now.registry msg)) [
      | inl p ↦ inl (p, rw (other, fresh, p) refl)
      | inr (rs, p) ↦ inr (
        _,
        rw (other, fresh, p) refl,
        distributed rs (λ same. cc (other, same, eq_refl hub.receiver.hub_instance_id))
            (λ late. cc (fresh, (is_message_expired_iff now.checked msg).1 late))
            (distribute_to_receivers-Starts now.registry msg rs p),
      )
    ]
  ]

  -- A message is skipped exactly if it is of this hub instance or has expired; else the deliveries to
  -- the targets that want the event are started, and counted as processed. There is no error, but a
  -- panic of a filter is passed on.
  pub process_internal_message-Handles : Handles now msg hub
  process_internal_message-Handles =
      elim (Bool-cases (msg.metadata.hub_instance_id == hub.receiver.hub_instance_id)) [
        | inl own ↦ own-Handles own
        | inr other ↦ foreign-Handles other
      ]
