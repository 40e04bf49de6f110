-- ===== src/HubReceiver/Metrics.antt =====
-- What ssf-hub/internal/hubreceiver/hubreceiver.go counts.
use mathlib.Core.Path.{subst}
use mathlib.Core.Logic.{inl, inr}
use caep_dev.Base.{
  ℕ, ◌+◌, ◌%◌, ◌^◌, ◌<◌, List, [], ◌∷◌, ◌++◌, Option, none, ◌≡◌, sym, refl, ◌∙◌, arith, length,
  length-append, returns,
}
use caep_dev.Models.Message.{InternalMessage}
use caep_dev.PubSub.Api.{Error}
use caep_dev.PubSub.Mock.{MockSubscription, process_messages}
use caep_dev.HubReceiver.Defs.{Moment, Hub, process_internal_message}
use caep_dev.HubReceiver.Messages.{Handled, process_internal_message-Handles, skipped, distributed}

-- The counter of processed messages is `base` and one for each message with started deliveries,
-- modulo 2^64, and none is counted as failed.
abbrev pub IsCounted : (base : ℕ) → Hub → Type 0
IsCounted base hub =
    (hub.receiver.metrics.messages_processed ≡ (base + length hub.started) % 2 ^ 64)
    × (hub.receiver.metrics.messages_failed ≡ 0)

abbrev pub received : Hub → ℕ
received hub = hub.receiver.metrics.messages_received

Handled-received :
    (now : Moment) (msg : InternalMessage) (hub hub' : Hub)
    → Handled now msg hub hub'
    → received hub' ≡ (received hub + 1) % 2 ^ 64
Handled-received now msg hub hub' (skipped how) = refl
Handled-received now msg hub hub' (distributed rs n l st) = refl

Handled-IsCounted :
    (base : ℕ) (now : Moment) (msg : InternalMessage) (hub hub' : Hub)
    → Handled now msg hub hub'
    → IsCounted base hub
    → IsCounted base hub'
Handled-IsCounted base now msg hub hub' (skipped how) h = h
Handled-IsCounted base now msg hub hub' (distributed rs n l st) (h, f) =
    (omega (arith, h, length-append hub.started ((msg, rs) ∷ [])), f)

module _ (moment : InternalMessage → Moment) where
  -- What a batch of messages that does not panic does to the counters: each message is received, and
  -- the processed ones are those with started deliveries. The handler never fails.
  pub process_messages-IsCounted :
      (base : ℕ) (ms : List InternalMessage) (sub sub' : MockSubscription) (hub hub' : Hub)
      (e : Option Error)
      → received hub < 2 ^ 64
      → IsCounted base hub
      → process_messages (λ m. process_internal_message (moment m) m) ms sub hub
        ≡ returns (sub', hub', e)
      → (e ≡ none) × (received hub' ≡ (received hub + length ms) % 2 ^ 64) × IsCounted base hub'
  unfolding process_messages
  process_messages-IsCounted base [] sub sub' hub hub' e small h ran =
      let same : hub ≡ hub' = cc ran in
      subst (λ t. (e ≡ none) × (received t ≡ (received hub + 0) % 2 ^ 64) × IsCounted base t) same
        (cc ran, omega (arith, small), h)
  process_messages-IsCounted base (m ∷ ms) sub sub' hub hub' e small h ran =
      elim (process_internal_message-Handles (moment m) m hub) [
        | inl (p, q) ↦ absurd (ground (arith, q, ran))
        | inr (hub1, same, handled) ↦
            let step : process_messages (λ m. process_internal_message (moment m) m) (m ∷ ms) sub
                  hub
                ≡ process_messages (λ m. process_internal_message (moment m) m) ms
                    (record sub { messages = sub.messages ++ m ∷ [] }) hub1 =
              rw (same, process_messages) refl in
            let count = Handled-received (moment m) m hub hub1 handled in
            let (fine, got, counted) =
              process_messages-IsCounted base ms (record sub { messages = sub.messages ++ m ∷ [] })
                sub' hub1 hub' e (omega (arith, count))
                (Handled-IsCounted base (moment m) m hub hub1 handled h) (sym step ∙ ran) in
            (fine, omega (arith, got, count), counted)
      ]
