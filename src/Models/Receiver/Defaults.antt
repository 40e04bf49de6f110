-- ===== src/Models/Receiver/Defaults.antt =====
-- `SetDefaults` and `ToReceiver` of ssf-hub/pkg/models/receiver.go.
use caep_dev.Base.{◌<◌, String, Bool, true, [], ◌≡◌, ◌≢◌, ◌↔◌, ◌⊎◌, arith, eq_iff}
use caep_dev.Models.Receiver.Defs.{
  Time, DeliveryConfig, RetryConfig, Receiver, ReceiverRequest, webhook, default_delivery,
  default_retry, set_defaults, to_receiver,
}
use caep_dev.Models.Receiver.Validation.{HasCredentials, IsDeliverable}

default_delivery_again :
    (d : DeliveryConfig) → default_delivery (default_delivery d) ≡ default_delivery d
unfolding default_delivery
default_delivery_again d = ground (arith, eq_iff d.method "")

default_retry_again : (t : RetryConfig) → default_retry (default_retry t) ≡ default_retry t
unfolding default_retry
default_retry_again t = ground arith

-- What defaults leave of a receiver when they are set again later: only the time of the update.
pub set_defaults_again :
    (t u : Time) (r : Receiver)
    → 0 < t
    → set_defaults u (set_defaults t r) ≡ record (set_defaults t r) {
      metadata = record (set_defaults t r).metadata { updated_at = u };
    }
unfolding set_defaults
set_defaults_again t u r h = ground (
  arith,
  eq_iff r.status "",
  eq_iff r.auth.type "",
  default_delivery_again r.delivery,
  default_retry_again r.retry,
)

-- A request is turned into a deliverable receiver exactly when it has an id, event types, a URL that
-- parses and credentials, and its delivery method is the webhook or left out.
pub to_receiver-IsDeliverable_iff :
    (parse_url : String → Bool) (now : Time) (q : ReceiverRequest)
    → IsDeliverable parse_url (to_receiver now q) ↔ (
        (q.id ≢ "")
        × (q.event_types ≢ [])
        × ((q.delivery.method ≡ webhook) ⊎ (q.delivery.method ≡ ""))
        × (q.webhook_url ≢ "")
        × (parse_url q.webhook_url ≡ true)
        × HasCredentials q.auth)
unfolding to_receiver
to_receiver-IsDeliverable_iff parse_url now q = (
  λ d. (
    d.has_id,
    d.has_event_types,
    ground (arith, eq_iff q.delivery.method "", d.is_webhook),
    d.has_url,
    d.url_parses,
    ground (arith, eq_iff q.auth.type "", d.has_credentials),
  ),
  λ h. ground (arith, eq_iff q.delivery.method "", eq_iff q.auth.type ""),
)

-- Defaults keep a receiver deliverable.
pub set_defaults-IsDeliverable :
    (parse_url : String → Bool) (now : Time) (r : Receiver)
    → IsDeliverable parse_url r
    → IsDeliverable parse_url (set_defaults now r)
unfolding set_defaults
set_defaults-IsDeliverable parse_url now r d =
    let t = d.has_credentials in ground (arith, eq_iff r.delivery.method "", eq_iff r.auth.type "")
