-- ===== src/Distributor/Loop.antt =====
-- The retry loop of ssf-hub/internal/distributor/distributor.go. What each attempt meets outside the
-- program is an argument: the network's answer, the clock, and whether the context is cancelled.
use Prim.Native.String
use caep_dev.Base.{
  ℕ, zero, suc, ◌+◌, ◌-◌, ◌%◌, ◌^◌, String, Bool, Option, none, some, List, [], ◌∷◌, ◌++◌,
  if◌then◌else◌, Result, ok, err,
}
use caep_dev.Base.Int.{ℤ, pos, negsuc, ltℤ, le_pos}
use caep_dev.Models.Receiver.{Time, Duration, Receiver}
use caep_dev.Models.Event.{SecurityEvent, EventDelivery, pending, delivered, abandoned}
use caep_dev.Registry.{
  MemoryRegistry, Error, list, increment, increment_event_delivered, increment_event_failed,
}
use caep_dev.Distributor.Defs.{
  RetryPolicy, DistributorMetrics, Request, Answer, Http, WebhookResult, perform_webhook_delivery,
}

-- What one attempt meets: the answer, the time it takes, the readings of the clock when it is
-- delivered, in the registry and before a retry, and whether the context ends the wait.
pub record Attempt : Type 0 where
  pub answer : Answer
  pub elapsed : ℕ
  pub delivered_at : Time
  pub registry_time : Time
  pub retry_time : Time
  pub cancelled : Bool

-- What a delivery does outside the program.
pub data Effect : Type 0 where
  post : Request → Effect
  wait : Duration → Effect

-- What the loop works on.
pub record Run : Type 0 where
  pub registry : MemoryRegistry
  pub metrics : DistributorMetrics
  pub delivery : EventDelivery
  pub effects : List Effect

-- `t.Add(d)`
abbrev pub add_duration : Time → Duration → Time
add_duration t (pos d) = t + d
add_duration t (negsuc d) = t - suc d

abbrev pub posted : Option Request → List Effect
posted none = []
posted (some q) = post q ∷ []

abbrev pub message_of : Option String → String → String
message_of none m = m
message_of (some e) m = e

-- The start of a round: the attempt, and its result in the delivery and the metrics.
unfoldable pub record_attempt : (attempt : ℕ) → Attempt → Option Request × WebhookResult → Run → Run
record_attempt attempt a (q, w) s = record s {
  metrics = record s.metrics {
    deliveries_attempted = increment s.metrics.deliveries_attempted;
    delivery_duration = (s.metrics.delivery_duration + a.elapsed) % 2 ^ 64;
  };
  delivery = record s.delivery {
    attempt = attempt;
    duration = pos a.elapsed;
    response_code = w.status_code;
    response_body = w.response_body;
    error_message = message_of w.error s.delivery.error_message;
  };
  effects = s.effects ++ posted q;
}

-- An error of the registry is only logged.
unfoldable pub succeed : Receiver → Attempt → Run → Run
unfolding increment_event_delivered
succeed r a s = record s {
  registry = (increment_event_delivered r.id a.registry_time s.registry).0;
  metrics = record s.metrics { deliveries_succeeded = increment s.metrics.deliveries_succeeded };
  delivery = record s.delivery { status = delivered; delivered_at = a.delivered_at };
}

unfoldable pub fail : Receiver → Attempt → WebhookResult → Run → Run
unfolding increment_event_failed
fail r a w s = record s {
  registry = (increment_event_failed r.id (message_of w.error "") a.registry_time s.registry).0;
  metrics = record s.metrics { deliveries_failed = increment s.metrics.deliveries_failed };
}

abbrev pub abandon : Run → Run
abandon s = record s { delivery = record s.delivery { status = abandoned } }

abbrev pub schedule : Attempt → Duration → Run → Run
schedule a backoff s = record s {
  delivery = record s.delivery { next_retry_at = add_duration a.retry_time backoff };
  effects = s.effects ++ wait backoff ∷ [];
}

-- `MaxRetries + 1` rounds, or none if that is not positive.
abbrev pub rounds_of : ℤ → ℕ
rounds_of (pos n) = suc n
rounds_of (negsuc n) = 0

-- `scale d m` is `time.Duration(float64(d) * m)`, for the bits of the float64 `m`.
module _ (scale : Duration → ℕ → Duration) where
  unfoldable pub next_backoff : RetryPolicy → Duration → Duration
  next_backoff p backoff =
      let grown = scale backoff p.multiplier in
      if ltℤ p.max_interval grown then p.max_interval else grown

  -- After a failed attempt: `continue` is the rest of the loop.
  unfoldable pub retry :
      RetryPolicy
      → (attempt : ℕ) → Attempt
      → Duration
      → (continue : Duration → Run → Run) → Run
      → Run
  unfolding next_backoff
  retry p attempt a backoff continue s =
      if le_pos attempt p.max_retries
      then (if a.cancelled
          then abandon (schedule a backoff s)
          else continue (next_backoff p backoff) (schedule a backoff s))
      else continue backoff (abandon s)

  unfoldable pub round :
      RetryPolicy
      → Receiver
      → (attempt : ℕ) → Attempt
      → Option Request × WebhookResult
      → Duration
      → (continue : Duration → Run → Run) → Run
      → Run
  unfolding record_attempt succeed fail retry
  round p r attempt a result backoff continue s =
      let s' = record_attempt attempt a result s in
      if result.1.success
      then succeed r a s'
      else retry p attempt a backoff continue (fail r a result.1 s')

  module _ (http : Http) (p : RetryPolicy) (env : ℕ → Attempt) (r : Receiver)
      (e : SecurityEvent) where
    -- The loop with `rounds` rounds to go.
    unfoldable pub attempts : (rounds attempt : ℕ) → Duration → Run → Run
    unfolding round perform_webhook_delivery
    attempts zero attempt backoff s = s
    attempts (suc rounds) attempt backoff s =
        round p r attempt (env attempt) (perform_webhook_delivery http r e (env attempt).answer)
          backoff (attempts rounds (suc attempt)) s

    unfoldable pub perform_delivery_with_retries : Run → Run
    unfolding attempts
    perform_delivery_with_retries s = attempts (rounds_of p.max_retries) 1 p.initial_interval s

    abbrev new_delivery : (delivery_id : String) → EventDelivery
    new_delivery delivery_id = record {
      delivery_id = delivery_id;
      receiver_id = r.id;
      event_id = e.id;
      attempt = 0;
      status = pending;
      delivered_at = 0;
      error_message = "";
      response_code = 0;
      response_body = "";
      duration = pos 0;
      next_retry_at = 0;
      metadata = [];
    }

    -- `uuid` is the text of a new UUID.
    unfoldable pub deliver_webhook : (uuid : String) → MemoryRegistry → DistributorMetrics → Run
    unfolding perform_delivery_with_retries
    deliver_webhook uuid reg metrics = perform_delivery_with_retries (record {
      registry = reg;
      metrics = metrics;
      delivery = new_delivery (String.◌++◌ "delivery_" uuid);
      effects = [];
    })

abbrev listed : Result Error (List Receiver) → Option String
listed (ok _) = none
listed (err _) = some "registry unreachable"

unfoldable pub health_check : MemoryRegistry → Option String
unfolding list
health_check reg = listed (list reg)
