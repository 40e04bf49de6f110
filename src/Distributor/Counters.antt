-- ===== src/Distributor/Counters.antt =====
-- The metrics and the receivers' statistics that a delivery of
-- ssf-hub/internal/distributor/distributor.go moves.
use caep_dev.Base.{ℕ, suc, ◌+◌, ◌%◌, ◌^◌, ◌≡◌, refl, arith, some}
use caep_dev.Base.Int.{pos}
use caep_dev.Base.Dict.{lookup}
use caep_dev.Models.Receiver.{Duration, Receiver}
use caep_dev.Models.Event.{
  SecurityEvent, DeliveryStatus, pending, delivered, failed, retrying, abandoned,
}
use caep_dev.Registry.Reads.{lookup-modify_self}
use caep_dev.Distributor.Defs.{RetryPolicy, Http}
use caep_dev.Distributor.Loop.{
  Attempt, Run, record_attempt, succeed, fail, perform_delivery_with_retries,
}
use caep_dev.Distributor.Retry.{Loops, perform_delivery_with_retries-Loops}

abbrev pub ones : DeliveryStatus → ℕ
ones delivered = 1
ones pending = 0
ones failed = 0
ones retrying = 0
ones abandoned = 0

-- From `s` to `t`, whose delivery has made attempts from number `i` on, the last of which is its
-- number: as many attempts are counted, one success if the status is delivered, and the other
-- attempts as failures, up to the wrap-around of the counters.
abbrev pub CountsFrom : ℕ → Run → Run → Type 0
CountsFrom i s t =
    ((t.metrics.deliveries_attempted + i) % 2 ^ 64
      ≡ (s.metrics.deliveries_attempted + suc t.delivery.attempt) % 2 ^ 64)
    × (t.metrics.deliveries_succeeded % 2 ^ 64
        ≡ (s.metrics.deliveries_succeeded + ones t.delivery.status) % 2 ^ 64)
    × ((t.metrics.deliveries_failed + ones t.delivery.status + i) % 2 ^ 64
        ≡ (s.metrics.deliveries_failed + suc t.delivery.attempt) % 2 ^ 64)

module _ (scale : Duration → ℕ → Duration) (http : Http) (p : RetryPolicy) (env : ℕ → Attempt)
    (r : Receiver) (e : SecurityEvent) where
  Loops-CountsFrom :
      {m i : ℕ} {b : Duration} {s t : Run} → Loops scale http p env r e m i b s t → CountsFrom i s t
  unfolding succeed record_attempt fail
  Loops-CountsFrom (Loops.won i b s h w) = (omega arith, omega arith, omega arith)
  Loops-CountsFrom (Loops.lost i b s h w) = (omega arith, omega arith, omega arith)
  Loops-CountsFrom (Loops.stopped i b s h w c) = (omega arith, omega arith, omega arith)
  Loops-CountsFrom (Loops.again i b s h w c rest) =
      let (x, y, z) = Loops-CountsFrom rest in (omega arith, omega arith, omega arith)

  -- A delivery counts each of its attempts once: the attempted deliveries grow by the number of its
  -- last attempt, the succeeded ones by one exactly if it ends as delivered, and the failed ones by
  -- the other attempts, modulo 2^64.
  pub perform_delivery_with_retries-counts :
      (m : ℕ) (s : Run)
      → p.max_retries ≡ pos m
      → CountsFrom 1 s (perform_delivery_with_retries scale http p env r e s)
  perform_delivery_with_retries-counts m s pm =
      Loops-CountsFrom (perform_delivery_with_retries-Loops scale http p env r e m s pm)

  -- The statistics of the receiver move as the metrics do: successes are deliveries, failures are
  -- failures, and the events received stay.
  abbrev pub Moves : Receiver → Run → Run → Type 0
  Moves old s t =
      (new : Receiver) × (lookup r.id t.registry.receivers ≡ some new)
      × ((new.metadata.events_delivered + s.metrics.deliveries_succeeded) % 2 ^ 64
          ≡ (old.metadata.events_delivered + t.metrics.deliveries_succeeded) % 2 ^ 64)
      × ((new.metadata.events_failed + s.metrics.deliveries_failed) % 2 ^ 64
          ≡ (old.metadata.events_failed + t.metrics.deliveries_failed) % 2 ^ 64)
      × (new.metadata.events_received ≡ old.metadata.events_received)

  Loops-Moves :
      {m i : ℕ} {b : Duration} {s t : Run}
      → Loops scale http p env r e m i b s t
      → (old : Receiver) → lookup r.id s.registry.receivers ≡ some old
      → Moves old s t
  unfolding succeed record_attempt fail
  Loops-Moves (Loops.won i b s h w) old q =
      (_, lookup-modify_self r.id _ s.registry old q, omega arith, omega arith, refl)
  Loops-Moves (Loops.lost i b s h w) old q =
      (_, lookup-modify_self r.id _ s.registry old q, omega arith, omega arith, refl)
  Loops-Moves (Loops.stopped i b s h w c) old q =
      (_, lookup-modify_self r.id _ s.registry old q, omega arith, omega arith, refl)
  Loops-Moves (Loops.again i b s h w c rest) old q =
      let (new, l, d, f, g) = Loops-Moves rest _ (lookup-modify_self r.id _ s.registry old q) in
      (new, l, omega arith, omega arith, g)

  -- A delivery to a registered receiver moves its statistics by as much as the metrics: its delivered
  -- events by the successes, its failed events by the failures.
  pub perform_delivery_with_retries-Moves :
      (m : ℕ) (s : Run) (old : Receiver)
      → p.max_retries ≡ pos m
      → lookup r.id s.registry.receivers ≡ some old
      → Moves old s (perform_delivery_with_retries scale http p env r e s)
  perform_delivery_with_retries-Moves m s old pm =
      Loops-Moves (perform_delivery_with_retries-Loops scale http p env r e m s pm) old
