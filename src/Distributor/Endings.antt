-- ===== src/Distributor/Endings.antt =====
-- The attempts that the retry loop of ssf-hub/internal/distributor/distributor.go makes, and the
-- state in which it leaves the delivery.
use mathlib.Core.Logic.{inl, inr}
use caep_dev.Base.{ℕ, zero, suc, ◌+◌, ◌≤◌, true, false, ◌≡◌, refl, ◌⊎◌, arith}
use caep_dev.Base.Int.{pos}
use caep_dev.Models.Receiver.{Duration, Receiver}
use caep_dev.Models.Event.{SecurityEvent, EventDelivery, delivered, abandoned}
use caep_dev.Distributor.Defs.{RetryPolicy, Http}
use caep_dev.Distributor.Loop.{
  Attempt, Run, record_attempt, succeed, fail, perform_delivery_with_retries,
}
use caep_dev.Distributor.Retry.{Loops, is_success, perform_delivery_with_retries-Loops}

module _ (scale : Duration → ℕ → Duration) (http : Http) (p : RetryPolicy) (env : ℕ → Attempt)
    (r : Receiver) (e : SecurityEvent) where
  -- The attempt failed, and the wait after it was not cancelled.
  abbrev pub WentOn : ℕ → Type 0
  WentOn j = (is_success scale http p env r e j ≡ false) × ((env j).cancelled ≡ false)

  -- So did each of the `k` attempts from `i` on.
  abbrev pub AllWentOn : (i k : ℕ) → Type 0
  AllWentOn i zero = Unit
  AllWentOn i (suc k) = WentOn i × AllWentOn (suc i) k

  -- How a delivery stands after the attempts from `i` on, of `m + 1` in all: every attempt before the
  -- last went on to the next. The last succeeded and the event is delivered; or it failed, was the
  -- `m + 1`-th or its wait was cancelled, and the delivery is abandoned.
  pub record Ends (m i : ℕ) (d : EventDelivery) : Type 0 where
    pub earlier : ℕ
    pub last : d.attempt ≡ i + earlier
    pub at_most : d.attempt ≤ suc m
    pub before : AllWentOn i earlier
    pub verdict :
        ((d.status ≡ delivered) × (is_success scale http p env r e d.attempt ≡ true))
        ⊎ ((d.status ≡ abandoned)
            × (is_success scale http p env r e d.attempt ≡ false)
            × ((d.attempt ≡ suc m) ⊎ ((env d.attempt).cancelled ≡ true)))

  Loops-Ends :
      {m i : ℕ} {b : Duration} {s t : Run}
      → Loops scale http p env r e m i b s t
      → Ends m i t.delivery
  unfolding succeed record_attempt fail
  Loops-Ends (Loops.won i b s h w) = record {
    earlier = 0;
    last = omega arith;
    at_most = h;
    before = tt;
    verdict = inl (refl, w);
  }
  Loops-Ends (Loops.lost i b s h w) = record {
    earlier = 0;
    last = omega arith;
    at_most = omega arith;
    before = tt;
    verdict = inr (refl, w, inl h);
  }
  Loops-Ends (Loops.stopped i b s h w c) = record {
    earlier = 0;
    last = omega arith;
    at_most = omega arith;
    before = tt;
    verdict = inr (refl, w, inr c);
  }
  Loops-Ends (Loops.again i b s {t = t} h w c rest) =
      let ih = Loops-Ends rest in
      record {
        earlier = suc ih.earlier;
        last = omega (arith, ih.last);
        at_most = ih.at_most;
        before = ((w, c), ih.before);
        verdict = ih.verdict;
      }

  -- With `m` retries the loop makes at least one attempt and at most `m + 1`, goes on only after a
  -- failure whose wait is not cancelled, and leaves the delivery delivered exactly when its last
  -- attempt succeeded, and else abandoned.
  pub perform_delivery_with_retries-Ends :
      (m : ℕ) (s : Run)
      → p.max_retries ≡ pos m
      → Ends m 1 (perform_delivery_with_retries scale http p env r e s).delivery
  perform_delivery_with_retries-Ends m s pm =
      Loops-Ends (perform_delivery_with_retries-Loops scale http p env r e m s pm)
