-- ===== src/Distributor/Waits.antt =====
-- What a delivery of ssf-hub/internal/distributor/distributor.go waits for.
use mathlib.Core.Logic.{inl, inr}
use caep_dev.Base.{
  ℕ, false, List, [], ◌∷◌, ◌++◌, Option, none, some, ◌≡◌, refl, ◌⊎◌, arith, Bool-cases, All,
}
use caep_dev.Base.Int.{ℤ, pos, negsuc, ltℤ}
use caep_dev.Models.Receiver.{Duration, Receiver}
use caep_dev.Models.Event.{SecurityEvent}
use caep_dev.Distributor.Defs.{RetryPolicy, Http, Request}
use caep_dev.Distributor.Loop.{
  Attempt, Effect, post, wait, Run, record_attempt, succeed, fail, next_backoff,
  perform_delivery_with_retries, posted,
}
use caep_dev.Distributor.Retry.{Loops, result, recorded, perform_delivery_with_retries-Loops}

All-append {ℓ} :
    {A : Type ℓ} (P : A → Type 0) (xs ys : List A) → All P xs → All P ys → All P (xs ++ ys)
All-append P [] ys hx hy = hy
All-append P (x ∷ xs) ys (h, hx) hy = (h, All-append P xs ys hx hy)

ltℤ_irrefl : (a : ℤ) → ltℤ a a ≡ false
ltℤ_irrefl (pos n) = ground arith
ltℤ_irrefl (negsuc n) = ground arith

-- A wait is the first one of the policy, or at most its longest.
abbrev pub IsBounded : RetryPolicy → Duration → Type 0
IsBounded p d = (d ≡ p.initial_interval) ⊎ (ltℤ p.max_interval d ≡ false)

abbrev pub WaitIsBounded : RetryPolicy → Effect → Type 0
WaitIsBounded p (post q) = Unit
WaitIsBounded p (wait d) = IsBounded p d

next_backoff-IsBounded :
    (scale : Duration → ℕ → Duration) (p : RetryPolicy) (b : Duration)
    → IsBounded p (next_backoff scale p b)
unfolding next_backoff
next_backoff-IsBounded scale p b = elim (Bool-cases (ltℤ p.max_interval (scale b p.multiplier))) [
  | inl long ↦ inr (rw long (ltℤ_irrefl p.max_interval))
  | inr short ↦ inr (rw short short)
]

posted-WaitIsBounded : (p : RetryPolicy) (q : Option Request) → All (WaitIsBounded p) (posted q)
posted-WaitIsBounded p none = tt
posted-WaitIsBounded p (some q) = (tt, tt)

module _ (scale : Duration → ℕ → Duration) (http : Http) (p : RetryPolicy) (env : ℕ → Attempt)
    (r : Receiver) (e : SecurityEvent) where
  recorded-bounded :
      (i : ℕ) (s : Run)
      → All (WaitIsBounded p) s.effects
      → All (WaitIsBounded p) (recorded scale http p env r e i s).effects
  unfolding record_attempt
  recorded-bounded i s h =
      All-append (WaitIsBounded p) s.effects (posted (result scale http p env r e i).0) h
        (posted-WaitIsBounded p (result scale http p env r e i).0)

  Loops-bounded :
      {m i : ℕ} {b : Duration} {s t : Run}
      → Loops scale http p env r e m i b s t
      → IsBounded p b
      → All (WaitIsBounded p) s.effects
      → All (WaitIsBounded p) t.effects
  unfolding succeed fail
  Loops-bounded (Loops.won i b s h w) hb hs = recorded-bounded i s hs
  Loops-bounded (Loops.lost i b s h w) hb hs = recorded-bounded i s hs
  Loops-bounded (Loops.stopped i b s h w c) hb hs =
      All-append (WaitIsBounded p) (recorded scale http p env r e i s).effects _
        (recorded-bounded i s hs) (hb, tt)
  Loops-bounded (Loops.again i b s h w c rest) hb hs =
      Loops-bounded rest (next_backoff-IsBounded scale p b) (
        All-append (WaitIsBounded p) (recorded scale http p env r e i s).effects _
          (recorded-bounded i s hs) (hb, tt))

  -- Every wait of a delivery is the initial interval or at most the maximal one, whatever the
  -- multiplication of the wait gives.
  pub perform_delivery_with_retries-bounded :
      (m : ℕ) (s : Run)
      → p.max_retries ≡ pos m
      → All (WaitIsBounded p) s.effects
      → All (WaitIsBounded p) (perform_delivery_with_retries scale http p env r e s).effects
  perform_delivery_with_retries-bounded m s pm =
      Loops-bounded (perform_delivery_with_retries-Loops scale http p env r e m s pm) (inl refl)
