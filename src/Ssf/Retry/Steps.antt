-- ===== src/Ssf/Retry/Steps.antt =====
-- What the loop of ssfreceiver/internal/retry/retry.go does outside the program.
use caep_dev.Base.{
  ℕ, suc, ◌+◌, ◌≤◌, ◌≡◌, refl, String, List, [], ◌∷◌, ◌++◌, none, some, Option, arith, Result, ok,
  err,
}
use caep_dev.Base.Int.{ℤ, pos}
use caep_dev.Models.Receiver.{Duration}
use caep_dev.Ssf.Retry.Defs.{
  Floats, Response, Step, call, sleep, closing, close, Round, RetryConfig, Backoff, Loop, slept,
  hold, refuse, rounds_of, do_retry,
}
use caep_dev.Ssf.Retry.Loop.{attempts-elim}

-- the responses that the operation returned, and those that were closed, in order
unfoldable pub received : List Step → List Response
received [] = []
received (call (err e) ∷ ts) = received ts
received (call (ok none) ∷ ts) = received ts
received (call (ok (some r)) ∷ ts) = r ∷ received ts
received (sleep d ∷ ts) = received ts
received (close r ∷ ts) = received ts

unfoldable pub closed : List Step → List Response
closed [] = []
closed (call x ∷ ts) = closed ts
closed (sleep d ∷ ts) = closed ts
closed (close r ∷ ts) = r ∷ closed ts

unfoldable pub calls : List Step → ℕ
calls [] = 0
calls (call x ∷ ts) = suc (calls ts)
calls (sleep d ∷ ts) = calls ts
calls (close r ∷ ts) = calls ts

abbrev pub listed : Option Response → List Response
listed none = []
listed (some r) = r ∷ []

append_nil : (xs : List Response) → xs ++ [] ≡ xs
append_nil [] = refl
append_nil (x ∷ xs) = cc (append_nil xs)

received-append : (ts us : List Step) → received (ts ++ us) ≡ received ts ++ received us
unfolding received
received-append [] us = refl
received-append (call (err e) ∷ ts) us = received-append ts us
received-append (call (ok none) ∷ ts) us = received-append ts us
received-append (call (ok (some r)) ∷ ts) us = cc (received-append ts us)
received-append (sleep d ∷ ts) us = received-append ts us
received-append (close r ∷ ts) us = received-append ts us

closed-append : (ts us : List Step) → closed (ts ++ us) ≡ closed ts ++ closed us
unfolding closed
closed-append [] us = refl
closed-append (call x ∷ ts) us = closed-append ts us
closed-append (sleep d ∷ ts) us = closed-append ts us
closed-append (close r ∷ ts) us = cc (closed-append ts us)

calls-append : (ts us : List Step) → calls (ts ++ us) ≡ calls ts + calls us
unfolding calls
calls-append [] us = omega arith
calls-append (call x ∷ ts) us = omega (arith, calls-append ts us)
calls-append (sleep d ∷ ts) us = calls-append ts us
calls-append (close r ∷ ts) us = calls-append ts us

calls-closing :
    (x : Result String (Option Response)) (o : Option Response) → calls (call x ∷ closing o) ≡ 1
unfolding calls
calls-closing x none = refl
calls-closing x (some r) = refl

closed-closing :
    (x : Result String (Option Response)) (o : Option Response)
    → closed (call x ∷ closing o) ≡ listed o
unfolding closed
closed-closing x none = refl
closed-closing x (some r) = refl

received-closing : (x o : Option Response) → received (call (ok x) ∷ closing o) ≡ listed x
unfolding received
received-closing none none = refl
received-closing none (some r) = refl
received-closing (some y) none = refl
received-closing (some y) (some r) = refl

-- Of the responses that were received, all but the one that is held are closed.
abbrev pub Accounts : {F : Type 0} → Loop F → Type 0
Accounts s = closed s.steps ++ listed s.last_resp ≡ received s.steps

module _ {F : Type 0} (floats : Floats F) (show : ℤ → String) (cfg : RetryConfig F)
    (env : ℕ → Round F) where
  Accounts-slept :
      (n : ℕ) (x : Duration × Backoff F) (s : Loop F) → Accounts s → Accounts (slept x s)
  unfolding received closed
  Accounts-slept n (d, b) s h =
      rw
        (
          closed-append s.steps (sleep d ∷ []),
          received-append s.steps (sleep d ∷ []),
          append_nil (closed s.steps),
          append_nil (received s.steps),
        )
        h

  Accounts-refuse : (n : ℕ) (e : String) (s : Loop F) → Accounts s → Accounts (refuse e s)
  unfolding received closed
  Accounts-refuse n e s h =
      rw
        (
          closed-append s.steps (call (err e) ∷ []),
          received-append s.steps (call (err e) ∷ []),
          append_nil (closed s.steps),
          append_nil (received s.steps),
        )
        h

  Accounts-hold :
      (n : ℕ) (resp : Option Response) (e : Option String) (s : Loop F)
      → Accounts s
      → Accounts (record (hold resp s) { last_err = e })
  Accounts-hold n resp e s h =
      let ts : List Step = call (ok resp) ∷ closing s.last_resp in
      rw
        (
          closed-append s.steps ts,
          received-append s.steps ts,
          closed-closing (ok resp) s.last_resp,
          received-closing resp s.last_resp,
          h,
        )
        refl

  -- Whatever happens, the responses closed and the one held at the end are, in order, all that were
  -- received.
  pub do_retry-Accounts : Accounts (do_retry floats show cfg env).2
  unfolding do_retry received closed
  do_retry-Accounts =
      attempts-elim floats show cfg env (λ n. Accounts) Accounts Accounts-slept Accounts-refuse
        Accounts-hold (λ n s h. h) (rounds_of cfg.max_retries) 0 _ refl

  -- With `n` as the maximum of retries, the operation is called `n + 1` times at most.
  pub do_retry-calls :
      (n : ℕ) → cfg.max_retries ≡ pos n → calls (do_retry floats show cfg env).2.steps ≤ suc n
  unfolding do_retry calls
  do_retry-calls n max =
      attempts-elim floats show cfg env (λ k s. calls s.steps + k ≤ suc n)
        (λ s. calls s.steps ≤ suc n)
        (λ k (d, b) s h. omega (arith, calls-append s.steps (sleep d ∷ []), h))
        (λ k e s h. omega (arith, calls-append s.steps (call (err e) ∷ []), h))
        (λ k resp e s h. omega (
          arith,
          calls-append s.steps (call (ok resp) ∷ closing s.last_resp),
          calls-closing (ok resp) s.last_resp,
          h,
        ))
        (λ k s h. omega (arith, h)) (rounds_of cfg.max_retries) 0 _ (rw max (omega arith))
