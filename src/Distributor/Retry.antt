-- ===== src/Distributor/Retry.antt =====
-- How the retry loop of ssf-hub/internal/distributor/distributor.go ends.
use mathlib.Core.Path.{subst}
use mathlib.Core.Logic.{inl, inr}
use caep_dev.Base.{
  ℕ, zero, suc, ◌+◌, ◌≤◌, Bool, true, false, ◌≡◌, refl, sym, arith, Bool-cases, Option,
}
use caep_dev.Base.Int.{pos, le_pos}
use caep_dev.Models.Receiver.{Duration, Receiver}
use caep_dev.Models.Event.{SecurityEvent}
use caep_dev.Distributor.Defs.{RetryPolicy, Http, Request, WebhookResult, perform_webhook_delivery}
use caep_dev.Distributor.Loop.{
  Attempt, Run, record_attempt, succeed, fail, abandon, schedule, rounds_of, next_backoff, retry,
  round, attempts, perform_delivery_with_retries,
}

module _ (scale : Duration → ℕ → Duration) (p : RetryPolicy) (r : Receiver) where
  -- the three ways on from an attempt
  round-success :
      (i : ℕ) (a : Attempt) (q : Option Request × WebhookResult) (b : Duration)
      (continue : Duration → Run → Run) (s : Run)
      → q.1.success ≡ true
      → round scale p r i a q b continue s ≡ succeed r a (record_attempt i a q s)
  unfolding round
  round-success i a q b continue s h = rw h refl

  round-last :
      (i : ℕ) (a : Attempt) (q : Option Request × WebhookResult) (b : Duration)
      (continue : Duration → Run → Run) (s : Run)
      → q.1.success ≡ false
      → le_pos i p.max_retries ≡ false
      → round scale p r i a q b continue s
        ≡ continue b (abandon (fail r a q.1 (record_attempt i a q s)))
  unfolding round retry
  round-last i a q b continue s h t = rw (h, t) refl

  round-cancelled :
      (i : ℕ) (a : Attempt) (q : Option Request × WebhookResult) (b : Duration)
      (continue : Duration → Run → Run) (s : Run)
      → q.1.success ≡ false
      → le_pos i p.max_retries ≡ true
      → a.cancelled ≡ true
      → round scale p r i a q b continue s
        ≡ abandon (schedule a b (fail r a q.1 (record_attempt i a q s)))
  unfolding round retry
  round-cancelled i a q b continue s h t c = rw (h, t, c) refl

  round-again :
      (i : ℕ) (a : Attempt) (q : Option Request × WebhookResult) (b : Duration)
      (continue : Duration → Run → Run) (s : Run)
      → q.1.success ≡ false
      → le_pos i p.max_retries ≡ true
      → a.cancelled ≡ false
      → round scale p r i a q b continue s
        ≡ continue (next_backoff scale p b) (schedule a b (fail r a q.1 (record_attempt i a q s)))
  unfolding round retry
  round-again i a q b continue s h t c = rw (h, t, c) refl

module _ (scale : Duration → ℕ → Duration) (http : Http) (p : RetryPolicy) (env : ℕ → Attempt)
    (r : Receiver) (e : SecurityEvent) where
  abbrev pub result : ℕ → Option Request × WebhookResult
  result i = perform_webhook_delivery http r e (env i).answer

  -- Whether the attempt `i` is answered by a success.
  abbrev pub is_success : ℕ → Bool
  is_success i = (result i).1.success

  abbrev pub recorded : ℕ → Run → Run
  recorded i s = record_attempt i (env i) (result i) s

  abbrev pub failed_at : ℕ → Run → Run
  failed_at i s = fail r (env i) (result i).1 (recorded i s)

  -- `Loops m i b s t`: from the attempt `i` with the wait `b`, of `m + 1` attempts in all, the state
  -- `s` comes to `t`. An attempt succeeds; or it is the last and fails; or it fails and the wait is
  -- cancelled; or it fails and the next one goes on after the wait.
  pub data Loops (m : ℕ) : ℕ → Duration → Run → Run → Type 0 where
    won :
        (i : ℕ) (b : Duration) (s : Run)
        → i ≤ suc m
        → is_success i ≡ true
        → Loops m i b s (succeed r (env i) (recorded i s))
    lost :
        (i : ℕ) (b : Duration) (s : Run)
        → i ≡ suc m
        → is_success i ≡ false
        → Loops m i b s (abandon (failed_at i s))
    stopped :
        (i : ℕ) (b : Duration) (s : Run)
        → i ≤ m
        → is_success i ≡ false
        → (env i).cancelled ≡ true
        → Loops m i b s (abandon (schedule (env i) b (failed_at i s)))
    again :
        (i : ℕ) (b : Duration) (s : Run) {t : Run}
        → i ≤ m
        → is_success i ≡ false
        → (env i).cancelled ≡ false
        → Loops m (suc i) (next_backoff scale p b) (schedule (env i) b (failed_at i s)) t
        → Loops m i b s t

  attempts-last :
      (m i : ℕ) (b : Duration) (s : Run)
      → p.max_retries ≡ pos m
      → i ≡ suc m
      → is_success i ≡ false
      → Loops m i b s (attempts scale http p env r e 1 i b s)
  unfolding attempts
  attempts-last m i b s pm h no' =
      subst (Loops m i b s)
        (sym (
          round-last scale p r i (env i) (result i) b (attempts scale http p env r e 0 (suc i)) s
            no' (rw pm (ground arith))))
        (lost i b s h no')

  attempts-Loops :
      (m k i : ℕ) (b : Duration) (s : Run)
      → p.max_retries ≡ pos m
      → i + k ≡ suc m
      → Loops m i b s (attempts scale http p env r e (suc k) i b s)
  unfolding attempts
  attempts-Loops m zero i b s pm h = elim (Bool-cases (is_success i)) [
    | inl won' ↦
        subst (Loops m i b s)
          (sym (
            round-success scale p r i (env i) (result i) b (attempts scale http p env r e 0 (suc i))
              s won'))
          (won i b s (omega arith) won')
    | inr lost' ↦ attempts-last m i b s pm (omega arith) lost'
  ]
  attempts-Loops m (suc k) i b s pm h =
      let go = attempts scale http p env r e (suc k) (suc i) in
      let rest = attempts-Loops m k (suc i) (next_backoff scale p b) in
      let more : le_pos i p.max_retries ≡ true = rw pm (ground arith) in
      elim (Bool-cases (is_success i)) [
        | inl won' ↦
            subst (Loops m i b s) (sym (round-success scale p r i (env i) (result i) b go s won'))
              (won i b s (omega arith) won')
        | inr lost' ↦ elim (Bool-cases (env i).cancelled) [
          | inl c ↦
              subst (Loops m i b s)
                (sym (round-cancelled scale p r i (env i) (result i) b go s lost' more c))
                (stopped i b s (omega arith) lost' c)
          | inr c ↦
              subst (Loops m i b s)
                (sym (round-again scale p r i (env i) (result i) b go s lost' more c))
                (again i b s (omega arith) lost' c
                  (rest (schedule (env i) b (failed_at i s)) pm (omega arith)))
        ]
      ]

  -- The retry loop implements the relation: with `m` retries it ends, after the first attempt or by
  -- one of the ways on from it.
  pub perform_delivery_with_retries-Loops :
      (m : ℕ) (s : Run)
      → p.max_retries ≡ pos m
      → Loops m 1 p.initial_interval s (perform_delivery_with_retries scale http p env r e s)
  unfolding perform_delivery_with_retries
  perform_delivery_with_retries-Loops m s pm =
      subst
        (λ n.
          Loops m 1 p.initial_interval s
            (attempts scale http p env r e (rounds_of n) 1 p.initial_interval s))
        (sym pm) (attempts-Loops m m 1 p.initial_interval s pm (omega arith))
