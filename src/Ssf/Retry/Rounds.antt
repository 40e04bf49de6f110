-- ===== src/Ssf/Retry/Rounds.antt =====
-- The number of rounds against the test `attempt <= cfg.MaxRetries` of
-- ssfreceiver/internal/retry/retry.go.
use caep_dev.Base.{
  ℕ, suc, ◌-◌, ◌≡◌, ◌≤◌, refl, ap, String, true, false, none, some, [], arith, Bool-cases, inl, inr,
  if◌then◌else◌,
}
use caep_dev.Base.Int.{ℤ, pos, negsuc, le_pos}
use caep_dev.Ssf.Retry.Defs.{
  Floats, Round, RetryConfig, Loop, Returned, max_retries_exceeded, new_backoff, unless_done, delay,
  answered, rounds_of, attempts, do_retry,
}
use caep_dev.Ssf.Retry.Steps.{calls, do_retry-calls}

-- the rounds that are left at an attempt
abbrev pub left : ℤ → (attempt : ℕ) → ℕ
left (pos n) i = suc n - i
left (negsuc n) i = 0

rounds_lem : (m : ℤ) → rounds_of m ≡ left m 0
rounds_lem (pos n) = omega arith
rounds_lem (negsuc n) = refl

left-more : (m : ℤ) (i : ℕ) → le_pos i m ≡ true → left m i ≡ suc (left m (suc i))
left-more (pos n) i h = ground (arith, h)
left-more (negsuc n) i h = absurd (cc h)

left-none : (m : ℤ) (i : ℕ) → le_pos i m ≡ false → left m i ≡ 0
left-none (pos n) i h = ground (arith, h)
left-none (negsuc n) i h = refl

module _ {F : Type 0} (floats : Floats F) (show : ℤ → String) (cfg : RetryConfig F)
    (env : ℕ → Round F) where
  -- the loop from an attempt on
  abbrev pub loop_from : (attempt : ℕ) → Loop F → Returned F
  loop_from i s = attempts floats show cfg env (left cfg.max_retries i) i s

  abbrev pub initial : Loop F
  initial = record {
    last_resp = none;
    last_err = none;
    backoff = new_backoff cfg.initial_backoff cfg.max_backoff cfg.backoff_multiplier;
    steps = [];
  }

  -- one turn, with the test of the `for` statement
  abbrev pub turn : (attempt : ℕ) → Loop F → Returned F
  turn i s =
      if le_pos i cfg.max_retries
      then unless_done i (env i).done
          (delay floats i (env i)
            (answered floats show cfg.retryable_status (env i).result (loop_from (suc i))))
          s
      else (s.last_resp, some (max_retries_exceeded cfg.max_retries s.last_err), s)

  do_retry-loop_from : do_retry floats show cfg env ≡ loop_from 0 initial
  unfolding do_retry
  do_retry-loop_from =
      ap (λ n. attempts floats show cfg env n 0 initial) (rounds_lem cfg.max_retries)

  loop_from-turn : (i : ℕ) (s : Loop F) → loop_from i s ≡ turn i s
  unfolding attempts
  loop_from-turn i s = elim (Bool-cases (le_pos i cfg.max_retries)) [
    | inl more ↦ rw (more, left-more cfg.max_retries i more) refl
    | inr done ↦ rw (done, left-none cfg.max_retries i done) refl
  ]

  -- With `n` as the maximum of retries, the loop ends after `n + 1` calls of the operation at most;
  -- and it is the `for` statement: it starts at attempt 0, and from each attempt on it makes a turn,
  -- which is the body, and then the loop from the next attempt on, if the attempt is at most the
  -- maximum, else the final error.
  pub do_retry-runs :
      (n : ℕ)
      → cfg.max_retries ≡ pos n
      → (calls (do_retry floats show cfg env).2.steps ≤ suc n)
        × (do_retry floats show cfg env ≡ loop_from 0 initial)
        × ((i : ℕ) (s : Loop F) → loop_from i s ≡ turn i s)
  do_retry-runs n max =
      (do_retry-calls floats show cfg env n max, do_retry-loop_from, loop_from-turn)
