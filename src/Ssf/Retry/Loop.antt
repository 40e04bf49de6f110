-- ===== src/Ssf/Retry/Loop.antt =====
-- Induction over the loop of ssfreceiver/internal/retry/retry.go.
use caep_dev.Base.{ℕ, zero, suc, String, Option, none, some, Result, ok, err, Bool-cases, inl, inr}
use caep_dev.Base.Int.{ℤ}
use caep_dev.Models.Receiver.{Duration}
use caep_dev.Ssf.Retry.Defs.{
  Floats, is_retryable, Response, Round, RetryConfig, Backoff, Loop, next, Returned, unless_done,
  slept, delay, hold, refuse, answered, attempts,
}

-- `Q n s` holds of a state with `n` rounds to go, and what it gives of a last state is `P`.
module _ {F : Type 0} (floats : Floats F) (show : ℤ → String) (cfg : RetryConfig F)
    (env : ℕ → Round F) (Q : ℕ → Loop F → Type 0) (P : Loop F → Type 0)
    (after_sleep : (n : ℕ) (x : Duration × Backoff F) (s : Loop F) → Q n s → Q n (slept x s))
    (after_error : (n : ℕ) (e : String) (s : Loop F) → Q (suc n) s → Q n (refuse e s))
    (after_response : (n : ℕ) (resp : Option Response) (e : Option String) (s : Loop F)
      → Q (suc n) s
      → Q n (record (hold resp s) { last_err = e }))
    (at_end : (n : ℕ) (s : Loop F) → Q n s → P s) where
  unless_done-elim :
      (n i : ℕ) (d : Option String) (continue : Loop F → Returned F) (s : Loop F)
      → Q n s
      → ((s' : Loop F) → Q n s' → P (continue s').2)
      → P (unless_done i d continue s).2
  unless_done-elim n i none continue s q h = h s q
  unless_done-elim n i (some e) continue s q h = at_end n s q

  delay-elim :
      (n i : ℕ) (r : Round F) (continue : Loop F → Returned F) (s : Loop F)
      → Q n s
      → ((s' : Loop F) → Q n s' → P (continue s').2)
      → P (delay floats i r continue s).2
  unfolding delay
  delay-elim n zero r continue s q h = h s q
  delay-elim n (suc i) r continue s q h =
      unless_done-elim n (suc i) r.done_waiting continue _
        (after_sleep n (next floats r.random s.backoff) s q) h

  answered-elim :
      (n : ℕ) (x : Result String (Option Response)) (continue : Loop F → Returned F) (s : Loop F)
      → Q (suc n) s
      → ((s' : Loop F) → Q n s' → P (continue s').2)
      → P (answered floats show cfg.retryable_status x continue s).2
  unfolding answered
  answered-elim n (err e) continue s q h = h _ (after_error n e s q)
  answered-elim n (ok none) continue s q h = at_end n _ (after_response n none none s q)
  answered-elim n (ok (some r)) continue s q h =
      elim (Bool-cases (is_retryable cfg.retryable_status r.status_code)) [
        | inl again ↦ rw again (h _ (after_response n (some r) _ s q))
        | inr final ↦ rw final (at_end n _ (after_response n (some r) none s q))
      ]

  pub attempts-elim : (n i : ℕ) (s : Loop F) → Q n s → P (attempts floats show cfg env n i s).2
  unfolding attempts
  attempts-elim zero i s q = at_end zero s q
  attempts-elim (suc n) i s q = unless_done-elim (suc n) i (env i).done _ s q (λ s' q'.
      delay-elim (suc n) i (env i) _ s' q' (λ s'' q''.
        answered-elim n (env i).result (attempts floats show cfg env n (suc i)) s'' q''
          (attempts-elim n (suc i))))
