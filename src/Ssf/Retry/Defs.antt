-- ===== src/Ssf/Retry/Defs.antt =====
-- ssfreceiver/internal/config/config.go and ssfreceiver/internal/retry: the policy, the backoff and the
-- loop. What each round meets outside the program is an argument.
use Prim.Native.String
use mathlib.Core.Option
use caep_dev.Base.{
  ℕ, zero, suc, String, Bool, true, false, not, ◌||◌, Option, none, some, List, [], ◌∷◌, ◌++◌,
  if◌then◌else◌, Result, ok, err,
}
use caep_dev.Base.Int.{ℤ, pos, negsuc, ltℤ}
use caep_dev.Models.Receiver.{Duration}

abbrev pub eqℤ : ℤ → ℤ → Bool
eqℤ a b = if ltℤ a b then false else if ltℤ b a then false else true

-- Go's float64 as the package uses it: `power b n` is `math.Pow(b, float64(n))`, `truncate` the
-- conversion to a duration, and `jitter r` is `0.8 + 0.2*r`. `zero_value` is the float64 of a zero
-- `RetryConfig`.
pub record Floats (F : Type 0) : Type 0 where
  pub of_int : ℤ → F
  pub power : F → ℕ → F
  pub times : F → F → F
  pub above : F → F → Bool
  pub truncate : F → ℤ
  pub jitter : F → F
  pub at_most_one : F → Bool
  pub two : F
  pub zero_value : F

-- `map[int]bool`, where a nil map is `none`
abbrev pub StatusMap : Type 0
StatusMap = Option (List (ℤ × Bool))

unfoldable pub at_status : List (ℤ × Bool) → ℤ → Bool
at_status [] code = false
at_status ((c, b) ∷ m) code = if eqℤ c code then b else at_status m code

unfoldable pub is_retryable : StatusMap → ℤ → Bool
unfolding at_status
is_retryable none code = false
is_retryable (some m) code = at_status m code

unfoldable pub default_retryable_status : StatusMap
default_retryable_status = some (
    (pos 408, true)
    ∷ (pos 429, true)
    ∷ (pos 500, true)
    ∷ (pos 502, true)
    ∷ (pos 503, true)
    ∷ (pos 504, true)
    ∷ [])

-- The errors of `Validate`.
pub data PolicyError : Type 0 where
  negative_retries : PolicyError
  initial_not_positive : PolicyError
  max_below_initial : PolicyError
  multiplier_too_small : PolicyError
  nil_statuses : PolicyError
  invalid_status : ℤ → PolicyError

-- `http.Response`; the body is open until it is closed
pub record Response : Type 0 where
  pub status_code : ℤ
  pub body : String

pub data RetryError : Type 0 where
  cancelled_after : (attempts : ℕ) (last : String) → RetryError
  context_error : String → RetryError
  max_retries_exceeded : (max_retries : ℤ) (last : Option String) → RetryError

pub data Step : Type 0 where
  call : Result String (Option Response) → Step
  sleep : Duration → Step
  close : Response → Step

-- What a round meets: the error of the context at its start and during the delay, the random number of
-- the jitter, and what the operation returns.
pub record Round (F : Type 0) : Type 0 where
  pub done : Option String
  pub done_waiting : Option String
  pub random : F
  pub result : Result String (Option Response)

pub record RetryConfig (F : Type 0) : Type 0 where
  pub max_retries : ℤ
  pub initial_backoff : Duration
  pub max_backoff : Duration
  pub backoff_multiplier : F
  pub retryable_status : StatusMap

pub record Backoff (F : Type 0) : Type 0 where
  pub current : Duration
  pub max : Duration
  pub multiplier : F
  pub attempt_count : ℕ

abbrev pub new_backoff : {F : Type 0} → (initial max : Duration) → F → Backoff F
new_backoff initial max multiplier = record {
  current = initial;
  max = max;
  multiplier = multiplier;
  attempt_count = 0;
}

-- The state of the loop, with what it did outside the program.
pub record Loop (F : Type 0) : Type 0 where
  pub last_resp : Option Response
  pub last_err : Option String
  pub backoff : Backoff F
  pub steps : List Step

abbrev pub Returned : Type 0 → Type 0
Returned F = Option Response × Option RetryError × Loop F

-- the error when the context ends
abbrev stop_error : (attempt : ℕ) → String → Option String → RetryError
stop_error attempt e none = context_error e
stop_error attempt e (some last) = cancelled_after attempt last

abbrev pub closing : Option Response → List Step
closing none = []
closing (some r) = close r ∷ []

-- `MaxRetries + 1` rounds, or none if that is not positive
abbrev pub rounds_of : ℤ → ℕ
rounds_of (pos n) = suc n
rounds_of (negsuc n) = 0

module _ {F : Type 0} where
  abbrev pub stop : (attempt : ℕ) → String → Loop F → Returned F
  stop attempt e s = (none, some (stop_error attempt e s.last_err), s)

  -- `continue` is what follows unless the context has ended.
  abbrev pub unless_done :
      (attempt : ℕ) → Option String → (continue : Loop F → Returned F) → Loop F → Returned F
  unless_done attempt none continue s = continue s
  unless_done attempt (some e) continue s = stop attempt e s

  abbrev pub slept : Duration × Backoff F → Loop F → Loop F
  slept (d, b) s = record s { backoff = b; steps = s.steps ++ sleep d ∷ [] }

  -- The operation returned a response, which replaces the last one.
  abbrev pub hold : Option Response → Loop F → Loop F
  hold resp s = record s {
    last_resp = resp;
    last_err = none;
    steps = s.steps ++ call (ok resp) ∷ closing s.last_resp;
  }

  abbrev pub refuse : String → Loop F → Loop F
  refuse e s = record s { last_err = some e; steps = s.steps ++ call (err e) ∷ [] }

module _ {F : Type 0} (floats : Floats F) where
  unfoldable pub default_retry_config : RetryConfig F
  unfolding default_retryable_status
  default_retry_config = record {
    max_retries = pos 3;
    initial_backoff = pos 1000000000;
    max_backoff = pos 30000000000;
    backoff_multiplier = floats.two;
    retryable_status = default_retryable_status;
  }

  -- the first status of the map that is out of range
  unfoldable pub bad_status : List (ℤ × Bool) → Option ℤ
  bad_status [] = none
  bad_status ((c, b) ∷ m) = if ltℤ c (pos 100) || ltℤ (pos 599) c then some c else bad_status m

  abbrev pub statuses_error : StatusMap → Option PolicyError
  unfolding bad_status
  statuses_error none = some nil_statuses
  statuses_error (some m) = Option.map invalid_status (bad_status m)

  unfoldable pub validate : RetryConfig F → Option PolicyError
  unfolding bad_status
  validate r =
      if ltℤ r.max_retries (pos 0)
      then some negative_retries
      else if not (ltℤ (pos 0) r.initial_backoff)
      then some initial_not_positive
      else if ltℤ r.max_backoff r.initial_backoff
      then some max_below_initial
      else if floats.at_most_one r.backoff_multiplier
      then some multiplier_too_small
      else statuses_error r.retryable_status

  abbrev capped : (max grown : F) → F
  capped max grown = if floats.above grown max then max else grown

  unfoldable pub next : (random : F) → Backoff F → Duration × Backoff F
  next random b = (
    floats.truncate (
        floats.times
          (capped (floats.of_int b.max)
            (floats.times (floats.of_int b.current) (floats.power b.multiplier b.attempt_count)))
          (floats.jitter random)),
    record b { attempt_count = suc b.attempt_count },
  )

  -- The delay before every attempt but the first.
  unfoldable pub delay :
      (attempt : ℕ) → Round F → (continue : Loop F → Returned F) → Loop F → Returned F
  unfolding next
  delay zero r continue s = continue s
  delay (suc n) r continue s =
      unless_done (suc n) r.done_waiting continue (slept (next r.random s.backoff) s)

  -- `show` prints a status code.
  module _ (show : ℤ → String) (statuses : StatusMap) where
    unfoldable pub answered :
        Result String (Option Response) → (continue : Loop F → Returned F) → Loop F → Returned F
    unfolding is_retryable
    answered (err e) continue s = continue (refuse e s)
    answered (ok none) continue s = (none, none, hold none s)
    answered (ok (some r)) continue s =
        if is_retryable statuses r.status_code
        then continue (record (hold (some r) s) {
          last_err = some (String.◌++◌ "received retryable status " (show r.status_code));
        })
        else (some r, none, hold (some r) s)

  module _ (show : ℤ → String) (cfg : RetryConfig F) (env : ℕ → Round F) where
    -- The loop with `rounds` rounds to go.
    unfoldable pub attempts : (rounds attempt : ℕ) → Loop F → Returned F
    unfolding delay answered
    attempts zero attempt s =
        (s.last_resp, some (max_retries_exceeded cfg.max_retries s.last_err), s)
    attempts (suc rounds) attempt s =
        unless_done attempt (env attempt).done
          (delay attempt (env attempt) (
            answered show cfg.retryable_status (env attempt).result
              (attempts rounds (suc attempt))))
          s

    unfoldable pub do_retry : Returned F
    unfolding attempts
    do_retry = attempts (rounds_of cfg.max_retries) 0 (record {
      last_resp = none;
      last_err = none;
      backoff = new_backoff cfg.initial_backoff cfg.max_backoff cfg.backoff_multiplier;
      steps = [];
    })
