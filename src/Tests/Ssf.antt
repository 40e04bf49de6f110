-- ===== src/Tests/Ssf.antt =====
-- The theorems on ssfreceiver at concrete inputs.
use caep_dev.Base.{
  ℕ, zero, suc, ◌≡◌, ◌≢◌, ◌↔◌, ◌≤◌, refl, String, true, false, length, [], ◌∷◌, ◌++◌, List, All,
  Holds, none, some, Option, Result, ok, returns,
}
use caep_dev.Base.Int.{ℤ, pos}
use caep_dev.Ssf.Types.{StreamConfiguration}
use caep_dev.Ssf.Retry.Defs.{Floats, Response, Step, Round, Loop, default_retry_config, do_retry}
use caep_dev.Ssf.Retry.Steps.{received, closed, calls, listed, do_retry-Accounts}
use caep_dev.Ssf.Retry.Rounds.{loop_from, initial, turn, do_retry-runs}
use caep_dev.Ssf.Stream.{Outgoing, TransmitterMetadata, new_stream, get_authorizer, update_status}
use caep_dev.Ssf.Sending.{observed, once, new_stream-never_retries}
use caep_dev.Ssf.Operations.{IsStatus, IsAnswered, update_status_iff}
use mathlib.Core.Logic.{inl, inr}
use caep_dev.Ssf.Validation.{event_types_match}
use caep_dev.Ssf.Matching.{event_types_match_iff}

-- integers in place of float64
abbrev integers : Floats ℤ
integers = record {
  of_int = λ a. a;
  power = λ a n. a;
  times = λ a b. a;
  above = λ a b. false;
  truncate = λ a. a;
  jitter = λ a. a;
  at_most_one = λ a. false;
  two = pos 2;
  zero_value = pos 0;
}

abbrev shown : ℤ → String
shown c = "503"

abbrev unavailable : Response
unavailable = record { status_code = pos 503; body = "" }

abbrev fine : Response
fine = record { status_code = pos 200; body = "" }

abbrev met : Result String (Option Response) → Round ℤ
met x = record { done = none; done_waiting = none; random = pos 1; result = x }

abbrev recovers : ℕ → Round ℤ
recovers zero = met (ok (some unavailable))
recovers (suc n) = met (ok (some fine))

-- two calls, and the first response is closed
closes_first :
    closed (do_retry integers shown (default_retry_config integers) recovers).2.steps
    ≡ unavailable ∷ []
unfolding do_retry closed default_retry_config
closes_first = refl

do_retry-Accounts_example :
    closed (do_retry integers shown (default_retry_config integers) recovers).2.steps
      ++ listed (do_retry integers shown (default_retry_config integers) recovers).2.last_resp
    ≡ received (do_retry integers shown (default_retry_config integers) recovers).2.steps
do_retry-Accounts_example =
    do_retry-Accounts integers shown (default_retry_config integers) recovers

do_retry-runs_example :
    (calls (do_retry integers shown (default_retry_config integers) recovers).2.steps ≤ 4)
    × (do_retry integers shown (default_retry_config integers) recovers
        ≡ loop_from integers shown
            (default_retry_config integers)
            recovers
            0
            (initial integers shown (default_retry_config integers) recovers))
    × ((i : ℕ) (s : Loop ℤ)
        → loop_from integers shown (default_retry_config integers) recovers i s
          ≡ turn integers shown (default_retry_config integers) recovers i s)
unfolding default_retry_config
do_retry-runs_example = do_retry-runs integers shown (default_retry_config integers) recovers 3 refl

abbrev endpoints : TransmitterMetadata
endpoints = record {
  configuration_endpoint = none;
  status_endpoint = none;
  verification_endpoint = none;
}

abbrev configuration : StreamConfiguration
configuration = record {
  stream_id = "s";
  issuer = none;
  audience = [];
  delivery = record { method = "urn:ietf:rfc:8936"; endpoint_url = none };
  events_supported = [];
  events_requested = [];
  events_delivered = [];
  min_verification_interval = pos 0;
  description = "";
}

-- the policy names 503, but the response is returned
new_stream-never_retries_example :
    observed (
      do_retry integers shown
        (new_stream integers "s" endpoints configuration ok
          (default_retry_config integers)
          []).retry_config
        recovers)
    ≡ once none (ok (some unavailable))
new_stream-never_retries_example =
    new_stream-never_retries integers shown "s" endpoints configuration ok
      (default_retry_config integers) [] recovers

abbrev with_status : TransmitterMetadata
with_status = record endpoints {
  status_endpoint = some (record { text = "https://t.example/status"; scheme = "https" });
}

-- every request is answered with status 200
abbrev answers : Outgoing → ℕ → Round ℤ
answers q n = met (ok (some fine))

update_status_iff_example :
    ((steps : List Step) × (update_status integers shown
          (λ u. none)
          answers
          (new_stream integers "s" with_status configuration ok (default_retry_config integers) [])
          "paused"
          []
        ≡ returns (none, steps)))
    ↔ ((◌≢◌ {A = String} "s" "")
        × IsStatus "paused"
        × IsAnswered integers shown
            (λ u. none)
            answers
            "s"
            with_status
            configuration
            ok
            (default_retry_config integers)
            []
            "paused"
            [])
update_status_iff_example =
    update_status_iff integers shown (λ u. none) answers "s" with_status configuration ok
      (default_retry_config integers) [] "paused" []

-- and so the pause succeeds
pauses :
    (steps : List Step) × (update_status integers shown
        (λ u. none)
        answers
        (new_stream integers "s" with_status configuration ok (default_retry_config integers) [])
        "paused"
        []
      ≡ returns (none, steps))
unfolding get_authorizer caep_dev.Ssf.Stream.apply new_stream
pauses =
    (update_status_iff integers shown (λ u. none) answers "s" with_status configuration ok
        (default_retry_config integers) [] "paused" []).1
      ((λ h. cc h), inr (inl refl), (_, refl, refl, _, refl, refl, fine, refl, refl))

abbrev requested : List String
requested = "session" ∷ "device" ∷ []

abbrev repeated : List String
repeated = "session" ∷ "session" ∷ []

event_types_match_iff_example :
    (event_types_match requested repeated ≡ true)
    ↔ ((length requested ≡ length repeated) × All (λ e. Holds e requested) repeated)
event_types_match_iff_example = event_types_match_iff requested repeated

-- the sets differ, and the test holds
matches_repeated : event_types_match requested repeated ≡ true
unfolding event_types_match
matches_repeated = refl
