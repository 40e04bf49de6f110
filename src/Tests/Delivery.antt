-- ===== src/Tests/Delivery.antt =====
-- The theorems on ssf-hub/internal/distributor at concrete inputs.
use mathlib.Core.Logic.{inl}
use caep_dev.Base.{
  ℕ, String, List, [], ◌∷◌, Option, none, some, ◌≡◌, refl, arith, returns, All, false,
}
use caep_dev.Base.Dict.{lookup}
use caep_dev.Models.Receiver.{Receiver, auth_hmac}
use caep_dev.Distributor.{
  perform_delivery_with_retries, distribute_to_receivers, default_policy, response,
  perform_webhook_delivery,
}
use caep_dev.Distributor.Dispatch.{Starts, distribute_to_receivers-Starts}
use caep_dev.Distributor.Retry.{Loops, perform_delivery_with_retries-Loops}
use caep_dev.Distributor.Endings.{Ends, perform_delivery_with_retries-Ends}
use caep_dev.Distributor.Counters.{
  CountsFrom, Moves, perform_delivery_with_retries-counts, perform_delivery_with_retries-Moves,
}
use caep_dev.Distributor.Waits.{WaitIsBounded, perform_delivery_with_retries-bounded}
use caep_dev.Distributor.Unimplemented.{perform_webhook_delivery-unimplemented}
use caep_dev.Tests.Data.{alpha, beta, two, event, message, scale, http, attempt_at, fresh}

starts_both : distribute_to_receivers two message ≡ returns (alpha ∷ beta ∷ [])
unfolding distribute_to_receivers lookup caep_dev.Base.copy caep_dev.Models.Filter.filter_matches
    caep_dev.Models.Filter.extract_field_value caep_dev.Models.Filter.contains
starts_both = refl

distribute_to_receivers-Starts_example :
    Starts two message.event message.routing.target_receivers (alpha ∷ beta ∷ [])
distribute_to_receivers-Starts_example =
    distribute_to_receivers-Starts two message (alpha ∷ beta ∷ []) starts_both

perform_delivery_with_retries-Loops_example :
    Loops scale http default_policy attempt_at alpha event 3 1 default_policy.initial_interval fresh
      (perform_delivery_with_retries scale http default_policy attempt_at alpha event fresh)
perform_delivery_with_retries-Loops_example =
    perform_delivery_with_retries-Loops scale http default_policy attempt_at alpha event 3 fresh
      refl

perform_delivery_with_retries-Ends_example :
    Ends scale http default_policy attempt_at alpha event 3 1
      (perform_delivery_with_retries scale http default_policy attempt_at alpha event
        fresh).delivery
perform_delivery_with_retries-Ends_example =
    perform_delivery_with_retries-Ends scale http default_policy attempt_at alpha event 3 fresh refl

perform_delivery_with_retries-counts_example :
    CountsFrom 1 fresh
      (perform_delivery_with_retries scale http default_policy attempt_at alpha event fresh)
perform_delivery_with_retries-counts_example =
    perform_delivery_with_retries-counts scale http default_policy attempt_at alpha event 3 fresh
      refl

stored : lookup "alpha" two.receivers ≡ some alpha
unfolding lookup
stored = refl

perform_delivery_with_retries-Moves_example :
    Moves scale http default_policy attempt_at alpha event alpha fresh
      (perform_delivery_with_retries scale http default_policy attempt_at alpha event fresh)
perform_delivery_with_retries-Moves_example =
    perform_delivery_with_retries-Moves scale http default_policy attempt_at alpha event 3 fresh
      alpha refl stored

perform_delivery_with_retries-bounded_example :
    All
      (WaitIsBounded default_policy)
      (perform_delivery_with_retries scale http default_policy attempt_at alpha event fresh).effects
perform_delivery_with_retries-bounded_example =
    perform_delivery_with_retries-bounded scale http default_policy attempt_at alpha event 3 fresh
      refl tt

abbrev by_hmac : Receiver
by_hmac = record alpha { auth = record alpha.auth { type = auth_hmac; secret = "s" } }

perform_webhook_delivery-unimplemented_example :
    ((perform_webhook_delivery http by_hmac event (response 200 "")).0 ≡ none)
    × ((perform_webhook_delivery http by_hmac event (response 200 "")).1.success ≡ false)
perform_webhook_delivery-unimplemented_example =
    perform_webhook_delivery-unimplemented http by_hmac event (response 200 "") (inl refl)
