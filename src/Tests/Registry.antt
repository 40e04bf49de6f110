-- ===== src/Tests/Registry.antt =====
-- The theorems on ssf-hub/internal/registry at concrete inputs.
use caep_dev.Base.{
  ℕ, ◌+◌, String, List, [], ◌∷◌, Option, none, some, ◌≡◌, ◌≢◌, ◌↔◌, refl, arith, returns, ok, err,
  All, keep, length, ◌==◌,
}
use caep_dev.Base.Dict.{lookup, values}
use caep_dev.Models.Receiver.{Receiver, EventFilter, validate}
use caep_dev.Models.Receiver.Validation.{IsDeliverable, validate_iff}
use caep_dev.Registry.{new_memory_registry, unregister, get, update, filter_receivers}
use caep_dev.Registry.Operations.{Operation, apply, outcome, run}
use caep_dev.Registry.Invariant.{IsConsistent, run-IsConsistent, new_memory_registry-IsConsistent}
use caep_dev.Registry.Errors.{IsPermitted, outcome_iff, apply-error_unchanged}
use caep_dev.Registry.Frame.{apply-other}
use caep_dev.Registry.Reads.{update-get}
use caep_dev.Registry.Selection.{Selects, filter_receivers-Selects}
use caep_dev.Tests.Data.{accepts, alpha, two, event}

abbrev calls : List Operation
calls =
    Operation.register 1 2 3 (some alpha)
    ∷ Operation.register 4 5 6 (some alpha)
    ∷ Operation.increment_event_received "alpha" 7 8
    ∷ Operation.unregister "beta"
    ∷ []

run-IsConsistent_example : IsConsistent accepts (run accepts calls new_memory_registry)
run-IsConsistent_example =
    run-IsConsistent accepts calls new_memory_registry (new_memory_registry-IsConsistent accepts)

outcome_iff_example :
    (outcome accepts (Operation.register 1 2 3 (some alpha)) two ≡ none)
    ↔ IsPermitted accepts (Operation.register 1 2 3 (some alpha)) two
outcome_iff_example = outcome_iff accepts two (Operation.register 1 2 3 (some alpha))

refused : outcome accepts (Operation.unregister "gamma") two ≢ none
unfolding unregister lookup
refused h = cc h

apply-error_unchanged_example : apply accepts (Operation.unregister "gamma") two ≡ two
apply-error_unchanged_example =
    apply-error_unchanged accepts two (Operation.unregister "gamma") refused

apply-other_example : get "beta" (apply accepts (Operation.unregister "alpha") two) ≡ get "beta" two
apply-other_example = apply-other accepts two (Operation.unregister "alpha") "beta" (λ h. cc h)

accepted : (validate accepts alpha).1 ≡ none
unfolding validate caep_dev.Models.Receiver.validate_auth
accepted = refl

pub alpha-IsDeliverable : IsDeliverable accepts alpha
alpha-IsDeliverable = (validate_iff accepts alpha).0 accepted

pub stored_alpha : lookup "alpha" two.receivers ≡ some alpha
unfolding lookup
stored_alpha = refl

update-get_example :
    (s : Receiver) × (get "alpha" (update accepts 9 (some alpha) two).0 ≡ ok s)
    × (s.metadata.created_at ≡ alpha.metadata.created_at)
    × (s.metadata.last_event_at ≡ alpha.metadata.last_event_at)
    × (s.metadata.events_received ≡ alpha.metadata.events_received)
    × (s.metadata.events_delivered ≡ alpha.metadata.events_delivered)
    × (s.metadata.events_failed ≡ alpha.metadata.events_failed)
    × (s.metadata.updated_at ≡ 9)
    × (s.metadata.last_delivery_error ≡ alpha.metadata.last_delivery_error)
    × (s.event_types ≡ alpha.event_types)
    × (s.webhook_url ≡ alpha.webhook_url)
    × (s.filters ≡ alpha.filters)
    × (s.status ≡ alpha.status)
update-get_example = update-get accepts two 9 alpha alpha alpha-IsDeliverable stored_alpha

selects_alpha : filter_receivers event two ≡ returns (ok (alpha ∷ []))
unfolding filter_receivers values caep_dev.Base.copy caep_dev.Models.Filter.filter_matches
    caep_dev.Models.Filter.extract_field_value caep_dev.Models.Filter.contains
selects_alpha = refl

filter_receivers-Selects_example : Selects event (values two.receivers) (alpha ∷ [])
filter_receivers-Selects_example = filter_receivers-Selects event two (alpha ∷ []) selects_alpha

unknown : lookup "alpha" new_memory_registry.receivers ≡ none
unfolding lookup
unknown = refl
