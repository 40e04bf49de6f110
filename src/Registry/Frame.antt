-- ===== src/Registry/Frame.antt =====
-- What a call of ssf-hub/internal/registry/registry.go leaves alone.
use caep_dev.Base.{String, Bool, Option, none, some, ◌≡◌, refl, ap, sym, ◌∙◌, ◌≢◌}
use caep_dev.Base.Dict.{lookup, lookup-put_ne, lookup-remove_ne}
use caep_dev.Models.Receiver.{Time, Receiver, ValidationError, validate, set_defaults}
use caep_dev.Models.Receiver.Validation.{id-validate}
use caep_dev.Registry.Operations.{Operation, apply}
use caep_dev.Registry.Defs.{
  MemoryRegistry, found_or_error, register, unregister, get, update, update_stats, unregister_found,
  register_found, register_validated, update_found, update_validated, increment_event_received,
  increment_event_delivered, increment_event_failed, set_receiver_status,
}
use caep_dev.Registry.Reads.{get-lookup, modify-other}

-- The id that a call is about; a nil receiver has none.
abbrev pub target : Operation → Option String
target (Operation.register t u v none) = none
target (Operation.register t u v (some r)) = some r.id
target (Operation.update now none) = none
target (Operation.update now (some r)) = some r.id
target (Operation.unregister id) = some id
target (Operation.update_stats id stats now) = some id
target (Operation.increment_event_received id t u) = some id
target (Operation.increment_event_delivered id now) = some id
target (Operation.increment_event_failed id m now) = some id
target (Operation.set_receiver_status id s now) = some id

module _ (p : String → Bool) (reg : MemoryRegistry) where
  register_found-other :
      (t u v : Time) (r : Receiver) (found : Option Receiver) (other : String)
      → r.id ≢ other
      → lookup other (register_found t u v r found reg).0.receivers ≡ lookup other reg.receivers
  unfolding register_found set_defaults
  register_found-other t u v r (some _) other h = refl
  register_found-other t u v r none other h = lookup-put_ne r.id other _ reg.receivers h

  update_found-other :
      (now : Time) (r : Receiver) (found : Option Receiver) (other : String)
      → r.id ≢ other
      → lookup other (update_found now r found reg).0.receivers ≡ lookup other reg.receivers
  unfolding update_found
  update_found-other now r none other h = refl
  update_found-other now r (some _) other h = lookup-put_ne r.id other _ reg.receivers h

  unregister_found-other :
      (id : String) (found : Option Receiver) (other : String)
      → id ≢ other
      → lookup other (unregister_found id found reg).0.receivers ≡ lookup other reg.receivers
  unfolding unregister_found
  unregister_found-other id none other h = refl
  unregister_found-other id (some _) other h = lookup-remove_ne id other reg.receivers h

  register_validated-other :
      (t u v : Time) (q : Receiver × Option ValidationError) (other : String)
      → q.0.id ≢ other
      → lookup other (register_validated t u v q reg).0.receivers ≡ lookup other reg.receivers
  unfolding register_validated
  register_validated-other t u v (r, some e) other h = refl
  register_validated-other t u v (r, none) other h =
      register_found-other t u v r (lookup r.id reg.receivers) other h

  update_validated-other :
      (now : Time) (q : Receiver × Option ValidationError) (other : String)
      → q.0.id ≢ other
      → lookup other (update_validated now q reg).0.receivers ≡ lookup other reg.receivers
  unfolding update_validated
  update_validated-other now (r, some e) other h = refl
  update_validated-other now (r, none) other h =
      update_found-other now r (lookup r.id reg.receivers) other h

  lookup-apply-other :
      (o : Operation) (other : String)
      → target o ≢ some other
      → lookup other (apply p o reg).receivers ≡ lookup other reg.receivers
  unfolding register unregister update update_stats increment_event_received
      increment_event_delivered increment_event_failed set_receiver_status
  lookup-apply-other (Operation.register t u v none) other h = refl
  lookup-apply-other (Operation.register t u v (some r)) other h =
      register_validated-other t u v (validate p r) other
        (λ e. h (ap some (sym (id-validate p r) ∙ e)))
  lookup-apply-other (Operation.unregister id) other h =
      unregister_found-other id (lookup id reg.receivers) other (λ e. h (ap some e))
  lookup-apply-other (Operation.update now none) other h = refl
  lookup-apply-other (Operation.update now (some r)) other h =
      update_validated-other now (validate p r) other (λ e. h (ap some (sym (id-validate p r) ∙ e)))
  lookup-apply-other (Operation.update_stats id stats now) other h =
      modify-other p reg id other _ (λ e. h (ap some e))
  lookup-apply-other (Operation.increment_event_received id t u) other h =
      modify-other p reg id other _ (λ e. h (ap some e))
  lookup-apply-other (Operation.increment_event_delivered id now) other h =
      modify-other p reg id other _ (λ e. h (ap some e))
  lookup-apply-other (Operation.increment_event_failed id m now) other h =
      modify-other p reg id other _ (λ e. h (ap some e))
  lookup-apply-other (Operation.set_receiver_status id s now) other h =
      modify-other p reg id other _ (λ e. h (ap some e))

  -- A call about one id leaves every other receiver as it was.
  pub apply-other :
      (o : Operation) (other : String)
      → target o ≢ some other
      → get other (apply p o reg) ≡ get other reg
  apply-other o other h =
      rw (get-lookup other reg, get-lookup other (apply p o reg))
        (ap (found_or_error other) (lookup-apply-other o other h))
