-- ===== src/Registry/Errors.antt =====
-- When the calls of ssf-hub/internal/registry/registry.go return an error.
use caep_dev.Base.{String, Bool, Option, none, some, ◌≡◌, refl, ◌≢◌, ◌↔◌, arith}
use caep_dev.Base.Dict.{lookup}
use caep_dev.Models.Receiver.{Time, Receiver, ValidationError, validate}
use caep_dev.Models.Receiver.Validation.{IsDeliverable, validate_iff, id-validate}
use caep_dev.Registry.Operations.{Operation, apply, outcome}
use caep_dev.Registry.Defs.{
  MemoryRegistry, register, unregister, update, update_stats, modify, register_validated,
  update_validated, increment_event_received, increment_event_delivered, increment_event_failed,
  set_receiver_status,
}

-- The calls that are accepted: a new deliverable receiver, or a call about a registered id.
abbrev pub IsPermitted : (parse_url : String → Bool) → Operation → MemoryRegistry → Type 0
IsPermitted p (Operation.register t u v none) reg = ⊥
IsPermitted p (Operation.register t u v (some r)) reg =
    IsDeliverable p r × (lookup r.id reg.receivers ≡ none)
IsPermitted p (Operation.update now none) reg = ⊥
IsPermitted p (Operation.update now (some r)) reg =
    IsDeliverable p r × (lookup r.id reg.receivers ≢ none)
IsPermitted p (Operation.unregister id) reg = lookup id reg.receivers ≢ none
IsPermitted p (Operation.update_stats id stats now) reg = lookup id reg.receivers ≢ none
IsPermitted p (Operation.increment_event_received id t u) reg = lookup id reg.receivers ≢ none
IsPermitted p (Operation.increment_event_delivered id now) reg = lookup id reg.receivers ≢ none
IsPermitted p (Operation.increment_event_failed id m now) reg = lookup id reg.receivers ≢ none
IsPermitted p (Operation.set_receiver_status id s now) reg = lookup id reg.receivers ≢ none

module _ (p : String → Bool) (reg : MemoryRegistry) where
  modify_iff :
      (id : String) (f : Receiver → Receiver)
      → ((modify id f reg).1 ≡ none) ↔ (lookup id reg.receivers ≢ none)
  unfolding modify
  modify_iff id f = ground arith

  register_validated_iff :
      (t u v : Time) (q : Receiver × Option ValidationError)
      → ((register_validated t u v q reg).2 ≡ none)
        ↔ ((q.1 ≡ none) × (lookup q.0.id reg.receivers ≡ none))
  unfolding register_validated
  register_validated_iff t u v (r, some e) = ground arith
  register_validated_iff t u v (r, none) = ground arith

  update_validated_iff :
      (now : Time) (q : Receiver × Option ValidationError)
      → ((update_validated now q reg).2 ≡ none)
        ↔ ((q.1 ≡ none) × (lookup q.0.id reg.receivers ≢ none))
  unfolding update_validated
  update_validated_iff now (r, some e) = ground arith
  update_validated_iff now (r, none) = ground arith

  -- A call returns no error exactly when it is permitted.
  pub outcome_iff : (o : Operation) → (outcome p o reg ≡ none) ↔ IsPermitted p o reg
  unfolding register unregister update update_stats increment_event_received
      increment_event_delivered increment_event_failed set_receiver_status
  outcome_iff (Operation.register t u v none) = ground arith
  outcome_iff (Operation.register t u v (some r)) =
      ground (arith, register_validated_iff t u v (validate p r), validate_iff p r, id-validate p r)
  outcome_iff (Operation.unregister id) = ground arith
  outcome_iff (Operation.update now none) = ground arith
  outcome_iff (Operation.update now (some r)) =
      ground (arith, update_validated_iff now (validate p r), validate_iff p r, id-validate p r)
  outcome_iff (Operation.update_stats id stats now) = modify_iff id _
  outcome_iff (Operation.increment_event_received id t u) = modify_iff id _
  outcome_iff (Operation.increment_event_delivered id now) = modify_iff id _
  outcome_iff (Operation.increment_event_failed id m now) = modify_iff id _
  outcome_iff (Operation.set_receiver_status id s now) = modify_iff id _

  modify-error_unchanged :
      (id : String) (f : Receiver → Receiver)
      → (modify id f reg).1 ≢ none
      → (modify id f reg).0 ≡ reg
  unfolding modify
  modify-error_unchanged id f h = ground arith

  -- A call that returns an error changes nothing.
  pub apply-error_unchanged : (o : Operation) → outcome p o reg ≢ none → apply p o reg ≡ reg
  unfolding register unregister update update_stats increment_event_received
      increment_event_delivered increment_event_failed set_receiver_status
  apply-error_unchanged (Operation.register t u v none) h = refl
  apply-error_unchanged (Operation.register t u v (some r)) h = ground arith
  apply-error_unchanged (Operation.unregister id) h = ground arith
  apply-error_unchanged (Operation.update now none) h = refl
  apply-error_unchanged (Operation.update now (some r)) h = ground arith
  apply-error_unchanged (Operation.update_stats id stats now) h = modify-error_unchanged id _ h
  apply-error_unchanged (Operation.increment_event_received id t u) h =
      modify-error_unchanged id _ h
  apply-error_unchanged (Operation.increment_event_delivered id now) h =
      modify-error_unchanged id _ h
  apply-error_unchanged (Operation.increment_event_failed id m now) h =
      modify-error_unchanged id _ h
  apply-error_unchanged (Operation.set_receiver_status id s now) h = modify-error_unchanged id _ h
