-- ===== src/Registry/Invariant.antt =====
-- The invariant of ssf-hub/internal/registry/registry.go under every sequence of its methods.
use caep_dev.Base.{String, Bool, List, [], ◌∷◌, Option, none, some, ◌≡◌, refl, arith}
use caep_dev.Base.Dict.{
  lookup, put, HasDistinctKeys, AllEntries, put-HasDistinctKeys, remove-HasDistinctKeys,
  AllEntries-lookup, AllEntries-put, AllEntries-remove,
}
use caep_dev.Models.Receiver.{Time, Receiver, ValidationError, validate}
use caep_dev.Models.Receiver.Validation.{IsDeliverable, validate-IsDeliverable}
use caep_dev.Models.Receiver.Defaults.{set_defaults-IsDeliverable}
use caep_dev.Registry.Operations.{Operation, apply, run}
use caep_dev.Registry.Defs.{
  MemoryRegistry, new_memory_registry, register, unregister, update, update_stats, modify,
  modify_found, unregister_found, register_found, register_validated, update_found,
  update_validated, increment_event_received, increment_event_delivered, increment_event_failed,
  set_receiver_status,
}

-- An entry is a deliverable receiver under its own id.
abbrev pub IsEntry : (parse_url : String → Bool) → String → Receiver → Type 0
IsEntry parse_url k r = (r.id ≡ k) × IsDeliverable parse_url r

pub record IsConsistent (parse_url : String → Bool) (reg : MemoryRegistry) : Type 0 where
  pub distinct : HasDistinctKeys reg.receivers
  pub entries : AllEntries (IsEntry parse_url) reg.receivers

module _ (parse_url : String → Bool) where
  put-IsConsistent :
      (r : Receiver) (reg : MemoryRegistry)
      → IsConsistent parse_url reg
      → IsDeliverable parse_url r
      → IsConsistent parse_url (record { receivers = put r.id r reg.receivers })
  put-IsConsistent r reg c d = record {
    distinct = put-HasDistinctKeys r.id r reg.receivers c.distinct;
    entries = AllEntries-put (IsEntry parse_url) r.id r reg.receivers c.entries (refl, d);
  }

  -- a write through the pointer keeps the id and what makes the receiver deliverable
  modify_found-IsConsistent :
      (id : String) (f : Receiver → Receiver) (found : Option Receiver) (reg : MemoryRegistry)
      → lookup id reg.receivers ≡ found
      → ((k : String) (r : Receiver) → IsEntry parse_url k r → IsEntry parse_url k (f r))
      → IsConsistent parse_url reg
      → IsConsistent parse_url (modify_found id f found reg).0
  modify_found-IsConsistent id f none reg e keeps c = c
  modify_found-IsConsistent id f (some r) reg e keeps c = record {
    distinct = put-HasDistinctKeys id (f r) reg.receivers c.distinct;
    entries =
        AllEntries-put (IsEntry parse_url) id (f r) reg.receivers c.entries
          (keeps id r (AllEntries-lookup (IsEntry parse_url) id r reg.receivers c.entries e));
  }

  modify-IsConsistent :
      (id : String) (f : Receiver → Receiver) (reg : MemoryRegistry)
      → ((k : String) (r : Receiver) → IsEntry parse_url k r → IsEntry parse_url k (f r))
      → IsConsistent parse_url reg
      → IsConsistent parse_url (modify id f reg).0
  unfolding modify
  modify-IsConsistent id f reg = modify_found-IsConsistent id f (lookup id reg.receivers) reg refl

  register_found-IsConsistent :
      (t u v : Time) (r : Receiver) (found : Option Receiver) (reg : MemoryRegistry)
      → IsDeliverable parse_url r
      → IsConsistent parse_url reg
      → IsConsistent parse_url (register_found t u v r found reg).0
  unfolding register_found
  register_found-IsConsistent t u v r (some _) reg d c = c
  register_found-IsConsistent t u v r none reg d c =
      let h = set_defaults-IsDeliverable parse_url t r d in put-IsConsistent _ reg c (ground arith)

  update_found-IsConsistent :
      (now : Time) (r : Receiver) (found : Option Receiver) (reg : MemoryRegistry)
      → IsDeliverable parse_url r
      → IsConsistent parse_url reg
      → IsConsistent parse_url (update_found now r found reg).0
  unfolding update_found
  update_found-IsConsistent now r none reg d c = c
  update_found-IsConsistent now r (some old) reg d c = put-IsConsistent _ reg c (ground arith)

  register_validated-IsConsistent :
      (t u v : Time) (p : Receiver × Option ValidationError) (reg : MemoryRegistry)
      → (p.1 ≡ none → IsDeliverable parse_url p.0)
      → IsConsistent parse_url reg
      → IsConsistent parse_url (register_validated t u v p reg).0
  unfolding register_validated
  register_validated-IsConsistent t u v (r, some e) reg d c = c
  register_validated-IsConsistent t u v (r, none) reg d c =
      register_found-IsConsistent t u v r (lookup r.id reg.receivers) reg (d refl) c

  update_validated-IsConsistent :
      (now : Time) (p : Receiver × Option ValidationError) (reg : MemoryRegistry)
      → (p.1 ≡ none → IsDeliverable parse_url p.0)
      → IsConsistent parse_url reg
      → IsConsistent parse_url (update_validated now p reg).0
  unfolding update_validated
  update_validated-IsConsistent now (r, some e) reg d c = c
  update_validated-IsConsistent now (r, none) reg d c =
      update_found-IsConsistent now r (lookup r.id reg.receivers) reg (d refl) c

  unregister_found-IsConsistent :
      (id : String) (found : Option Receiver) (reg : MemoryRegistry)
      → IsConsistent parse_url reg
      → IsConsistent parse_url (unregister_found id found reg).0
  unfolding unregister_found
  unregister_found-IsConsistent id none reg c = c
  unregister_found-IsConsistent id (some _) reg c = record {
    distinct = remove-HasDistinctKeys id reg.receivers c.distinct;
    entries = AllEntries-remove (IsEntry parse_url) id reg.receivers c.entries;
  }

  apply-IsConsistent :
      (o : Operation) (reg : MemoryRegistry)
      → IsConsistent parse_url reg
      → IsConsistent parse_url (apply parse_url o reg)
  unfolding register unregister update update_stats increment_event_received
      increment_event_delivered increment_event_failed set_receiver_status
  apply-IsConsistent (Operation.register t u v none) reg c = c
  apply-IsConsistent (Operation.register t u v (some r)) reg c =
      register_validated-IsConsistent t u v (validate parse_url r) reg
        (validate-IsDeliverable parse_url r) c
  apply-IsConsistent (Operation.unregister id) reg c =
      unregister_found-IsConsistent id (lookup id reg.receivers) reg c
  apply-IsConsistent (Operation.update now none) reg c = c
  apply-IsConsistent (Operation.update now (some r)) reg c =
      update_validated-IsConsistent now (validate parse_url r) reg
        (validate-IsDeliverable parse_url r) c
  apply-IsConsistent (Operation.update_stats id stats now) reg c =
      modify-IsConsistent id _ reg (λ k r h. (ground arith)) c
  apply-IsConsistent (Operation.increment_event_received id t u) reg c =
      modify-IsConsistent id _ reg (λ k r h. (ground arith)) c
  apply-IsConsistent (Operation.increment_event_delivered id now) reg c =
      modify-IsConsistent id _ reg (λ k r h. (ground arith)) c
  apply-IsConsistent (Operation.increment_event_failed id message now) reg c =
      modify-IsConsistent id _ reg (λ k r h. (ground arith)) c
  apply-IsConsistent (Operation.set_receiver_status id status now) reg c =
      modify-IsConsistent id _ reg (λ k r h. (ground arith)) c

  -- Whatever calls are made on a consistent registry, in whatever order, no id is stored twice, each
  -- receiver is stored under its own id, and each can be delivered to.
  pub run-IsConsistent :
      (os : List Operation) (reg : MemoryRegistry)
      → IsConsistent parse_url reg
      → IsConsistent parse_url (run parse_url os reg)
  unfolding run
  run-IsConsistent [] reg c = c
  run-IsConsistent (o ∷ os) reg c =
      run-IsConsistent os (apply parse_url o reg) (apply-IsConsistent o reg c)

pub new_memory_registry-IsConsistent :
    (parse_url : String → Bool) → IsConsistent parse_url new_memory_registry
new_memory_registry-IsConsistent parse_url = record { distinct = tt; entries = tt }
