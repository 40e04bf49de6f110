-- ===== src/Registry/Operations.antt =====
-- The calls that change a registry of ssf-hub/internal/registry/registry.go, as data.
use caep_dev.Base.{String, Bool, Option, List, [], ◌∷◌}
use caep_dev.Models.Receiver.{Time, Receiver, ReceiverMetadata}
use caep_dev.Registry.Defs
use caep_dev.Registry.Defs.{MemoryRegistry, Error}

-- A call of a method that changes the registry.
pub data Operation : Type 0 where
  register : (t u v : Time) → Option Receiver → Operation
  unregister : String → Operation
  update : (now : Time) → Option Receiver → Operation
  update_stats : String → ReceiverMetadata → (now : Time) → Operation
  increment_event_received : String → (t u : Time) → Operation
  increment_event_delivered : String → (now : Time) → Operation
  increment_event_failed : String → (message : String) → (now : Time) → Operation
  set_receiver_status : String → (status : String) → (now : Time) → Operation

abbrev pub apply : (parse_url : String → Bool) → Operation → MemoryRegistry → MemoryRegistry
apply p (register t u v r) reg = (Defs.register p t u v r reg).0
apply p (unregister id) reg = (Defs.unregister id reg).0
apply p (update now r) reg = (Defs.update p now r reg).0
apply p (update_stats id stats now) reg = (Defs.update_stats id stats now reg).0
apply p (increment_event_received id t u) reg = (Defs.increment_event_received id t u reg).0
apply p (increment_event_delivered id now) reg = (Defs.increment_event_delivered id now reg).0
apply p (increment_event_failed id message now) reg =
    (Defs.increment_event_failed id message now reg).0
apply p (set_receiver_status id status now) reg = (Defs.set_receiver_status id status now reg).0

-- the error that the call returns
abbrev pub outcome : (parse_url : String → Bool) → Operation → MemoryRegistry → Option Error
outcome p (register t u v r) reg = (Defs.register p t u v r reg).2
outcome p (unregister id) reg = (Defs.unregister id reg).1
outcome p (update now r) reg = (Defs.update p now r reg).2
outcome p (update_stats id stats now) reg = (Defs.update_stats id stats now reg).1
outcome p (increment_event_received id t u) reg = (Defs.increment_event_received id t u reg).1
outcome p (increment_event_delivered id now) reg = (Defs.increment_event_delivered id now reg).1
outcome p (increment_event_failed id message now) reg =
    (Defs.increment_event_failed id message now reg).1
outcome p (set_receiver_status id status now) reg = (Defs.set_receiver_status id status now reg).1

-- The calls in turn.
unfoldable pub run : (parse_url : String → Bool) → List Operation → MemoryRegistry → MemoryRegistry
run p [] reg = reg
run p (o ∷ os) reg = run p os (apply p o reg)
