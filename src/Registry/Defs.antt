-- ===== src/Registry/Defs.antt =====
-- The state and the methods of ssf-hub/internal/registry/registry.go.
use mathlib.Core.Option
use caep_dev.Base.{
  ℕ, ◌+◌, ◌%◌, ◌^◌, String, Bool, List, [], Option, none, some, map, copy, Result, ok, err,
}
use caep_dev.Base.Dict.{Dict, lookup, put, remove, values}
use caep_dev.Models.Receiver.{
  Time, Receiver, ReceiverMetadata, ValidationError, validate, set_defaults,
}

pub record MemoryRegistry : Type 0 where
  pub receivers : Dict Receiver

pub data Error : Type 0 where
  nil_receiver : Error
  validation_failed : ValidationError → Error
  already_exists not_found : String → Error

-- NewMemoryRegistry
abbrev pub new_memory_registry : MemoryRegistry
new_memory_registry = record { receivers = [] }

-- `x++` on an int64, on its bits
abbrev pub increment : ℕ → ℕ
increment x = (x + 1) % 2 ^ 64

-- The maps and slices are copied, and the other fields are values.
unfoldable pub copy_receiver : Receiver → Receiver
copy_receiver r = record r {
  event_types = copy r.event_types;
  auth = record r.auth { scopes = copy r.auth.scopes };
  filters = copy r.filters;
  metadata = record r.metadata { tags = Option.map copy r.metadata.tags };
}

-- What `Register` does once it has looked the id up.
unfoldable pub register_found :
    (t u v : Time)
    → Receiver
    → Option Receiver
    → MemoryRegistry
    → MemoryRegistry × Option Receiver × Option Error
register_found t u v r (some _) reg = (reg, some r, some (already_exists r.id))
register_found t u v r none reg =
    let d = set_defaults t r in
    let stored = record d { metadata = record d.metadata { created_at = u; updated_at = v } } in
    (record { receivers = put stored.id stored reg.receivers }, some stored, none)

-- What `Register` does with the receiver and the verdict of its validation.
unfoldable pub register_validated :
    (t u v : Time)
    → Receiver × Option ValidationError
    → MemoryRegistry
    → MemoryRegistry × Option Receiver × Option Error
unfolding register_found
register_validated t u v (r, some e) reg = (reg, some r, some (validation_failed e))
register_validated t u v (r, none) reg = register_found t u v r (lookup r.id reg.receivers) reg

-- The argument is a pointer: the method gives the receiver as it leaves it, beside the registry and
-- the error. `t` is the reading of the clock in `SetDefaults`, `u` and `v` are those after it.
unfoldable pub register :
    (parse_url : String → Bool) (t u v : Time)
    → Option Receiver
    → MemoryRegistry
    → MemoryRegistry × Option Receiver × Option Error
unfolding register_validated
register parse_url t u v none reg = (reg, none, some nil_receiver)
register parse_url t u v (some given) reg = register_validated t u v (validate parse_url given) reg

unfoldable pub unregister_found :
    String → Option Receiver → MemoryRegistry → MemoryRegistry × Option Error
unregister_found id none reg = (reg, some (not_found id))
unregister_found id (some _) reg = (record { receivers = remove id reg.receivers }, none)

unfoldable pub unregister : String → MemoryRegistry → MemoryRegistry × Option Error
unfolding unregister_found
unregister id reg = unregister_found id (lookup id reg.receivers) reg

abbrev pub found_or_error : String → Option Receiver → Result Error Receiver
found_or_error id none = err (not_found id)
found_or_error id (some r) = ok r

abbrev pub copy_found : Option Receiver → Option Receiver
copy_found none = none
copy_found (some r) = some (copy_receiver r)

unfoldable pub get : String → MemoryRegistry → Result Error Receiver
unfolding copy_receiver
get id reg = found_or_error id (copy_found (lookup id reg.receivers))

unfoldable pub list : MemoryRegistry → Result Error (List Receiver)
unfolding copy_receiver
list reg = ok (map copy_receiver (values reg.receivers))

-- what `Update` keeps of the receiver that it replaces
abbrev pub carried : Receiver → Receiver → Time → Receiver
carried existing r now = record r {
  metadata = record r.metadata {
    created_at = existing.metadata.created_at;
    updated_at = now;
    last_event_at = existing.metadata.last_event_at;
    events_received = existing.metadata.events_received;
    events_delivered = existing.metadata.events_delivered;
    events_failed = existing.metadata.events_failed;
  };
}

unfoldable pub update_found :
    (now : Time)
    → Receiver
    → Option Receiver
    → MemoryRegistry
    → MemoryRegistry × Option Receiver × Option Error
update_found now r none reg = (reg, some r, some (not_found r.id))
update_found now r (some existing) reg =
    let stored = carried existing r now in
    (record { receivers = put stored.id stored reg.receivers }, some stored, none)

unfoldable pub update_validated :
    (now : Time)
    → Receiver × Option ValidationError
    → MemoryRegistry
    → MemoryRegistry × Option Receiver × Option Error
unfolding update_found
update_validated now (r, some e) reg = (reg, some r, some (validation_failed e))
update_validated now (r, none) reg = update_found now r (lookup r.id reg.receivers) reg

unfoldable pub update :
    (parse_url : String → Bool) (now : Time)
    → Option Receiver
    → MemoryRegistry
    → MemoryRegistry × Option Receiver × Option Error
unfolding update_validated
update parse_url now none reg = (reg, none, some nil_receiver)
update parse_url now (some given) reg = update_validated now (validate parse_url given) reg

-- The methods that find a stored receiver and write its fields through the pointer.
abbrev pub modify_found :
    String
    → (Receiver → Receiver)
    → Option Receiver
    → MemoryRegistry
    → MemoryRegistry × Option Error
modify_found id f none reg = (reg, some (not_found id))
modify_found id f (some r) reg = (record { receivers = put id (f r) reg.receivers }, none)

unfoldable pub modify :
    String → (Receiver → Receiver) → MemoryRegistry → MemoryRegistry × Option Error
modify id f reg = modify_found id f (lookup id reg.receivers) reg

abbrev pub with_metadata : (ReceiverMetadata → ReceiverMetadata) → Receiver → Receiver
with_metadata f r = record r { metadata = f r.metadata }

unfoldable pub update_stats :
    String → ReceiverMetadata → (now : Time) → MemoryRegistry → MemoryRegistry × Option Error
unfolding modify
update_stats id stats now = modify id (
    with_metadata (λ m. record m {
      updated_at = now;
      last_event_at = stats.last_event_at;
      events_received = stats.events_received;
      events_delivered = stats.events_delivered;
      events_failed = stats.events_failed;
      last_delivery_error = stats.last_delivery_error;
    }))

unfoldable pub increment_event_received :
    String → (t u : Time) → MemoryRegistry → MemoryRegistry × Option Error
unfolding modify
increment_event_received id t u = modify id (
    with_metadata (λ m. record m {
      updated_at = u;
      last_event_at = t;
      events_received = increment m.events_received;
    }))

unfoldable pub increment_event_delivered :
    String → (now : Time) → MemoryRegistry → MemoryRegistry × Option Error
unfolding modify
increment_event_delivered id now = modify id (
    with_metadata
      (λ m. record m { updated_at = now; events_delivered = increment m.events_delivered }))

unfoldable pub increment_event_failed :
    String → (message : String) → (now : Time) → MemoryRegistry → MemoryRegistry × Option Error
unfolding modify
increment_event_failed id message now = modify id (
    with_metadata (λ m. record m {
      updated_at = now;
      events_failed = increment m.events_failed;
      last_delivery_error = message;
    }))

unfoldable pub set_receiver_status :
    String → (status : String) → (now : Time) → MemoryRegistry → MemoryRegistry × Option Error
unfolding modify
set_receiver_status id status now =
    modify id (λ r. record r { status = status; metadata = record r.metadata { updated_at = now } })

unfoldable pub get_receiver_stats : String → MemoryRegistry → Result Error ReceiverMetadata
get_receiver_stats id reg = elim (lookup id reg.receivers) [
  | none ↦ err (not_found id)
  | some r ↦ ok r.metadata
]
