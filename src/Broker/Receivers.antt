-- ===== src/Broker/Receivers.antt =====
-- The receivers' side of ssf-hub/internal/controller/broker.go, and its statistics.
use caep_dev.Base.{
  ℕ, String, Bool, true, false, if◌then◌else◌, List, [], ◌∷◌, Option, none, some, ◌==◌, eqb, length,
  Result, ok, err,
}
use caep_dev.Base.Dict.{Dict}
use caep_dev.Models.Receiver.{
  Time, Receiver, ReceiverRequest, ValidationError, validate, to_receiver,
}
use caep_dev.Registry
use caep_dev.Registry.{
  MemoryRegistry, register, unregister, get, list, update, count_by_status, tally,
}

pub data ReceiverError : Type 0 where
  validation_failed : ValidationError → ReceiverError
  register_failed unregister_failed update_failed receiver_not_found :
      Registry.Error → ReceiverError

abbrev pub registered :
    MemoryRegistry × Option Receiver × Option Registry.Error
    → MemoryRegistry × Result ReceiverError (Option Receiver)
registered (reg, r, none) = (reg, ok r)
registered (reg, r, some e) = (reg, err (register_failed e))

abbrev pub register_checked :
    (parse_url : String → Bool) (t u v : Time)
    → Receiver × Option ValidationError
    → MemoryRegistry
    → MemoryRegistry × Result ReceiverError (Option Receiver)
register_checked parse_url t u v (r, some e) reg = (reg, err (validation_failed e))
register_checked parse_url t u v (r, none) reg = registered (register parse_url t u v (some r) reg)

-- The clock is read in `ToReceiver`, and three times in `Register`. A pointer that is not nil is a `some`.
unfoldable pub register_receiver :
    (parse_url : String → Bool) (now t u v : Time)
    → ReceiverRequest
    → MemoryRegistry
    → MemoryRegistry × Result ReceiverError (Option Receiver)
unfolding register validate to_receiver
register_receiver parse_url now t u v q reg =
    register_checked parse_url t u v (validate parse_url (to_receiver now q)) reg

abbrev unregistered : MemoryRegistry × Option Registry.Error → MemoryRegistry × Option ReceiverError
unregistered (reg, none) = (reg, none)
unregistered (reg, some e) = (reg, some (unregister_failed e))

abbrev pub unregister_got :
    String → Result Registry.Error Receiver → MemoryRegistry → MemoryRegistry × Option ReceiverError
unregister_got id (err e) reg = (reg, some (receiver_not_found e))
unregister_got id (ok r) reg = unregistered (unregister id reg)

unfoldable pub unregister_receiver : String → MemoryRegistry → MemoryRegistry × Option ReceiverError
unfolding get unregister
unregister_receiver id reg = unregister_got id (get id reg) reg

-- The loop over the first slice; the case of a shorter second one, an index out of range, is excluded
-- by the test before the loop.
unfoldable pub same_items : List String → List String → Bool
same_items [] ys = true
same_items (x ∷ xs) [] = false
same_items (x ∷ xs) (y ∷ ys) = let rest = same_items xs ys in if x == y then rest else false

unfoldable pub slices_equal : List String → List String → Bool
unfolding same_items
slices_equal a b = if eqb (length a) (length b) then same_items a b else false

abbrev pub updated :
    MemoryRegistry × Option Receiver × Option Registry.Error
    → MemoryRegistry × Result ReceiverError (Option Receiver)
updated (reg, r, none) = (reg, ok r)
updated (reg, r, some e) = (reg, err (update_failed e))

abbrev pub update_got :
    (parse_url : String → Bool) (now : Time)
    → Receiver
    → Result Registry.Error Receiver
    → MemoryRegistry
    → MemoryRegistry × Result ReceiverError (Option Receiver)
update_got parse_url now r (err e) reg = (reg, err (receiver_not_found e))
update_got parse_url now r (ok existing) reg = updated (update parse_url now (some r) reg)

-- Whether the event types changed is only logged.
unfoldable pub update_receiver :
    (parse_url : String → Bool) (t now : Time)
    → ReceiverRequest
    → MemoryRegistry
    → MemoryRegistry × Result ReceiverError (Option Receiver)
unfolding get update to_receiver
update_receiver parse_url t now q reg =
    update_got parse_url now (to_receiver t q) (get q.id reg) reg

unfoldable pub get_receiver : String → MemoryRegistry → Result Registry.Error Receiver
unfolding get
get_receiver id reg = get id reg

unfoldable pub list_receivers : MemoryRegistry → Result Registry.Error (List Receiver)
unfolding list
list_receivers reg = list reg

abbrev info_of : Result Registry.Error Receiver → Result ReceiverError (Dict String)
info_of (err e) = err (receiver_not_found e)
info_of (ok r) = ok []

unfoldable pub get_receiver_subscription_info :
    String → MemoryRegistry → Result ReceiverError (Dict String)
unfolding get
get_receiver_subscription_info id reg = info_of (get id reg)

pub record BrokerStats : Type 0 where
  pub total_receivers : ℕ
  pub receivers_by_status : Dict ℕ
  pub event_type_stats : Dict ℕ

-- the inner loop
unfoldable pub tally_types : List String → Dict ℕ → Dict ℕ
unfolding tally
tally_types [] stats = stats
tally_types (t ∷ ts) stats = tally_types ts (tally t stats)

-- the outer loop
unfoldable pub tally_receivers : List Receiver → Dict ℕ → Dict ℕ
unfolding tally_types
tally_receivers [] stats = stats
tally_receivers (r ∷ rs) stats = tally_receivers rs (tally_types r.event_types stats)

abbrev stats_of : Dict ℕ → Result Registry.Error (List Receiver) → Result Registry.Error BrokerStats
stats_of counts (err e) = err e
stats_of counts (ok rs) = ok (record {
  total_receivers = length rs;
  receivers_by_status = counts;
  event_type_stats = tally_receivers rs [];
})

unfoldable pub get_broker_stats : MemoryRegistry → Result Registry.Error BrokerStats
unfolding list count_by_status tally_receivers
get_broker_stats reg = stats_of (count_by_status reg) (list reg)
