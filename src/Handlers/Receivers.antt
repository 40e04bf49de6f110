-- ===== src/Handlers/Receivers.antt =====
-- The handlers of ssf-hub/internal/handlers/handlers.go that manage receivers, and the metrics.
use Prim.Native.String.{◌++◌}
use caep_dev.Base.{
  ℕ, String, Bool, not, ◌&&◌, List, [], ◌∷◌, length, contains, Option, none, some, ◌==◌,
  if◌then◌else◌, Result, ok, err,
}
use caep_dev.Base.Dict.{Dict}
use caep_dev.Models.Receiver.{Time, Receiver, ReceiverRequest}
use caep_dev.Registry
use caep_dev.Registry.{MemoryRegistry}
use caep_dev.Broker.{
  ReceiverError, BrokerStats, register_receiver, unregister_receiver, update_receiver, get_receiver,
  list_receivers, get_receiver_subscription_info, get_broker_stats,
}
use caep_dev.Handlers.Defs.{
  Request, Response, failure, metrics, stored, listed, found, removed, write_json_response,
  write_error_response, value_of,
}

-- `decode` is the reading of a request's body into a ReceiverRequest by `json.Decoder`.
module _ (parse_url : String → Bool) (decode : String → Option ReceiverRequest) where
  abbrev decoded : Result String String → Option ReceiverRequest
  decoded (err e) = none
  decoded (ok body) = decode body

  abbrev pub answer :
      (words : String) (status : ℕ)
      → MemoryRegistry × Result ReceiverError (Option Receiver)
      → MemoryRegistry × Response
  answer words status (reg, err e) = (reg, write_json_response 400 (failure words e 400))
  answer words status (reg, ok r) = (reg, write_json_response status (stored r))

  -- The clock is read four times on the way.
  unfoldable pub handle_register_receiver :
      (now t u v : Time) → Request → MemoryRegistry → MemoryRegistry × Response
  unfolding register_receiver write_json_response write_error_response
  handle_register_receiver now t u v r reg = elim (decoded r.body) [
    | none ↦ (reg, write_error_response 400 "Invalid JSON payload")
    | some q ↦
        answer "Failed to register receiver: " 201 (register_receiver parse_url now t u v q reg)
  ]

  unfoldable pub handle_update_receiver :
      (t now : Time) → Request → MemoryRegistry → MemoryRegistry × Response
  unfolding update_receiver write_json_response write_error_response
  handle_update_receiver t now r reg =
      if r.path_id == ""
      then (reg, write_error_response 400 "Missing receiver ID")
      else elim (decoded r.body) [
        | none ↦ (reg, write_error_response 400 "Invalid JSON payload")
        | some q ↦
            answer "Failed to update receiver: " 200
              (update_receiver parse_url t now (record q { id = r.path_id }) reg)
      ]

-- the two tests of the loop
abbrev pub passes : (status_filter event_type_filter : String) → Receiver → Bool
passes status_filter event_type_filter r =
    not (not (status_filter == "") && not (r.status == status_filter))
    && not (not (event_type_filter == "") && not (contains r.event_types event_type_filter))

abbrev pub filter_loop : (status_filter event_type_filter : String) → List Receiver → List Receiver
filter_loop status_filter event_type_filter [] = []
filter_loop status_filter event_type_filter (r ∷ rs) =
    let rest = filter_loop status_filter event_type_filter rs in
    if passes status_filter event_type_filter r then r ∷ rest else rest

unfoldable pub filter_receivers :
    List Receiver → (status_filter event_type_filter : String) → List Receiver
unfolding contains
filter_receivers rs status_filter event_type_filter =
    if status_filter == "" && event_type_filter == ""
    then rs
    else filter_loop status_filter event_type_filter rs

abbrev list_of :
    (status_filter event_type_filter : String) → Result Registry.Error (List Receiver) → Response
list_of status_filter event_type_filter (err e) =
    write_error_response 500 "Failed to list receivers"
list_of status_filter event_type_filter (ok rs) =
    let filtered = filter_receivers rs status_filter event_type_filter in
    write_json_response 200 (listed filtered (length filtered) status_filter event_type_filter)

unfoldable pub handle_list_receivers : Request → MemoryRegistry → Response
unfolding list_receivers filter_receivers value_of write_json_response write_error_response
handle_list_receivers r reg =
    list_of (value_of "status" r.query) (value_of "event_type" r.query) (list_receivers reg)

abbrev known : Result ReceiverError (Dict String) → Option (Dict String)
known (ok subscriptions) = some subscriptions
known (err e) = none

abbrev got : Request → MemoryRegistry → Result Registry.Error Receiver → Response
got r reg (err e) = write_error_response 404 "Receiver not found"
got r reg (ok x) =
    let info = known (get_receiver_subscription_info r.path_id reg) in
    write_json_response 200
      (found x (if value_of "include_subscriptions" r.query == "true" then info else none))

unfoldable pub handle_get_receiver : Request → MemoryRegistry → Response
unfolding get_receiver get_receiver_subscription_info value_of write_json_response
    write_error_response
handle_get_receiver r reg =
    if r.path_id == ""
    then write_error_response 400 "Missing receiver ID"
    else got r reg (get_receiver r.path_id reg)

abbrev unregistered : String → MemoryRegistry × Option ReceiverError → MemoryRegistry × Response
unregistered id (reg, some e) = (reg, write_error_response 404 "Receiver not found")
unregistered id (reg, none) = (reg, write_json_response 200 (removed id))

unfoldable pub handle_unregister_receiver : Request → MemoryRegistry → MemoryRegistry × Response
unfolding unregister_receiver write_json_response write_error_response
handle_unregister_receiver r reg =
    if r.path_id == ""
    then (reg, write_error_response 400 "Missing receiver ID")
    else unregistered r.path_id (unregister_receiver r.path_id reg)

-- `decimal` is the verb %d.
module _ (decimal : ℕ → String) where
  -- One block of metrics for each entry, in the order of the map.
  unfoldable pub metrics_by : (name help label : String) → Dict ℕ → String
  metrics_by name help label [] = ""
  metrics_by name help label ((key, n) ∷ m) =
      "# HELP "
      ++ (name
          ++ (" "
              ++ (help
                  ++ ("\n# TYPE "
                      ++ (name
                          ++ (" gauge\n"
                              ++ (name
                                  ++ ("{"
                                      ++ (label
                                          ++ ("=\""
                                              ++ (key
                                                  ++ ("\"} "
                                                      ++ (decimal n
                                                          ++ ("\n\n"
                                                            ++ metrics_by name help label
                                                            m))))))))))))))

  unfoldable pub format_prometheus_metrics : BrokerStats → String
  unfolding metrics_by
  format_prometheus_metrics stats =
      "# HELP ssf_hub_receivers_total Total number of registered receivers\n# TYPE ssf_hub_receivers_total gauge\nssf_hub_receivers_total "
      ++ (decimal stats.total_receivers
          ++ ("\n\n"
              ++ (metrics_by "ssf_hub_receivers_by_status" "Number of receivers by status" "status"
                    stats.receivers_by_status
                  ++ metrics_by "ssf_hub_event_type_subscribers"
                      "Number of receivers subscribed to event type" "event_type"
                      stats.event_type_stats)))

  abbrev metrics_of : Result Registry.Error BrokerStats → Response
  metrics_of (err e) = write_error_response 500 "Failed to get metrics"
  metrics_of (ok stats) = write_json_response 200 (metrics (format_prometheus_metrics stats))

  unfoldable pub handle_metrics : MemoryRegistry → Response
  unfolding get_broker_stats format_prometheus_metrics write_json_response write_error_response
  handle_metrics reg = metrics_of (get_broker_stats reg)
