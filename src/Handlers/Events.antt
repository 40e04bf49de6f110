-- ===== src/Handlers/Events.antt =====
-- HandleEvents of ssf-hub/internal/handlers/handlers.go.
use caep_dev.Base.{
  String, Option, none, some, ◌==◌, if◌then◌else◌, Result, ok, err, Outcome, returns, ◌>>=◌,
}
use caep_dev.PubSub.Api.{PubSubClient}
use caep_dev.Registry.{MemoryRegistry}
use caep_dev.Broker.{Readings, SecEvent, Error, process_security_event}
use caep_dev.Handlers.Defs.{
  Request, Environment, Response, accepted, write_json_response, write_error_response,
  get_transmitter_id,
}

module _ {C S : Type 0} (client : PubSubClient C S) (parse : String → Result String SecEvent) where
  -- a result: the registry, the client and the response
  abbrev pub Answered : Type 0
  Answered = MemoryRegistry × C × Response

  abbrev pub respond :
      (transmitter_id timestamp : String) → MemoryRegistry × C × Option Error → Answered
  respond transmitter_id timestamp (reg, c, some e) =
      (reg, c, write_error_response 500 "Failed to process security event")
  respond transmitter_id timestamp (reg, c, none) =
      (reg, c, write_json_response 202 (accepted transmitter_id timestamp))

  abbrev pub process_body :
      Readings
      → (transmitter_id timestamp : String) → MemoryRegistry
      → C
      → Result String String
      → Outcome Answered
  process_body now transmitter_id timestamp reg c (err e) =
      returns (reg, c, write_error_response 400 "Failed to read request body")
  process_body now transmitter_id timestamp reg c (ok raw_set) =
      if raw_set == "" then returns (reg, c, write_error_response 400 "Empty request body") else do
        done ← process_security_event client parse now raw_set transmitter_id reg c
        returns (respond transmitter_id timestamp done)

  unfoldable pub handle_events :
      Environment → Readings → Request → MemoryRegistry → C → Outcome Answered
  unfolding get_transmitter_id process_security_event write_json_response write_error_response
  handle_events env now r reg c =
      let transmitter_id = get_transmitter_id env r in
      if transmitter_id == ""
      then returns (reg, c, write_error_response 400 "Missing transmitter identification")
      else process_body now transmitter_id r.timestamp reg c r.body
