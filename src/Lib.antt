-- ===== src/Lib.antt =====
-- The SSF hub of caep.dev, a service that takes security event tokens from transmitters and
-- delivers them to the webhooks of registered receivers, and secevent, the library of the tokens with
-- their subjects and events, and ssfreceiver, the library of the receivers' streams.
--
-- The program and its model, with paths from the repository's root:
-- - ssf-hub/pkg/models/receiver.go: Models/Receiver. Receiver, AuthConfig and their siblings are
--   records; Validate is validate and validate_auth, SetDefaults is set_defaults, ToReceiver is
--   to_receiver. What a method writes through its pointer is in its result.
-- - ssf-hub/pkg/models/event.go: Models/Event (the types), Models/Filter (Matches and its helpers)
--   (Clashes: when it panics) and Models/Message (ToInternalMessage and
--   the message ids). Models/Value has the dynamic values
--   of decoded JSON with Go's comparison of interfaces, which may panic.
-- - ssf-hub/internal/registry/registry.go: Registry. Each method is a function from a registry to
--   the next and an error (Registry/Defs, and Registry/Queries for searches and counts);
--   Registry/Operations has the calls as data.
-- - ssf-hub/internal/pubsub/mock_client.go: PubSub/Mock; PubSub/Api is the interface PubSubClient of
--   the broker and the hub receiver, which PubSub/Mock/Client fills.
-- - ssf-hub/internal/distributor/distributor.go: Distributor. Defs has the choice of the receivers
--   and one HTTP request, Loop the retry loop.
-- - ssf-hub/internal/hubreceiver/hubreceiver.go: HubReceiver, over any Pub/Sub client. Consume
--   has the polling loop consumeMessages, over a schedule with an entry for each round.
-- - ssf-hub/internal/controller/broker.go: Broker. Defs has the processing of a token, Receivers the
--   management of the receivers and the statistics; both work on a registry and any client.
-- The broker converts a token to an event, asks the registry for the receivers, counts the event for
-- each, and publishes it with their ids; the hub receiver pulls messages from the same client and
-- gives them to the distributor, which starts a delivery for each target.
-- - ssf-hub/internal/handlers/handlers.go: Handlers. Defs has the requests, the responses and the
--   helpers, Events the entry of events, Receivers the management and the metrics.
-- - secevent/pkg/subject: Subjects, with a file for each of the nine simple subjects (simple.go),
--   Subjects/Simple for the type of all of them and ParseSimpleSubject, Subjects/Complex for complex
--   subjects and Subjects/Parse for ParseSubject.
-- - secevent/pkg/event and secevent/pkg/schemes: Events. Metadata and Base are caep/metadata.go and
--   caep/baseevent.go, each event has its file, and Registry is event.go with the parsers that the
--   two schemes register. Payloads has the method Payload.
--   Written and Parsing have the laws.
-- - secevent/pkg/token and secevent/pkg/builder: Tokens. Single is SecEvent, Multi is MultiSecEvent.
--   Delivered joins them to the broker, which reads the payloads of a parsed token.
-- - ssfreceiver: Ssf. Retry is internal/retry with the policy of internal/config, Types the
--   configuration and the status of types, Validation internal/validation, and Stream the streams of
--   stream and options with the operations that only send a request. Operations has the laws. Each operation goes through the
--   retry loop with the policy of its stream.
-- Json has the documents that encoding/json reads into structs and maps, with its rules: a key
-- addresses the field that it names, else one that it folds to; a later member wins; null leaves a
-- string alone and clears a pointer or a map; a map field is added to. A document is already parsed,
-- its texts are without escapes, and a map is written in the order of the list instead of sorted.
-- Base has the shared vocabulary; Tests applies the theorems to concrete data.
--
-- How Go is modelled:
-- - A string is a native text. A time is a number of nanoseconds since the zero time, and each
--   reading of the clock is an argument. int and time.Duration are integers (Base/Int); the sum of a
--   time and a negative duration stops at the zero time. An int64 counter is its bits, and an
--   increment wraps at 2^64. A float64 is its bits.
-- - A map is an association list with one entry for a key, and the order of the list stands for the
--   order in which a range loop meets the entries. A nil slice is the empty list.
-- - A call that may panic gives an Outcome. A method that holds a lock for its whole body is one step.
-- - The receivers that a caller passes to the registry are not written by the caller afterwards, so
--   a stored receiver is a value.
-- - The retry loop is by recursion on the number of rounds that MaxRetries allows, so that it needs no
--   fuel: MaxRetries + 1 of them, or none if that is not positive. That sum is not wrapped.
-- - A delivery is modelled as if it ran alone: it threads the registry and the metrics through its
--   waits, during which other deliveries may count in both. The theorems on what it counts are on its
--   own counts.
-- - The polling loop meets, in each round, the events that the broker published and a Stop; a second
--   Stop, which panics, is HubReceiver/Lifecycle.
-- - A message's handling reads the registry as it is at that moment, which may differ for each
--   message, since deliveries run beside it.
--
-- Parameters, for code that is not here: url.Parse (does it accept a text), json.Marshal and
-- http.NewRequestWithContext (the record Http), the network's answer to a request, new UUIDs, the
-- multiplication of a wait by a float64 (scale), and the parser of tokens (parse), whose tokens have a
-- subject and an event but perhaps no time of issue; for subjects mail.ParseAddress and url.Parse (the
-- record Grammars), for handlers the decoding of a request as JSON (decode) and the verb %d,
-- for tokens the encoding of the registered claims of the JWT library (the record ClaimsCodec), for the builder the generator of ids; the time that jwt.NewNumericDate keeps
-- of another (numeric_date); for ssfreceiver the arithmetic of float64 (the
-- record Floats), which is Go's but only bounds a delay there, the printing of a status (show), the
-- errors of http.NewRequestWithContext, and what each round of a request meets.
--
-- Not modelled: logging; the Google Pub/Sub client, which calls a cloud library; the configuration
-- of the hub; the encoding of the hub's events and messages as
-- JSON; the parser and signer of tokens and the id generators of secevent, and what BaseEvent and
-- BaseCAEPEvent do that every scheme overrides; of ssfreceiver the builder, the authorizers, the
-- metadata of a transmitter, and the operations whose answer is decoded; archived code.
pub mod Base
pub mod Json
pub mod Models
pub mod Registry
pub mod Ssf
pub mod PubSub
pub mod Distributor
pub mod HubReceiver
pub mod Broker
pub mod Subjects
pub mod Events
pub mod Tokens
pub mod Handlers
pub mod Tests
