-- ===== src/Tests/Handlers.antt =====
-- The theorems on ssf-hub/internal/handlers at a concrete request.
use caep_dev.Base.{◌≡◌, ◌≢◌, ◌↔◌, refl, String, false, [], ◌∷◌, none, ok, returns}
use caep_dev.PubSub.Mock.Client.{mock_client}
use caep_dev.HubReceiver.{Hub}
use caep_dev.Broker.{process_security_event}
use caep_dev.Handlers.Defs.{Request, Environment, Response, accepted, get_transmitter_id}
use caep_dev.Handlers.Events.{handle_events}
use caep_dev.Handlers.Laws.{handle_events-accepted}
use caep_dev.Tests.Data.{now, two, client, parse}
use caep_dev.Tests.Processing.{counted, client_after, processes}

abbrev production : Environment
production = record { dev_debug = ""; dev_default_transmitter = "" }

abbrev post : Request
post = record {
  headers = ("X-Transmitter-ID", "idp") ∷ [];
  query = [];
  path_id = "";
  body = ok "token";
  host = "hub.example";
  is_tls = false;
  timestamp = "%!d(<nil>)";
}

abbrev taken : Response
taken = record { status = 202; body = accepted "idp" "%!d(<nil>)" }

answers :
    handle_events (mock_client Hub) parse production now post two client
    ≡ returns (counted, client_after, taken)
unfolding handle_events get_transmitter_id
answers = rw processes refl

handle_events-accepted_example : (taken.status ≡ 202) ↔ (
    (s : String) × (post.body ≡ ok s)
    × (s ≢ "")
    × (process_security_event
          (mock_client Hub)
          parse
          now
          s
          (get_transmitter_id production post)
          two
          client
        ≡ returns (counted, client_after, none)))
handle_events-accepted_example =
    handle_events-accepted (mock_client Hub) parse production now post two counted client
      client_after taken answers
