-- ===== src/CoapClient/Examples.antt =====
-- Tests of requests, over a network that answers.
use atlas_client.Prelude.{◌≡◌, ◌≢◌, true, false, none, some, [], ◌∷◌, codes, pos}
use atlas_client.Status.{get}
use atlas_client.Callbacks.{telemetry_callback}
use atlas_client.Environment.Samples.{online}
use atlas_client.CoapClient.{Request, Client, client_request}
use atlas_client.CoapClient.Receive.{Received, con, token_bytes, find_request, message_handler}
use atlas_client.CoapClient.Handle.{upcall_of, message_handler_lem}

abbrev idle : Client
idle = record {
  timers = record { history = []; sched = []; alarms = [] };
  reqs = [];
  next_token = 5;
}

abbrev asked : Client
asked =
    (client_request online (some (codes "coaps://gw/a")) get [] 5000 (some telemetry_callback)
      idle).1

abbrev pending : Request
pending = record {
  coap_fd = pos 9;
  alarm_id = pos 7;
  ctx = 1;
  session = 2;
  uri = codes "coaps://gw/a";
  token = 5;
  callback = telemetry_callback;
  dirty = false;
}

abbrev waiting : Client
waiting = record idle { reqs = pending ∷ [] }

abbrev answer : Received
answer = record { type = con; token = token_bytes 5; class = 2; payload = 1 ∷ [] }

message_handler_lem_example :
    let (c', up) = message_handler 1 2 true answer waiting in
    ((r : Request)
      → find_request 1 2 waiting.reqs ≡ some r
      → (answer.token ≡ token_bytes r.token
          → (up ≡ some (upcall_of r answer))
            × (find_request 1 2 c'.reqs ≡ some (record r { dirty = true })))
        × (answer.token ≢ token_bytes r.token → (up ≡ none) × (c'.reqs ≡ waiting.reqs)))
    × (find_request 1 2 waiting.reqs ≡ none → (up ≡ none) × (c'.reqs ≡ waiting.reqs))
message_handler_lem_example = message_handler_lem 1 2 true answer waiting
