-- ===== src/Events/Answered.antt =====
-- A request of the gateway keeps the registration and the balance of libcoap's contexts.
use atlas_client.Prelude.{ℕ, Bool, Option, none, some, List, [], ◌∷◌, ℤ}
use atlas_client.Status.{Method, get, post, put, delete}
use atlas_client.Callbacks.{
  ServerCallback, sysinfo_push_alert, packets_push_alert, procs_threshold_alert, execute_command,
}
use atlas_client.Environment.{Environment}
use atlas_client.World.{World, Listener}
use atlas_client.World.Keeps.{Keeps, Keeps-same, Keeps-then}
use atlas_client.CoapServer.Requests.{
  call_listener, process_request, get_handler, post_handler, put_handler, delete_handler, handler,
}
use atlas_client.Telemetry.Endpoints.{sysinfo_alerts, packets_alerts}
use atlas_client.Telemetry.Answers.{push_alert_cb-Keeps, threshold_alert_cb-Keeps}
use atlas_client.Execute.Keeps.{execute_command_cb-Keeps}
use atlas_client.Events.Requests.{
  GatewayRequest, handler_called, index_asked, without_payload, run_server, handle_request,
  coap_server_sched_callback,
}

module _ (env : Environment) (strtol : List ℕ → ℤ × Bool) where
  run_server-Keeps :
      (cb : ServerCallback) (uri payload : List ℕ) (w : World)
      → Keeps w (run_server env strtol cb uri payload w).2
  unfolding run_server without_payload
  run_server-Keeps sysinfo_push_alert uri payload w =
      push_alert_cb-Keeps env sysinfo_alerts uri payload w
  run_server-Keeps packets_push_alert uri payload w =
      push_alert_cb-Keeps env packets_alerts uri payload w
  run_server-Keeps procs_threshold_alert uri payload w =
      threshold_alert_cb-Keeps env strtol payload w
  run_server-Keeps execute_command uri payload w = execute_command_cb-Keeps env payload w

  call_listener-Keeps :
      (uri payload : List ℕ) (l : Option Listener) (w : World)
      → Keeps w (call_listener (run_server env strtol) uri payload l w).1
  unfolding call_listener
  call_listener-Keeps uri payload none w = Keeps-same w
  call_listener-Keeps uri payload (some l) w = run_server-Keeps l.callback uri payload w

  process_request-Keeps :
      (ls : List Listener) (resource : ℕ) (uri : Option (List ℕ)) (payload : List ℕ) (w : World)
      → Keeps w (process_request (run_server env strtol) ls resource uri payload w).1
  unfolding process_request
  process_request-Keeps ls resource none payload w = Keeps-same w
  process_request-Keeps ls resource (some uri) payload w = call_listener-Keeps uri payload _ w

  handler-Keeps :
      (method : Method) (resource : ℕ) (uri : Option (List ℕ)) (payload : List ℕ) (w : World)
      → Keeps w (handler (run_server env strtol) method resource uri payload w).1
  unfolding handler get_handler post_handler put_handler delete_handler
  handler-Keeps get resource uri payload w = process_request-Keeps _ resource uri payload w
  handler-Keeps post resource uri payload w = process_request-Keeps _ resource uri payload w
  handler-Keeps put resource uri payload w = process_request-Keeps _ resource uri payload w
  handler-Keeps delete resource uri payload w = process_request-Keeps _ resource uri payload w

  handle_request-Keeps :
      (r : GatewayRequest) (w : World) → Keeps w (handle_request env strtol r w).1
  unfolding handle_request
  handle_request-Keeps (handler_called method resource uri payload) w =
      handler-Keeps method resource uri payload w
  handle_request-Keeps index_asked w = Keeps-same w

  pub coap_server_sched_callback-Keeps :
      (rs : List GatewayRequest) (w : World) → Keeps w (coap_server_sched_callback env strtol rs w)
  unfolding coap_server_sched_callback
  coap_server_sched_callback-Keeps [] w = Keeps-same w
  coap_server_sched_callback-Keeps (r ∷ rs) w =
      Keeps-then (handle_request-Keeps r w) (coap_server_sched_callback-Keeps rs _)
