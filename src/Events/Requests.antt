-- ===== src/Events/Requests.antt =====
-- A request of the gateway: coap_server_sched_callback of src/coap/atlas_coap_server.c, with the callbacks
-- that the parts add. No callback gives a payload back.
use atlas_client.Prelude.{ℕ, Bool, Option, some, List, [], ◌∷◌, ℤ}
use atlas_client.Status.{Method, Response}
use atlas_client.Callbacks.{
  ServerCallback, sysinfo_push_alert, packets_push_alert, procs_threshold_alert, execute_command,
}
use atlas_client.Environment.{Environment}
use atlas_client.World.{World}
use atlas_client.CoapServer.Requests.{Answer, get_default_index_handler, handler}
use atlas_client.Telemetry.Endpoints.{
  sysinfo_alerts, packets_alerts, push_alert_cb, threshold_alert_cb,
}
use atlas_client.Execute.{execute_command_cb}

-- A request for which libcoap calls a handler: that of the method of a resource that `add_resource` made, with
-- the path, if it has one, and the payload; or that of the resource of the empty path. A request for
-- another path, or of a method that its resource has no handler for, libcoap answers itself.
pub data GatewayRequest : Type 0 where
  handler_called : Method → ℕ → Option (List ℕ) → List ℕ → GatewayRequest
  index_asked : GatewayRequest

unfoldable pub without_payload : Response × World → Response × List ℕ × World
without_payload (code, w) = (code, [], w)

module _ (env : Environment) (strtol : List ℕ → ℤ × Bool) where
  unfoldable pub run_server : ServerCallback → List ℕ → List ℕ → World → Response × List ℕ × World
  run_server sysinfo_push_alert uri payload w =
      without_payload (push_alert_cb env sysinfo_alerts uri payload w)
  run_server packets_push_alert uri payload w =
      without_payload (push_alert_cb env packets_alerts uri payload w)
  run_server procs_threshold_alert uri payload w =
      without_payload (threshold_alert_cb env strtol payload w)
  run_server execute_command uri payload w = without_payload (execute_command_cb env payload w)

  unfoldable pub handle_request : GatewayRequest → World → Option Answer × World
  handle_request (handler_called method resource uri payload) w =
      handler run_server method resource uri payload w
  handle_request index_asked w = (some get_default_index_handler, w)

  -- `coap_io_process` handles the requests that came.
  unfoldable pub coap_server_sched_callback : List GatewayRequest → World → World
  coap_server_sched_callback [] w = w
  coap_server_sched_callback (r ∷ rs) w = coap_server_sched_callback rs (handle_request r w).1
