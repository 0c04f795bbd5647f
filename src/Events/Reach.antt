-- ===== src/Events/Reach.antt =====
-- The program as a step relation over its events, and what holds in every world that it reaches.
use atlas_client.Prelude.{Bool, ℕ, Option, none, some, List, [], ◌∷◌, ℤ, arith}
use atlas_client.Callbacks.{
  AlarmCallback, request_alarm, reg_alarm, keepalive_alarm, policy_alarm, push_alert_alarm,
  threshold_alert_alarm, execute_restart_alarm, execute_shutdown_alarm, ClientCallback,
  reg_callback, keepalive_callback, telemetry_callback, policy_callback,
  feature_reputation_callback, feedback_callback,
}
use atlas_client.Environment.{Environment, timer_read}
use atlas_client.Alarm.{AlarmEntry}
use atlas_client.CoapClient.{Request, Client, Upcall}
use atlas_client.CoapClient.Receive.{timeout_upcall}
use atlas_client.CoapClient.Balance.{IsBalanced}
use atlas_client.CoapClient.Ends.{
  message_handler-IsBalanced, finish_request-IsBalanced, drop_timed_out-IsBalanced,
}
use atlas_client.World.{World, recorded}
use atlas_client.World.Keeps.{alarm_cancel-Keeps, IsSound, Keeps-IsSound}
use atlas_client.Telemetry.Keeps.{handle_response-Keeps}
use atlas_client.Telemetry.Schedule.{push_alert_alarm_cb-Keeps, threshold_alert_alarm_cb-Keeps}
use atlas_client.Register.{reg_alarm_callback, keepalive_alarm_callback}
use atlas_client.Register.Policy.{policy_alarm_callback}
use atlas_client.Register.Keeps.{
  send_register_command-Keeps, send_policy_command-Keeps, handle_policy_response-Keeps,
}
use atlas_client.Register.Sound.{
  if-IsSound, send_keepalive_command-IsSound, handle_keepalive-IsSound, handle_registration-IsSound,
}
use atlas_client.Execute.Keeps.{execute_restart-Keeps, execute_shutdown-Keeps}
use atlas_client.Connector.{read_cb, accept_cb}
use atlas_client.Connector.Keeps.{handle_reputation-Keeps, read_cb-Keeps, accept_cb-Keeps}
use atlas_client.Events.Requests.{GatewayRequest, coap_server_sched_callback}
use atlas_client.Events.Answered.{coap_server_sched_callback-Keeps}
use atlas_client.Events.{
  Message, set_client, run_callback, run_upcall, handle_message, handle_messages, serve,
  coap_client_sched_callback, request_alarm_cb, fire, run_alarm, run_found, alarm_trigger,
}

-- One event, with what it is about.
pub data Step (env : Environment) (w : World) : World → Type 0 where
  alarm_rang : (id : ℤ) → Step env w (alarm_trigger env id w)
  responses_came :
      (fd : ℤ) (ms : List Message) → Step env w (coap_client_sched_callback env fd ms w)
  requests_came :
      (strtol : List ℕ → ℤ × Bool) (rs : List GatewayRequest)
      → Step env w (coap_server_sched_callback env strtol rs w)
  data_plane_connected : Step env w (accept_cb env w)
  data_plane_wrote : (fd : ℤ) (bytes : List ℕ) → Step env w (read_cb env fd bytes w)

-- Any number of events.
pub data Reach (env : Environment) (w : World) : World → Type 0 where
  here : Reach env w w
  further : {u v : World} → Reach env w u → Step env u v → Reach env w v

-- The parts' lemmas, event by event.
with_client :
    (c : Client) (w : World)
    → IsSound w
    → (IsBalanced w.client → IsBalanced c)
    → IsSound (set_client c w)
with_client c w s h = record {
  balance = h s.balance;
  count_byte = s.count_byte;
  token_word = s.token_word;
}

module _ (env : Environment) where
  run_callback-IsSound :
      (cb : ClientCallback) (u : Upcall) (w : World) → IsSound w → IsSound (run_callback env cb u w)
  unfolding run_callback
  run_callback-IsSound reg_callback u w s = handle_registration-IsSound env u.response w s
  run_callback-IsSound keepalive_callback u w s =
      handle_keepalive-IsSound env u.response u.payload w s
  run_callback-IsSound telemetry_callback u w s =
      Keeps-IsSound (handle_response-Keeps env u.uri u.response w) s
  run_callback-IsSound policy_callback u w s =
      Keeps-IsSound (handle_policy_response-Keeps env u.response w) s
  run_callback-IsSound feature_reputation_callback u w s =
      Keeps-IsSound (handle_reputation-Keeps u.response u.payload w) s
  run_callback-IsSound feedback_callback u w s = s

  run_upcall-IsSound : (u : Option Upcall) (w : World) → IsSound w → IsSound (run_upcall env u w)
  unfolding run_upcall
  run_upcall-IsSound none w s = s
  run_upcall-IsSound (some u) w s = run_callback-IsSound u.callback u w s

  handle_messages-IsSound :
      (ms : List Message) (w : World) → IsSound w → IsSound (handle_messages env ms w)
  unfolding handle_messages handle_message
  handle_messages-IsSound [] w s = s
  handle_messages-IsSound (m ∷ ms) w s = handle_messages-IsSound ms _ (
      run_upcall-IsSound _ _
        (with_client _ w s (message_handler-IsBalanced m.ctx m.session m.sent m.received w.client)))

  serve-IsSound :
      (fd : ℤ) (ms : List Message) (p : Option Request) (w : World)
      → IsSound w
      → IsSound (serve env fd ms p w)
  unfolding serve
  serve-IsSound fd ms none w s = s
  serve-IsSound fd ms (some p) w s =
      with_client _ _ (handle_messages-IsSound ms w s)
        (finish_request-IsBalanced fd (handle_messages env ms w).client)

  coap_client_sched_callback-IsSound :
      (fd : ℤ) (ms : List Message) (w : World)
      → IsSound w
      → IsSound (coap_client_sched_callback env fd ms w)
  unfolding coap_client_sched_callback
  coap_client_sched_callback-IsSound fd ms w s = serve-IsSound fd ms _ w s

  request_alarm_cb-IsSound : (id : ℤ) (w : World) → IsSound w → IsSound (request_alarm_cb env id w)
  unfolding request_alarm_cb
  request_alarm_cb-IsSound id w s =
      with_client _ _ (run_upcall-IsSound (timeout_upcall id w.client) w s)
        (drop_timed_out-IsBalanced id (run_upcall env (timeout_upcall id w.client) w).client)

  fire-IsSound : (cb : AlarmCallback) (id : ℤ) (w : World) → IsSound w → IsSound (fire env cb id w)
  unfolding fire reg_alarm_callback keepalive_alarm_callback policy_alarm_callback
  fire-IsSound request_alarm id w s = request_alarm_cb-IsSound id w s
  fire-IsSound reg_alarm id w s = Keeps-IsSound (send_register_command-Keeps env w) s
  fire-IsSound keepalive_alarm id w s = send_keepalive_command-IsSound env w s
  fire-IsSound policy_alarm id w s = Keeps-IsSound (send_policy_command-Keeps env w) s
  fire-IsSound push_alert_alarm id w s = Keeps-IsSound (push_alert_alarm_cb-Keeps env id w) s
  fire-IsSound threshold_alert_alarm id w s =
      Keeps-IsSound (threshold_alert_alarm_cb-Keeps env id w) s
  fire-IsSound execute_restart_alarm id w s = Keeps-IsSound (execute_restart-Keeps w) s
  fire-IsSound execute_shutdown_alarm id w s = Keeps-IsSound (execute_shutdown-Keeps w) s

  run_found-IsSound :
      (id : ℤ) (p : Option AlarmEntry) (w : World) → IsSound w → IsSound (run_found env id p w)
  unfolding run_found run_alarm
  run_found-IsSound id none w s = s
  run_found-IsSound id (some p) w s =
      let rung : IsSound (recorded (timer_read id) w) = record {
        balance = λ weight. omega (arith, s.balance weight);
        count_byte = s.count_byte;
        token_word = s.token_word;
      } in
      let fired = fire-IsSound p.callback id (recorded (timer_read id) w) rung in
      if-IsSound p.run_once (Keeps-IsSound (alarm_cancel-Keeps id _) fired) fired

  Step-IsSound : {v w : World} → Step env v w → IsSound v → IsSound w
  unfolding alarm_trigger
  Step-IsSound {v} (alarm_rang id) s = run_found-IsSound id _ v s
  Step-IsSound {v} (responses_came fd ms) s = coap_client_sched_callback-IsSound fd ms v s
  Step-IsSound {v} (requests_came strtol rs) s =
      Keeps-IsSound (coap_server_sched_callback-Keeps env strtol rs v) s
  Step-IsSound {v} data_plane_connected s = Keeps-IsSound (accept_cb-Keeps env v) s
  Step-IsSound {v} (data_plane_wrote fd bytes) s = Keeps-IsSound (read_cb-Keeps env fd bytes v) s

  -- In every world that is reached from a sound one, whatever the network, the kernel and the other
  -- programs answer, each context that libcoap gave is freed or belongs to a pending request, and the
  -- keep-alive count and token fit their machine words.
  pub Reach-IsSound : {v w : World} → Reach env v w → IsSound v → IsSound w
  Reach-IsSound here s = s
  Reach-IsSound (further r step) s = Step-IsSound step (Reach-IsSound r s)
