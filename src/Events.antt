-- ===== src/Events.antt =====
-- What the program does at an event: the callbacks that the alarms of src/alarm/atlas_alarm.c, the
-- responses of src/coap/atlas_coap_client.c and the scheduler's descriptors run. This is where the
-- parts call one another.
pub mod Requests
pub mod Answered
pub mod Reach
mod Examples
use atlas_client.Prelude.{ℕ, Bool, Option, none, some, List, [], ◌∷◌, ℤ, if◌then◌else◌}
use atlas_client.Callbacks.{
  AlarmCallback, request_alarm, reg_alarm, keepalive_alarm, policy_alarm, push_alert_alarm,
  threshold_alert_alarm, execute_restart_alarm, execute_shutdown_alarm, ClientCallback,
  reg_callback, keepalive_callback, telemetry_callback, policy_callback,
  feature_reputation_callback, feedback_callback,
}
use atlas_client.Environment.{timer_read, Environment}
use atlas_client.Alarm.{AlarmEntry, find_alarm, alarm_cancel}
use atlas_client.CoapClient.{Request, Client, Upcall}
use atlas_client.CoapClient.Receive.{
  find_by_fd, Received, message_handler, finish_request, timeout_upcall, drop_timed_out,
}
use atlas_client.World.{World, recorded, set_timers}
use atlas_client.Telemetry.{push_alert_alarm_cb, threshold_alert_alarm_cb, handle_response}
use atlas_client.Register.{
  handle_registration, handle_keepalive, reg_alarm_callback, keepalive_alarm_callback,
}
use atlas_client.Register.Policy.{policy_alarm_callback, handle_policy_response}
use atlas_client.Execute.{execute_restart, execute_shutdown}
use atlas_client.Connector.{handle_reputation}

abbrev set_client : Client → World → World
set_client c w = record w { client = c }

-- A message that `coap_io_process` hands to the message handler.
pub record Message : Type 0 where
  pub ctx : ℕ
  pub session : ℕ
  pub sent : Bool
  pub received : Received

module _ (env : Environment) where
  unfoldable pub run_callback : ClientCallback → Upcall → World → World
  run_callback reg_callback u w = handle_registration env u.response w
  run_callback keepalive_callback u w = handle_keepalive env u.response u.payload w
  run_callback telemetry_callback u w = handle_response env u.uri u.response w
  run_callback policy_callback u w = handle_policy_response env u.response w
  run_callback feature_reputation_callback u w = handle_reputation u.response u.payload w
  run_callback feedback_callback u w = w

  unfoldable pub run_upcall : Option Upcall → World → World
  run_upcall none w = w
  run_upcall (some u) w = run_callback u.callback u w

  unfoldable pub handle_message : Message → World → World
  handle_message m w =
      let (c, up) = message_handler m.ctx m.session m.sent m.received w.client in
      run_upcall up (set_client c w)

  unfoldable pub handle_messages : List Message → World → World
  handle_messages [] w = w
  handle_messages (m ∷ ms) w = handle_messages ms (handle_message m w)

  -- With the request of the descriptor: `coap_io_process` handles the messages that came, and then the
  -- request is finished.
  unfoldable pub serve : ℤ → List Message → Option Request → World → World
  serve fd ms none w = w
  serve fd ms (some p) w =
      let w' = handle_messages ms w in set_client (finish_request fd w'.client) w'

  unfoldable pub coap_client_sched_callback : ℤ → List Message → World → World
  coap_client_sched_callback fd ms w = serve fd ms (find_by_fd fd w.client.reqs) w

  -- The application hears of the timeout before the request is dropped.
  unfoldable pub request_alarm_cb : ℤ → World → World
  request_alarm_cb id w =
      let w' = run_upcall (timeout_upcall id w.client) w in
      set_client (drop_timed_out id w'.client) w'

  unfoldable pub fire : AlarmCallback → ℤ → World → World
  fire request_alarm id w = request_alarm_cb id w
  fire reg_alarm id w = reg_alarm_callback env w
  fire keepalive_alarm id w = keepalive_alarm_callback env w
  fire policy_alarm id w = policy_alarm_callback env w
  fire push_alert_alarm id w = push_alert_alarm_cb env id w
  fire threshold_alert_alarm id w = threshold_alert_alarm_cb env id w
  fire execute_restart_alarm id w = execute_restart w
  fire execute_shutdown_alarm id w = execute_shutdown w

  -- An alarm that runs once is canceled behind its callback.
  unfoldable pub run_alarm : ℤ → AlarmEntry → World → World
  run_alarm id p w =
      let w' = fire p.callback id (recorded (timer_read id) w) in
      if p.run_once then set_timers (alarm_cancel id w'.client.timers) w' else w'

  unfoldable pub run_found : ℤ → Option AlarmEntry → World → World
  run_found id none w = w
  run_found id (some p) w = run_alarm id p w

  unfoldable pub alarm_trigger : ℤ → World → World
  alarm_trigger id w = run_found id (find_alarm id w.client.timers.alarms) w
