-- ===== src/Execute.antt =====
-- Commands that the gateway orders: src/commands_execute/atlas_command_execute.c,
-- atlas_command_execute_utils.c and atlas_command_execute_engine.c.
pub mod Keeps
pub mod Orders
mod Examples
use atlas_client.Prelude.{
  ℕ, Bool, true, false, codes, Option, none, some, List, [], ◌∷◌, ◌==◌, ℤ, is_neg, if◌then◌else◌,
}
use atlas_client.Status.{
  Status, ok, invalid_input, corrupted_command_execution_payload, deferred_command_execution, put,
  Response, resp_ok, not_acceptable_here, unknown,
}
use atlas_client.Callbacks.{
  AlarmCallback, execute_restart_alarm, execute_shutdown_alarm, execute_command,
}
use atlas_client.Environment.{poweroff, reboot, system, faulted, Environment}
use atlas_client.Alarm.{Timers, alarm_set}
use atlas_client.Commands.{Cmd, read_all}
use atlas_client.Commands.Types
use atlas_client.CoapServer.{add_resource}
use atlas_client.World.{World, recorded, set_timers}

unfoldable pub execute_shutdown : World → World
execute_shutdown w = recorded (system poweroff) w

unfoldable pub execute_restart : World → World
execute_restart w = recorded (system reboot) w

-- With what `alarm_set` returned: an alarm that was set defers every later request.
unfoldable pub in_progress : ℤ × Timers → World → World
in_progress (id, t) w =
    if is_neg id then set_timers t w else record (set_timers t w) { cmd_in_progress = true }

unfoldable pub response_to : Status × World → Response × World
response_to (ok, w) = (resp_ok, w)
response_to (deferred_command_execution, w) = (unknown, w)
response_to (_, w) = (not_acceptable_here, w)

unfoldable pub installed : Status × World → Bool × World
installed (ok, w) = (true, w)
installed (_, w) = (false, w)

module _ (env : Environment) where
  unfoldable pub schedule : AlarmCallback → World → World
  unfolding in_progress
  schedule cb w = in_progress (alarm_set env 10 cb true w.client.timers) w

  -- One round of the loop.
  unfoldable pub execute_one : ℕ → World → World
  execute_one type w =
      if type == Types.device_restart
      then schedule execute_restart_alarm w
      else if type == Types.device_shutdown
      then schedule execute_shutdown_alarm w
      else w

  unfoldable pub execute_all : List Cmd → World → World
  execute_all [] w = w
  execute_all (cmd ∷ cmds) w = execute_all cmds (execute_one cmd.type w)

  -- With what the batch was read as.
  unfoldable pub execution_parsed : Option (Status × List Cmd) → World → Status × World
  execution_parsed none w = (ok, recorded faulted w)
  execution_parsed (some (ok, cmds)) w = (ok, execute_all cmds w)
  execution_parsed (some (_, cmds)) w = (corrupted_command_execution_payload, w)

  -- The null buffer is the empty one.
  unfoldable pub execution_bytes : List ℕ → World → Status × World
  execution_bytes [] w = (invalid_input, w)
  execution_bytes (b ∷ bs) w = execution_parsed (read_all (b ∷ bs)) w

  unfoldable pub execution_parse : List ℕ → World → Status × World
  execution_parse payload w =
      if w.cmd_in_progress then (deferred_command_execution, w) else execution_bytes payload w

  -- atlas_command_execute_init: whether the end-point was installed.
  unfoldable pub execute_init : World → Bool × World
  execute_init w =
      installed (
        add_resource env (some (codes "client/approved/command/push")) put (some execute_command) w)

  unfoldable pub execute_command_cb : List ℕ → World → Response × World
  execute_command_cb payload w = response_to (execution_parse payload w)
