-- ===== src/Execute/Keeps.antt =====
-- An order of the gateway keeps the registration and the balance of libcoap's contexts.
use atlas_client.Prelude.{
  if◌then◌else◌, ℕ, refl, Bool, true, false, Option, none, some, List, [], ◌∷◌, ℤ, pos, negsuc,
  ◌==◌, arith,
}
use atlas_client.Status.{Status, ok, deferred_command_execution}
use atlas_client.Callbacks.{AlarmCallback, execute_restart_alarm, execute_shutdown_alarm}
use atlas_client.Environment.{Environment}
use atlas_client.Alarm.{Timers}
use atlas_client.Commands.{Cmd}
use atlas_client.Commands.Types
use atlas_client.World.{World, set_timers}
use atlas_client.World.Keeps.{Keeps, Keeps-same, Keeps-if, Keeps-then, alarm_set-Keeps}
use atlas_client.Execute.{
  in_progress, schedule, execute_one, execute_all, execution_parsed, execution_bytes,
  execution_parse, response_to, execute_command_cb, execute_restart, execute_shutdown,
}

pub execute_restart-Keeps : (w : World) → Keeps w (execute_restart w)
unfolding execute_restart
execute_restart-Keeps w = record {
  registered = refl;
  ka_count = refl;
  ka_token = refl;
  balance = λ b weight. omega (arith, b weight);
}

pub execute_shutdown-Keeps : (w : World) → Keeps w (execute_shutdown w)
unfolding execute_shutdown
execute_shutdown-Keeps w = record {
  registered = refl;
  ka_count = refl;
  ka_token = refl;
  balance = λ b weight. omega (arith, b weight);
}

in_progress-Keeps :
    (id : ℤ) (t : Timers) (w : World) → Keeps w (set_timers t w) → Keeps w (in_progress (id, t) w)
unfolding in_progress
in_progress-Keeps (negsuc n) t w h = h
in_progress-Keeps (pos n) t w h = record {
  registered = refl;
  ka_count = refl;
  ka_token = refl;
  balance = h.balance;
}

response_to-Keeps : (s : Status) (u w : World) → Keeps u w → Keeps u (response_to (s, w)).1
unfolding response_to
response_to-Keeps ok u w h = h
response_to-Keeps deferred_command_execution u w h = h
response_to-Keeps _ u w h = h

module _ (env : Environment) where
  schedule-Keeps : (cb : AlarmCallback) (w : World) → Keeps w (schedule env cb w)
  unfolding schedule
  schedule-Keeps cb w = in_progress-Keeps _ _ w (alarm_set-Keeps env 10 cb true w)

  execute_one-Keeps : (type : ℕ) (w : World) → Keeps w (execute_one env type w)
  unfolding execute_one
  execute_one-Keeps type w =
      Keeps-if (type == Types.device_restart) (schedule-Keeps execute_restart_alarm w) (
        Keeps-if (type == Types.device_shutdown) (schedule-Keeps execute_shutdown_alarm w)
          (Keeps-same w))

  execute_all-Keeps : (cs : List Cmd) (w : World) → Keeps w (execute_all env cs w)
  unfolding execute_all
  execute_all-Keeps [] w = Keeps-same w
  execute_all-Keeps (c ∷ cs) w =
      Keeps-then (execute_one-Keeps c.type w) (execute_all-Keeps cs (execute_one env c.type w))

  execution_parsed-Keeps :
      (r : Option (Status × List Cmd)) (w : World) → Keeps w (execution_parsed env r w).1
  unfolding execution_parsed
  execution_parsed-Keeps none w = record {
    registered = refl;
    ka_count = refl;
    ka_token = refl;
    balance = λ b weight. omega (arith, b weight);
  }
  execution_parsed-Keeps (some (ok, cs)) w = execute_all-Keeps cs w
  execution_parsed-Keeps (some (_, cs)) w = Keeps-same w

  execution_bytes-Keeps : (raw : List ℕ) (w : World) → Keeps w (execution_bytes env raw w).1
  unfolding execution_bytes
  execution_bytes-Keeps [] w = Keeps-same w
  execution_bytes-Keeps (b ∷ bs) w = execution_parsed-Keeps _ w

  unless_deferred-Keeps :
      (b : Bool) (raw : List ℕ) (w : World)
      → Keeps w
          (response_to (if b then (deferred_command_execution, w) else execution_bytes env raw w)).1
  unless_deferred-Keeps true raw w = response_to-Keeps deferred_command_execution w w (Keeps-same w)
  unless_deferred-Keeps false raw w = response_to-Keeps _ w _ (execution_bytes-Keeps raw w)

  pub execute_command_cb-Keeps :
      (raw : List ℕ) (w : World) → Keeps w (execute_command_cb env raw w).1
  unfolding execute_command_cb execution_parse
  execute_command_cb-Keeps raw w = unless_deferred-Keeps w.cmd_in_progress raw w
