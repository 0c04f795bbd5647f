-- ===== src/Register/Policy.antt =====
-- The firewall policy that the gateway gets:
-- src/data_plane_connector/atlas_data_plane_connector.c.
use atlas_client.Prelude.{true, List, [], ◌∷◌, if◌then◌else◌, codes}
use atlas_client.Status.{put, Response, resp_ok}
use atlas_client.Callbacks.{policy_alarm, policy_callback}
use atlas_client.Environment.{Environment}
use atlas_client.Alarm.{alarm_set}
use atlas_client.Commands.{Cmd, htons_bytes}
use atlas_client.Commands.Types
use atlas_client.World.{World, set_timers, written, request}

unfoldable pub policy_cmds : World → List Cmd
policy_cmds w =
    record { type = Types.data_plane_policy_qos; value = htons_bytes w.policy.qos }
    ∷ record {
      type = Types.data_plane_policy_packets_per_minute;
      value = htons_bytes w.policy.packets_per_min;
    }
    ∷ record {
      type = Types.data_plane_policy_packets_maxlen;
      value = htons_bytes w.policy.packets_maxlen;
    }
    ∷ []

module _ (env : Environment) where
  unfoldable pub send_policy_command : World → World
  send_policy_command w =
      let (bytes, w') = written (policy_cmds w) w in
      if w.policy.active
      then request env (codes "gateway/policy") put bytes 5000 policy_callback w'
      else w

  unfoldable pub policy_alarm_callback : World → World
  unfolding send_policy_command
  policy_alarm_callback w = send_policy_command w

  unfoldable pub handle_policy_response : Response → World → World
  handle_policy_response resp_ok w = w
  handle_policy_response _ w = set_timers (alarm_set env 5000 policy_alarm true w.client.timers).1 w
