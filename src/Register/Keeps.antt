-- ===== src/Register/Keeps.antt =====
-- The requests of registration and policy only send.
use atlas_client.Prelude.{if◌then◌else◌, codes, Bool, true, false}
use atlas_client.Status.{put, post, Response, resp_ok}
use atlas_client.Callbacks.{policy_callback, reg_callback, policy_alarm}
use atlas_client.Environment.{Environment}
use atlas_client.World.{World}
use atlas_client.World.Keeps.{
  Keeps, Keeps-same, Keeps-if, Keeps-then, written-Keeps, request-Keeps, alarm_set-Keeps,
}
use atlas_client.Register.{send_register_command, register_cmds}
use atlas_client.Register.Policy.{send_policy_command, policy_cmds, handle_policy_response}

pub send_policy_command-Keeps :
    (env : Environment) (w : World) → Keeps w (send_policy_command env w)
unfolding send_policy_command
send_policy_command-Keeps env w =
    Keeps-if w.policy.active
      (Keeps-then (written-Keeps (policy_cmds w) w)
        (request-Keeps env (codes "gateway/policy") put _ 5000 policy_callback _))
      (Keeps-same w)

module _ (env : Environment) where
  -- A registration of a client that was not registered sends the policy.
  abbrev pub if_policy : Bool → World → World
  if_policy b w = if b then w else send_policy_command env w

  pub if_policy-Keeps : (b : Bool) (w : World) → Keeps w (if_policy b w)
  if_policy-Keeps true w = Keeps-same w
  if_policy-Keeps false w = send_policy_command-Keeps env w

  pub send_register_command-Keeps : (w : World) → Keeps w (send_register_command env w)
  unfolding send_register_command
  send_register_command-Keeps w =
      Keeps-then (written-Keeps (register_cmds env w) w)
        (request-Keeps env (codes "gateway/register") post _ 5000 reg_callback _)

  pub handle_policy_response-Keeps :
      (response : Response) (w : World) → Keeps w (handle_policy_response env response w)
  unfolding handle_policy_response
  handle_policy_response-Keeps resp_ok w = Keeps-same w
  handle_policy_response-Keeps _ w = alarm_set-Keeps env 5000 policy_alarm true w
