-- ===== src/Register.antt =====
-- Registration and keep-alive: src/register/atlas_register.h and atlas_register.c, and the policy
-- request of src/data_plane_connector/atlas_data_plane_connector.c that a registration sends.
pub mod Policy
pub mod Keeps
pub mod KeepAlive
pub mod Sound
mod Examples
use atlas_client.Prelude.{
  ℕ, zero, suc, ◌+◌, ◌%◌, ◌/◌, Bool, true, false, not, Option, none, some, List, [], ◌∷◌, ◌==◌, ℤ,
  minus_one, if◌then◌else◌, codes,
}
use atlas_client.Status.{post, put, Response, resp_ok, not_found, not_acceptable_here}
use atlas_client.Callbacks.{reg_alarm, keepalive_alarm, reg_callback, keepalive_callback}
use atlas_client.Environment.{Environment}
use atlas_client.Alarm.{alarm_set, alarm_cancel}
use atlas_client.Commands.{Cmd, host}
use atlas_client.Commands.Types
use atlas_client.Config.{ip_port}
use atlas_client.World.{World, set_timers, written, request}
use atlas_client.Telemetry.{push_all}
use atlas_client.Register.Policy.{send_policy_command}

-- A uint16_t in the host's order.
abbrev pub token_bytes : ℕ → List ℕ
token_bytes n = (n % 256) ∷ (n / 256 % 256) ∷ []

-- Whether the payload begins with the token.
unfoldable pub has_token : ℕ → List ℕ → Bool
has_token token (low ∷ high ∷ rest) = host low high == token
has_token token _ = false

module _ (env : Environment) where
  -- Without an address the text stays empty.
  unfoldable pub address : World → List ℕ
  address w = elim (env.local_ip w.client.timers.history) [
    | none ↦ []
    | some ip ↦ ip_port env.print_unsigned w.config ip
  ]

  unfoldable pub register_cmds : World → List Cmd
  register_cmds w =
      record { type = Types.register; value = w.identity }
      ∷ record { type = Types.ip_port; value = address w }
      ∷ []

  unfoldable pub send_register_command : World → World
  send_register_command w =
      let (bytes, w') = written (register_cmds w) w in
      request env (codes "gateway/register") post bytes 5000 reg_callback w'

  unfoldable pub keepalive_cmds : World → List Cmd
  keepalive_cmds w =
      record { type = Types.identity; value = w.identity }
      ∷ record { type = Types.keepalive; value = token_bytes w.ka_token }
      ∷ record { type = Types.ip_port; value = address w }
      ∷ []

  -- The commands are of the world with the next token.
  unfoldable pub send_keepalive_command : World → World
  send_keepalive_command w =
      let next = record w { ka_token = (w.ka_token + 1) % 65536 } in
      let (bytes, w') = written (keepalive_cmds next) next in
      request env (codes "gateway/keepalive") put bytes 5000 keepalive_callback w'

  unfoldable pub keepalive_alarm_callback : World → World
  unfolding send_keepalive_command
  keepalive_alarm_callback w = send_keepalive_command w

  unfoldable pub reg_alarm_callback : World → World
  unfolding send_register_command
  reg_alarm_callback w = send_register_command w

  -- The gateway is taken to have forgotten the client.
  unfoldable pub lose_registration : World → World
  lose_registration w =
      send_register_command (record (set_timers (alarm_cancel w.ka_alarm_id w.client.timers) w) {
        registered = false;
        ka_alarm_id = minus_one;
      })

  -- The label ERR; the count is a uint8_t.
  unfoldable pub keepalive_error : World → World
  keepalive_error w =
      let count = (w.ka_count + 255) % 256 in
      let w' = record w { ka_count = count } in if count == 0 then lose_registration w' else w'

  unfoldable pub handle_keepalive : Response → List ℕ → World → World
  handle_keepalive resp_ok payload w =
      if has_token w.ka_token payload then record w { ka_count = 3 } else keepalive_error w
  handle_keepalive not_found payload w = keepalive_error (record w { ka_count = 1 })
  handle_keepalive not_acceptable_here payload w = keepalive_error (record w { ka_count = 1 })
  handle_keepalive _ payload w = keepalive_error w

  unfoldable pub handle_registration : Response → World → World
  handle_registration resp_ok w =
      let policy = if w.registered then w else send_policy_command env w in
      let pushed = push_all env (record policy { registered = true }) in
      let (id, t) = alarm_set env 20000 keepalive_alarm false pushed.client.timers in
      record (set_timers t pushed) { ka_alarm_id = id }
  handle_registration _ w = set_timers (alarm_set env 5000 reg_alarm true w.client.timers).1 w

  unfoldable pub register_start : World → World
  unfolding send_register_command
  register_start w = send_register_command w
