-- ===== src/Register/Sound.antt =====
-- Registration and keep-alive keep the program sound.
use atlas_client.Prelude.{ℕ, ◌+◌, ◌%◌, Bool, true, false, List, ◌==◌, if◌then◌else◌, codes, arith}
use atlas_client.Status.{put, Response, resp_ok, not_found, not_acceptable_here}
use atlas_client.Callbacks.{keepalive_callback, keepalive_alarm, reg_alarm}
use atlas_client.Environment.{Environment}
use atlas_client.World.{World}
use atlas_client.World.Keeps.{
  Keeps-then, written-Keeps, request-Keeps, alarm_set-Keeps, alarm_cancel-Keeps, IsSound,
  Keeps-IsSound,
}
use atlas_client.Telemetry.{push_all}
use atlas_client.Telemetry.Keeps.{push_all-Keeps}
use atlas_client.Register.{
  has_token, send_keepalive_command, keepalive_cmds, lose_registration, keepalive_error,
  handle_keepalive, handle_registration,
}
use atlas_client.Register.Keeps.{if_policy, if_policy-Keeps, send_register_command-Keeps}

pub if-IsSound : (b : Bool) {u v : World} → IsSound u → IsSound v → IsSound (if b then u else v)
if-IsSound true h k = h
if-IsSound false h k = k

module _ (env : Environment) where
  pub send_keepalive_command-IsSound :
      (w : World) → IsSound w → IsSound (send_keepalive_command env w)
  unfolding send_keepalive_command
  send_keepalive_command-IsSound w s =
      let next : World = record w { ka_token = (w.ka_token + 1) % 65536 } in
      let next-IsSound : IsSound next = record {
        balance = s.balance;
        count_byte = s.count_byte;
        token_word = omega arith;
      } in
      Keeps-IsSound
        (Keeps-then (written-Keeps (keepalive_cmds env next) next)
          (request-Keeps env (codes "gateway/keepalive") put _ 5000 keepalive_callback _))
        next-IsSound

  lose_registration-IsSound : (w : World) → IsSound w → IsSound (lose_registration env w)
  unfolding lose_registration
  lose_registration-IsSound w s =
      let c = Keeps-IsSound (alarm_cancel-Keeps w.ka_alarm_id w) s in
      Keeps-IsSound (send_register_command-Keeps env _)
        (record { balance = c.balance; count_byte = c.count_byte; token_word = c.token_word })

  keepalive_error-IsSound : (w : World) → IsSound w → IsSound (keepalive_error env w)
  unfolding keepalive_error
  keepalive_error-IsSound w s =
      let next : IsSound (record w { ka_count = (w.ka_count + 255) % 256 }) = record {
        balance = s.balance;
        count_byte = omega arith;
        token_word = s.token_word;
      } in
      if-IsSound ((w.ka_count + 255) % 256 == 0) (lose_registration-IsSound _ next) next

  -- So does the answer to a keep-alive request, whatever it is,
  pub handle_keepalive-IsSound :
      (response : Response) (payload : List ℕ) (w : World)
      → IsSound w
      → IsSound (handle_keepalive env response payload w)
  unfolding handle_keepalive
  handle_keepalive-IsSound resp_ok payload w s =
      if-IsSound (has_token w.ka_token payload)
        (record { balance = s.balance; count_byte = omega arith; token_word = s.token_word })
        (keepalive_error-IsSound w s)
  handle_keepalive-IsSound not_found payload w s =
      keepalive_error-IsSound _
        (record { balance = s.balance; count_byte = omega arith; token_word = s.token_word })
  handle_keepalive-IsSound not_acceptable_here payload w s =
      keepalive_error-IsSound _
        (record { balance = s.balance; count_byte = omega arith; token_word = s.token_word })
  handle_keepalive-IsSound _ payload w s = keepalive_error-IsSound w s

  -- and the answer to a registration.
  pub handle_registration-IsSound :
      (response : Response) (w : World) → IsSound w → IsSound (handle_registration env response w)
  unfolding handle_registration
  handle_registration-IsSound resp_ok w s =
      let sent = Keeps-IsSound (if_policy-Keeps env w.registered w) s in
      let up : World = record (if_policy env w.registered w) { registered = true } in
      let up-IsSound : IsSound up = record {
        balance = sent.balance;
        count_byte = sent.count_byte;
        token_word = sent.token_word;
      } in
      let timed =
        Keeps-IsSound
          (Keeps-then (push_all-Keeps env up)
            (alarm_set-Keeps env 20000 keepalive_alarm false (push_all env up)))
          up-IsSound in
      record {
        balance = timed.balance;
        count_byte = timed.count_byte;
        token_word = timed.token_word;
      }
  handle_registration-IsSound _ w s = Keeps-IsSound (alarm_set-Keeps env 5000 reg_alarm true w) s
