-- ===== src/Connector.antt =====
-- The connection to the data plane: src/data_plane_connector/atlas_data_plane_connector.h and
-- atlas_data_plane_connector.c, less the policy request, which Register.Policy has.
pub mod Start
pub mod Keeps
pub mod Messages
mod Examples
use atlas_client.Prelude.{
  ℕ, zero, ◌+◌, Bool, true, false, Option, none, some, List, [], ◌∷◌, ◌++◌, ◌==◌, ℤ, minus_one,
  ◌==ℤ◌, if◌then◌else◌, codes,
}
use atlas_client.Status.{Status, ok, put, Response, resp_ok}
use atlas_client.Callbacks.{data_plane_read, feature_reputation_callback, feedback_callback}
use atlas_client.Environment.{socket_written, socket_accepted, closed, faulted, Environment}
use atlas_client.Scheduler.{add_entry, del_entry}
use atlas_client.Alarm
use atlas_client.Alarm.{Timers}
use atlas_client.Commands.{Cmd, host, read_all}
use atlas_client.Commands.Types
use atlas_client.Commands.Wire.{encode}
use atlas_client.World.{World, recorded, set_timers, written, request}
use atlas_client.Register.Policy.{send_policy_command}

-- `memcpy` of a uint16_t from a command's value, whatever the value's length: the bytes behind it are
-- those of the commands that follow, which are still in network order. `none` is behind the block.
unfoldable pub word_at : List ℕ → Option ℕ
word_at (low ∷ high ∷ rest) = some (host low high)
word_at _ = none

unfoldable pub store : (ℕ → World → World) → Option ℕ → World → World
store set none w = recorded faulted w
store set (some n) w = set n w

abbrev pub set_policy_qos : ℕ → World → World
set_policy_qos n w = record w { policy = record w.policy { qos = n } }

abbrev pub set_policy_packets_per_min : ℕ → World → World
set_policy_packets_per_min n w = record w { policy = record w.policy { packets_per_min = n } }

abbrev pub set_policy_packets_maxlen : ℕ → World → World
set_policy_packets_maxlen n w = record w { policy = record w.policy { packets_maxlen = n } }

abbrev pub set_packets_per_min : ℕ → World → World
set_packets_per_min n w = record w { packets_per_min = n }

abbrev pub set_packets_avg : ℕ → World → World
set_packets_avg n w = record w { packets_avg = n }

-- One round of the loop of `parse_policy`.
unfoldable pub policy_one : Cmd → List Cmd → World → World
policy_one cmd rest w =
    let word = word_at (cmd.value ++ encode rest) in
    if cmd.type == Types.data_plane_policy_qos
    then store set_policy_qos word w
    else if cmd.type == Types.data_plane_policy_packets_per_minute
    then store set_policy_packets_per_min word w
    else if cmd.type == Types.data_plane_policy_packets_maxlen
    then store set_policy_packets_maxlen word w
    else w

unfoldable pub policy_loop : List Cmd → World → World
policy_loop [] w = w
policy_loop (cmd ∷ rest) w = policy_loop rest (policy_one cmd rest w)

-- What is written to the data plane.
unfoldable pub send_to_data_plane : List ℕ × World → World
send_to_data_plane (bytes, w) = recorded (socket_written w.connected_socket bytes) w

unfoldable pub reputation_one : Cmd → World → World
reputation_one cmd w =
    if cmd.type == Types.data_plane_feature_reputation
    then send_to_data_plane
        (written (record { type = Types.data_plane_feature_reputation; value = cmd.value } ∷ []) w)
    else w

unfoldable pub reputation_loop : List Cmd → World → World
reputation_loop [] w = w
reputation_loop (cmd ∷ cmds) w = reputation_loop cmds (reputation_one cmd w)

unfoldable pub reputation_parsed : Option (Status × List Cmd) → World → World
reputation_parsed none w = recorded faulted w
reputation_parsed (some (ok, cmds)) w = reputation_loop cmds w
reputation_parsed (some (_, cmds)) w = w

unfoldable pub reputation_resp_parse : List ℕ → World → World
reputation_resp_parse [] w = w
reputation_resp_parse (b ∷ bs) w = reputation_parsed (read_all (b ∷ bs)) w

-- An error is told to the data plane by a command without a value.
unfoldable pub handle_reputation : Response → List ℕ → World → World
handle_reputation resp_ok payload w = reputation_resp_parse payload w
handle_reputation _ payload w =
    send_to_data_plane
      (written (record { type = Types.data_plane_feature_error; value = [] } ∷ []) w)

unfoldable pub identity : World → World
identity w =
    send_to_data_plane
      (written (record { type = Types.data_plane_identity; value = w.identity } ∷ []) w)

abbrev pub with_identity : ℕ → List ℕ → World → List Cmd
with_identity type value w =
    record { type = Types.identity; value = w.identity }
    ∷ record { type = type; value = value }
    ∷ []

-- The connection that there is, is closed.
unfoldable pub disconnect : World → World
disconnect w =
    let t = w.client.timers in
    if w.connected_socket ==ℤ minus_one
    then w
    else set_timers
        (Alarm.called (closed w.connected_socket)
          (record t { sched = del_entry w.connected_socket t.sched }))
        w

unfoldable pub connect : ℤ → World → World
connect fd w =
    let t = w.client.timers in
    let accepted = record (set_timers (Alarm.called (socket_accepted fd) t) w) {
      connected_socket = fd;
    } in
    if fd ==ℤ minus_one
    then accepted
    else set_timers
        (record accepted.client.timers { sched = add_entry fd (some data_plane_read) t.sched })
        accepted

module _ (env : Environment) where
  unfoldable pub feature_reputation_handle : List ℕ → World → World
  feature_reputation_handle [] w = w
  feature_reputation_handle (b ∷ bs) w =
      let (bytes, w') = written (with_identity Types.data_plane_feature_reputation (b ∷ bs) w) w in
      request env (codes "gateway/reputation/feature") put bytes 5000 feature_reputation_callback w'

  unfoldable pub feature_feedback_handle : List ℕ → World → World
  feature_feedback_handle [] w = w
  feature_feedback_handle (b ∷ bs) w =
      let (bytes, w') = written (with_identity Types.data_plane_feedback (b ∷ bs) w) w in
      request env (codes "gateway/reputation/feedback") put bytes 5000 feedback_callback w'

  unfoldable pub policy_parsed : Option (Status × List Cmd) → World → World
  policy_parsed none w = recorded faulted w
  policy_parsed (some (ok, cmds)) w =
      let read = policy_loop cmds w in
      send_policy_command env (record read { policy = record read.policy { active = true } })
  policy_parsed (some (_, cmds)) w = w

  unfoldable pub parse_policy : List ℕ → World → World
  parse_policy [] w = w
  parse_policy (b ∷ bs) w = policy_parsed (read_all (b ∷ bs)) w

  -- One round of the loop of `read_cb`.
  unfoldable pub read_one : Cmd → List Cmd → World → World
  read_one cmd rest w =
      let word = word_at (cmd.value ++ encode rest) in
      if cmd.type == Types.data_plane_policy
      then parse_policy cmd.value w
      else if cmd.type == Types.data_plane_packets_per_minute
      then store set_packets_per_min word w
      else if cmd.type == Types.data_plane_packets_avg
      then store set_packets_avg word w
      else if cmd.type == Types.data_plane_feature_reputation
      then feature_reputation_handle cmd.value w
      else if cmd.type == Types.data_plane_feedback
      then feature_feedback_handle cmd.value w
      else if cmd.type == Types.data_plane_get_identity
      then identity w
      else w

  unfoldable pub read_loop : List Cmd → World → World
  read_loop [] w = w
  read_loop (cmd ∷ rest) w = read_loop rest (read_one cmd rest w)

  unfoldable pub read_parsed : Option (Status × List Cmd) → World → World
  read_parsed none w = recorded faulted w
  read_parsed (some (ok, cmds)) w = read_loop cmds w
  read_parsed (some (_, cmds)) w = w

  -- With the bytes that `read` gave, 2048 at most; none is an error or the end.
  unfoldable pub read_cb : ℤ → List ℕ → World → World
  read_cb fd [] w =
      set_timers (record w.client.timers { sched = del_entry fd w.client.timers.sched }) w
  read_cb fd (b ∷ bs) w = read_parsed (read_all (b ∷ bs)) w

  unfoldable pub accept_cb : World → World
  accept_cb w = let w' = disconnect w in connect (env.accept w'.client.timers.history) w'
