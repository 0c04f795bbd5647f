-- ===== src/Library/Requests.antt =====
-- What the data plane asks the client for, and the feedback that it gives: the public functions of
-- src/data_plane/atlas_client.c. An identity that the caller gets is the text, or `none` for the null
-- pointer.
use atlas_client.Prelude.{
  ℕ, ◌%◌, ◌||◌, Option, none, some, List, [], ◌∷◌, pos, ◌==ℤ◌, ◌==◌, ltb, length, take,
  if◌then◌else◌,
}
use atlas_client.Status.{Status, ok, general_err, invalid_input, socket_error}
use atlas_client.Commands.{Cmd, htons_bytes, build, read_all}
use atlas_client.Commands.Types
use atlas_client.Library.{
  Kernel, Library, called, message_read, lib_faulted, batch_bytes, nested, write_to_socket,
  write_to_socket_retry, socket_connect,
}

-- The variable that the caller's pointer leads to, behind the status.
abbrev pub Reply : Type 0
Reply = Status × Option (List ℕ) × Library

-- atlas_feedback_t. The identity is the text in its array, which is never null.
pub record Feedback : Type 0 where
  pub identity : List ℕ
  pub sensor_type : ℕ
  pub sensor_score : ℕ
  pub time_score : ℕ

unfoldable pub feedback_cmds : Feedback → List Cmd
feedback_cmds f =
    record { type = Types.data_plane_feedback_identity; value = f.identity }
    ∷ record {
      type = Types.data_plane_feedback_sensor_type;
      value = htons_bytes (f.sensor_type % 65536);
    }
    ∷ record { type = Types.data_plane_feedback_sensor; value = htons_bytes f.sensor_score }
    ∷ record { type = Types.data_plane_feedback_response_time; value = htons_bytes f.time_score }
    ∷ []

-- The first loop's end: the identity command gives the text, and no other command ends it.
unfoldable pub identity_in : List Cmd → Option (List ℕ)
identity_in [] = none
identity_in (cmd ∷ cmds) =
    let rest = identity_in cmds in
    if cmd.type == Types.data_plane_identity then some cmd.value else rest

-- With what the reply was read as; `cell` is the caller's variable so far.
unfoldable pub identity_parsed : Option (List ℕ) → Option (Status × List Cmd) → Library → Reply
identity_parsed cell none s = (ok, cell, called lib_faulted s)
identity_parsed cell (some (ok, cmds)) s = (ok, identity_in cmds, s)
identity_parsed cell (some (status, cmds)) s = (status, cell, s)

-- ATLAS_CLIENT_DATA_PLANE_BUFFER_LEN.
abbrev pub read_max : ℕ
read_max = 2048

-- With the message that is there to be read: one that is longer than the buffer is cut.
unfoldable pub identity_reply : Option (List ℕ) → List ℕ → Library → Reply
identity_reply cell [] s = (socket_error, cell, s)
identity_reply cell (b ∷ bs) s = identity_parsed cell (read_all (take read_max (b ∷ bs))) s

-- The first command that says whether there is an identity.
unfoldable pub reputation_in : Option (List ℕ) → List Cmd → Status × Option (List ℕ)
reputation_in cell [] = (ok, cell)
reputation_in cell (cmd ∷ cmds) =
    let rest = reputation_in cell cmds in
    if cmd.type == Types.data_plane_feature_reputation
    then (ok, some cmd.value)
    else if cmd.type == Types.data_plane_feature_error
    then (general_err, cell)
    else rest

unfoldable pub reputation_parsed : Option (List ℕ) → Option (Status × List Cmd) → Library → Reply
reputation_parsed cell none s = (ok, cell, called lib_faulted s)
reputation_parsed cell (some (ok, cmds)) s =
    let (status, found) = reputation_in cell cmds in (status, found, s)
reputation_parsed cell (some (status, cmds)) s = (status, cell, s)

unfoldable pub reputation_reply : Option (List ℕ) → List ℕ → Library → Reply
reputation_reply cell [] s = (socket_error, cell, s)
reputation_reply cell (b ∷ bs) s = reputation_parsed cell (read_all (take read_max (b ∷ bs))) s

module _ (kernel : Kernel) where
  -- The status is looked at by no caller.
  unfoldable pub write_feedback : List ℕ × Library → Status × Library
  write_feedback (buf, s) =
      let (bytes, s') = write_to_socket kernel buf s in
      (if bytes ==ℤ pos (length buf) then ok else general_err, s')

  unfoldable pub send_feedback_command : Feedback → Library → Status × Library
  send_feedback_command f s =
      write_feedback (nested Types.data_plane_feedback (batch_bytes (build (feedback_cmds f)) s))

  -- The loop; what stands before an invalid score was sent.
  unfoldable pub feedback_loop : List Feedback → Library → Status × Library
  feedback_loop [] s = (ok, s)
  feedback_loop (f ∷ fs) s =
      let rest = feedback_loop fs (send_feedback_command f s).1 in
      if ltb 100 f.sensor_score || ltb 100 f.time_score then (invalid_input, s) else rest

  -- The null pointer is the empty array.
  unfoldable pub reputation_feedback : List Feedback → Library → Status × Library
  reputation_feedback [] s = (invalid_input, s)
  reputation_feedback (f ∷ fs) s = feedback_loop (f ∷ fs) s

  unfoldable pub reputation_written : Option (List ℕ) → List ℕ × Library → Reply
  reputation_written cell (buf, s) =
      let (bytes, s') = write_to_socket kernel buf s in
      let answer = reputation_reply cell (kernel.read s'.calls) (called message_read s') in
      if bytes ==ℤ pos (length buf) then answer else (socket_error, cell, s')

  -- `none` is the null pointer in place of the variable's address.
  unfoldable pub reputation_request : ℕ → Option (Option (List ℕ)) → Library → Reply
  reputation_request sensor_type none s = (invalid_input, none, s)
  reputation_request sensor_type (some cell) s =
      let asked : Cmd = record {
        type = Types.data_plane_feature_reputation;
        value = htons_bytes (sensor_type % 65536);
      } in
      reputation_written cell (batch_bytes (build (asked ∷ [])) s)

  unfoldable pub identity_written : Option (List ℕ) → Option Library → Option Reply
  identity_written cell none = none
  identity_written cell (some s) =
      some (identity_reply cell (kernel.read s.calls) (called message_read s))

  unfoldable pub send_identity_command : ℕ → Option (List ℕ) → Library → Option Reply
  send_identity_command fuel cell s =
      let asked : Cmd = record { type = Types.data_plane_get_identity; value = [] } in
      identity_written cell (write_to_socket_retry kernel fuel (batch_bytes (build (asked ∷ [])) s))

  unfoldable pub connected : ℕ → Option (List ℕ) → Option Library → Option Reply
  connected fuel cell none = none
  connected fuel cell (some s) = send_identity_command fuel cell s

  -- atlas_init, less the start of the thread that sends the statistics.
  unfoldable pub init : ℕ → ℕ → ℕ → ℕ → Option (Option (List ℕ)) → Library → Option Reply
  init fuel qos ppm maxlen none s = some (invalid_input, none, s)
  init fuel qos ppm maxlen (some cell) s =
      let set = record s { qos = qos; packets_per_min = ppm; packets_maxlen = maxlen } in
      connected fuel cell (socket_connect kernel (write_to_socket_retry kernel fuel) fuel set)
