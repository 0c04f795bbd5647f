-- ===== src/Library.antt =====
-- The library that the data plane links: src/data_plane/atlas_client.h and atlas_client.c. It is another
-- process than the client, with a kernel of its own. The mutex makes the two updates of the statistics
-- atomic. `none` is fuel that ran out: the functions that write to the client try without end.
pub mod Requests
pub mod Statistics
pub mod Feedback
pub mod Reconnect
pub mod Messages
pub mod Cut
mod Examples
use atlas_client.Prelude.{
  ℕ, zero, suc, ◌+◌, ◌/◌, ◌%◌, Bool, ◌&&◌, Option, none, some, List, [], ◌∷◌, ◌++◌, ℤ, pos,
  minus_one, ◌==ℤ◌, ltb, length, if◌then◌else◌,
}
use atlas_client.Commands.{Cmd, host_bytes, build}
use atlas_client.Commands.Types

pub data LibCall : Type 0 where
  lib_closed : ℤ → LibCall
  socket_made : ℤ → LibCall
  connect_tried : LibCall
  message_written : List ℕ → LibCall
  message_read : LibCall
  lib_faulted : LibCall

abbrev pub LibHistory : Type 0
LibHistory = List LibCall

-- What the calls return: `socket` a descriptor or -1, `connect` 0 or -1, `write` the number of bytes or
-- -1, and `read` the bytes, none where it fails or times out.
pub record Kernel : Type 0 where
  pub socket : LibHistory → ℤ
  pub connect : LibHistory → ℤ
  pub write : LibHistory → List ℕ → ℤ
  pub read : LibHistory → List ℕ

-- client_info_t and the other static variables. The statistics are ints that are not negative.
pub record Library : Type 0 where
  pub calls : LibHistory
  pub fd : ℤ
  pub payload_samples : ℕ
  pub payload_total : ℕ
  pub payload_avg : ℕ
  pub qos : ℕ
  pub packets_per_min : ℕ
  pub packets_maxlen : ℕ

abbrev pub called : LibCall → Library → Library
called c s = record s { calls = c ∷ s.calls }

-- The bytes of a new batch; one that overruns its block is a fault.
unfoldable pub batch_bytes : Option (List ℕ) → Library → List ℕ × Library
batch_bytes none s = ([], called lib_faulted s)
batch_bytes (some bytes) s = (bytes, s)

-- An int of the host.
abbrev pub int_bytes : ℕ → List ℕ
int_bytes n = host_bytes (n % 65536) ++ host_bytes (n / 65536)

-- The length of a packet is not negative. A sum or a count out of the range of an int is undefined.
unfoldable pub pkt_received : ℕ → Library → Library
pkt_received payload_len s =
    let samples = s.payload_samples + 1 in
    let total = s.payload_total + payload_len in
    let counted = record s {
      payload_samples = samples;
      payload_total = total;
      payload_avg = total / samples;
    } in
    if ltb total 2147483648 && ltb samples 2147483648 then counted else called lib_faulted counted

unfoldable pub policy_cmds : Library → List Cmd
policy_cmds s =
    record { type = Types.data_plane_policy_qos; value = host_bytes s.qos }
    ∷ record {
      type = Types.data_plane_policy_packets_per_minute;
      value = host_bytes s.packets_per_min;
    }
    ∷ record { type = Types.data_plane_policy_packets_maxlen; value = host_bytes s.packets_maxlen }
    ∷ []

-- A batch that is the only command of another.
unfoldable pub nested : ℕ → List ℕ × Library → List ℕ × Library
nested type (inner, s) = batch_bytes (build (record { type = type; value = inner } ∷ [])) s

unfoldable pub registration : Library → List ℕ × Library
registration s = nested Types.data_plane_policy (batch_bytes (build (policy_cmds s)) s)

unfoldable pub and_then : (Library → Option Library) → Option Library → Option Library
and_then next none = none
and_then next (some s) = next s

unfoldable pub statistics_cmds : Library → List Cmd
statistics_cmds s =
    record { type = Types.data_plane_packets_per_minute; value = int_bytes s.payload_samples }
    ∷ record { type = Types.data_plane_packets_avg; value = int_bytes s.payload_avg }
    ∷ []

-- The part under the mutex.
unfoldable pub take_statistics : Library → List ℕ × Library
take_statistics s =
    batch_bytes (build (statistics_cmds s))
      (record s { payload_samples = 0; payload_total = 0; payload_avg = 0 })

module _ (kernel : Kernel) where
  -- With how many bytes were written.
  unfoldable pub write_to_socket : List ℕ → Library → ℤ × Library
  write_to_socket buf s = (kernel.write s.calls buf, called (message_written buf) s)

  -- The loop that connects, once a second.
  unfoldable pub connect_loop : ℕ → Library → Option Library
  connect_loop zero s = none
  connect_loop (suc fuel) s =
      let tried = called connect_tried s in
      let rest = connect_loop fuel tried in
      if kernel.connect s.calls ==ℤ pos 0 then some tried else rest

  unfoldable pub open_socket : Library → Library
  open_socket s =
      let closed = called (lib_closed s.fd) s in
      let fd = kernel.socket closed.calls in record (called (socket_made fd) closed) { fd = fd }

  -- `send` is `write_to_socket_retry`, which this function and it call in turn.
  unfoldable pub socket_connect : (List ℕ × Library → Option Library) → ℕ → Library → Option Library
  socket_connect send fuel s =
      let opened = open_socket s in
      if opened.fd ==ℤ minus_one
      then some opened
      else and_then (λ c. send (registration c)) (connect_loop fuel opened)

  unfoldable pub write_to_socket_retry : ℕ → List ℕ × Library → Option Library
  write_to_socket_retry zero (buf, s) = none
  write_to_socket_retry (suc fuel) (buf, s) =
      let (bytes, s') = write_to_socket buf s in
      let again =
        and_then (λ c. write_to_socket_retry fuel (buf, c))
          (socket_connect (write_to_socket_retry fuel) fuel s') in
      if bytes ==ℤ pos (length buf) then some s' else again

  unfoldable pub send_registration_command : ℕ → Library → Option Library
  send_registration_command fuel s = write_to_socket_retry fuel (registration s)

  unfoldable pub send_statistics_command : ℕ → Library → Option Library
  send_statistics_command fuel s = write_to_socket_retry fuel (take_statistics s)
