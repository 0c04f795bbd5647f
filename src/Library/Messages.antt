-- ===== src/Library/Messages.antt =====
-- The messages between the library and the client, from the writer of one process to the reader of the
-- other: src/data_plane/atlas_client.c and src/data_plane_connector/atlas_data_plane_connector.c.
use atlas_client.Prelude.{
  ℕ, ◌/◌, ◌%◌, ◌<◌, ◌≡◌, ◌≢◌, refl, ◌∙◌, Option, some, List, [], ◌∷◌, ◌++◌, ℤ, arith, All, length,
  length-append, lt→ltb, take, take-short, ◌≤◌,
}
use atlas_client.Status.{ok, general_err, Response, resp_ok}
use atlas_client.Environment.{Environment, socket_written}
use atlas_client.Commands.{Cmd, host_bytes, build}
use atlas_client.Commands.Types
use atlas_client.Commands.Wire.{encode, IsByte}
use atlas_client.Commands.RoundTrip.{build_lem}
use atlas_client.Commands.Iterate.{read_all-encode}
use atlas_client.World.{World, recorded, bytes_of, written}
use atlas_client.Connector.{
  word_at, store, read_one, read_loop, read_cb, identity, send_to_data_plane, reputation_one,
  reputation_loop, reputation_parsed, reputation_resp_parse, handle_reputation,
}
use atlas_client.Connector.Messages.{read_cb-encode, word_at-host_bytes}
use atlas_client.Library.{Library, batch_bytes, int_bytes, statistics_cmds, take_statistics}
use atlas_client.Library.Requests.{
  Reply, identity_in, identity_parsed, identity_reply, reputation_in, reputation_reply,
}
use atlas_client.Library.Requests

pub build-fits : (cs : List Cmd) → length (encode cs) < 65536 → build cs ≡ some (encode cs)
build-fits cs fits = build_lem cs ∙ rw (lt→ltb (length (encode cs)) 65536 fits) refl

word_at-int_bytes : (n : ℕ) (rest : List ℕ) → word_at (int_bytes n ++ rest) ≡ some (n % 65536)
word_at-int_bytes n rest =
    word_at-host_bytes (n % 65536) (host_bytes (n / 65536) ++ rest) (omega arith)

-- Statistics in the range of an int are taken from the library and reset, and the client has their low
-- sixteen bits.
pub statistics-read_cb :
    (env : Environment) (fd : ℤ) (s : Library) (w : World)
    → s.payload_samples < 2147483648
    → s.payload_avg < 2147483648
    → (bytes : List ℕ) × (take_statistics s
        ≡ (bytes, record s { payload_samples = 0; payload_total = 0; payload_avg = 0 }))
      × (read_cb env fd bytes w ≡ record w {
        packets_per_min = s.payload_samples % 65536;
        packets_avg = s.payload_avg % 65536;
      })
unfolding take_statistics statistics_cmds batch_bytes read_loop read_one store
statistics-read_cb env fd s w hs ha = (
  encode (samples ∷ avg ∷ []),
  rw (build-fits (samples ∷ avg ∷ []) (omega arith)) refl,
  read_cb-encode env fd samples (avg ∷ []) w (omega arith)
      ∙ rw
          (
            word_at-int_bytes s.payload_samples (encode (avg ∷ [])),
            word_at-int_bytes s.payload_avg [],
          )
          refl,
)
  where
    samples : Cmd
    samples = record {
      type = Types.data_plane_packets_per_minute;
      value = int_bytes s.payload_samples;
    }

    avg : Cmd
    avg = record { type = Types.data_plane_packets_avg; value = int_bytes s.payload_avg }

-- What the client writes to the data plane.
written-one :
    (c : Cmd) (w : World)
    → length c.value < 65532
    → send_to_data_plane (written (c ∷ []) w)
      ≡ recorded (socket_written w.connected_socket (encode (c ∷ []))) w
unfolding send_to_data_plane written bytes_of
written-one c w fits = rw (build-fits (c ∷ []) (omega (arith, fits, length-append c.value []))) refl

-- A message of one command that fits the buffer is read whole.
whole : (c : Cmd) → length c.value ≤ 2044 → take 2048 (encode (c ∷ [])) ≡ encode (c ∷ [])
whole c fits = take-short 2048 (encode (c ∷ [])) (omega (arith, fits, length-append c.value []))

abbrev pub identity_request : Cmd
identity_request = record { type = Types.data_plane_get_identity; value = [] }

-- The library's request for the identity is answered with the client's, which is then the caller's, if
-- its 2044 bytes at most and a header fit the 2048 bytes that the library reads.
pub identity-exchange :
    (env : Environment) (fd : ℤ) (cell : Option (List ℕ)) (s : Library) (w : World)
    → All IsByte w.identity
    → length w.identity ≤ 2044
    → (ask reply : List ℕ) × (build (identity_request ∷ []) ≡ some ask)
      × (read_cb env fd ask w ≡ recorded (socket_written w.connected_socket reply) w)
      × (identity_reply cell reply s ≡ (ok, some w.identity, s))
unfolding identity_reply identity_parsed identity_in read_loop read_one identity
identity-exchange env fd cell s w bytes fits = (
  encode (identity_request ∷ []),
  encode (answer ∷ []),
  build-fits (identity_request ∷ []) (omega arith),
  read_cb-encode env fd identity_request [] w (omega arith)
      ∙ written-one answer w (omega (arith, fits)),
  rw
      (
        whole answer fits,
        read_all-encode (answer ∷ []) (λ e. cc) ((omega arith, omega (arith, fits), bytes), tt),
      )
      refl,
)
  where
    answer : Cmd
    answer = record { type = Types.data_plane_identity; value = w.identity }

abbrev pub best_identity : List ℕ → Cmd
best_identity id = record { type = Types.data_plane_feature_reputation; value = id }

abbrev no_identity : Cmd
no_identity = record { type = Types.data_plane_feature_error; value = [] }

-- The gateway's answer to a reputation request, passed on by the client, is the answer that the
-- library's caller gets: the identity, of 2044 bytes at most, which with its header fit the 2048 bytes
-- that the library reads.
pub reputation-answer :
    (cell : Option (List ℕ)) (id : List ℕ) (s : Library) (w : World)
    → All IsByte id
    → length id ≤ 2044
    → (reply : List ℕ) × (handle_reputation resp_ok (encode (best_identity id ∷ [])) w
        ≡ recorded (socket_written w.connected_socket reply) w)
      × (reputation_reply cell reply s ≡ (ok, some id, s))
unfolding handle_reputation reputation_resp_parse reputation_parsed reputation_loop reputation_one
    reputation_reply Requests.reputation_parsed reputation_in
reputation-answer cell id s w bytes fits =
    let read =
      read_all-encode (best_identity id ∷ []) (λ e. cc)
        ((omega arith, omega (arith, fits), bytes), tt) in
    (
      encode (best_identity id ∷ []),
      rw read (written-one (best_identity id) w (omega (arith, fits))),
      rw (whole (best_identity id) fits, read) refl,
    )

handle_error :
    (code : Response) (payload : List ℕ) (w : World)
    → code ≢ resp_ok
    → handle_reputation code payload w ≡ send_to_data_plane (written (no_identity ∷ []) w)
unfolding handle_reputation
handle_error resp_ok payload w bad = absurd (bad refl)
handle_error _ payload w bad = refl

-- A request that the gateway does not answer with success ends in an error for the library's caller,
-- whose variable is as it was.
pub reputation-error :
    (code : Response) (payload : List ℕ) (cell : Option (List ℕ)) (s : Library) (w : World)
    → code ≢ resp_ok
    → (reply : List ℕ) × (handle_reputation code payload w
        ≡ recorded (socket_written w.connected_socket reply) w)
      × (reputation_reply cell reply s ≡ (general_err, cell, s))
unfolding reputation_reply Requests.reputation_parsed reputation_in
reputation-error code payload cell s w bad = (
  encode (no_identity ∷ []),
  handle_error code payload w bad ∙ written-one no_identity w (omega arith),
  rw (whole no_identity (omega arith), read_all-encode (no_identity ∷ []) (λ e. cc) (omega arith))
      refl,
)
