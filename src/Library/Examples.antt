-- ===== src/Library/Examples.antt =====
-- Tests of the library and of its messages.
use atlas_client.Prelude.{
  ◌≡◌, zero, suc, ap, refl, none, some, List, [], ◌∷◌, ℕ, pos, minus_one, codes, length, arith,
  if◌then◌else◌,
}
use atlas_client.Status.{ok, general_err, resp_ok, timeout, corrupted_command}
use atlas_client.Environment.{socket_written}
use atlas_client.Environment.Samples.{online}
use atlas_client.Commands.{build}
use atlas_client.Commands.Wire.{encode}
use atlas_client.World.{recorded}
use atlas_client.World.Samples.{fresh}
use atlas_client.Connector.{read_cb, handle_reputation}
use atlas_client.Library.{
  Kernel, Library, called, message_written, take_statistics, write_to_socket_retry,
}
use atlas_client.Library.Requests.{Feedback, identity_reply, reputation_reply}
use atlas_client.Library.Messages.{
  identity-exchange, identity_request, reputation-answer, best_identity, reputation-error,
}
use atlas_client.Library.Cut.{own_identity, long_identity-refused}
use atlas_client.Library.Statistics.{receive_all, received-read_cb}
use atlas_client.Library.Reconnect.{
  reconnected, IsUp, registration_message, on_new_connection, write-resent,
}

-- The client is up, and takes messages on a new connection only.
abbrev client_up : Kernel
client_up = record {
  socket = λ h. pos 4;
  connect = λ h. pos 0;
  write = λ h buf. if reconnected h then pos (length buf) else minus_one;
  read = λ h. [];
}

client_up-IsUp : IsUp client_up
client_up-IsUp = record {
  opens = λ h. refl;
  accepts = λ h. refl;
  takes = λ h buf taken. rw taken refl;
}

abbrev idle : Library
idle = record {
  calls = [];
  fd = minus_one;
  payload_samples = 0;
  payload_total = 0;
  payload_avg = 0;
  qos = 1;
  packets_per_min = 60;
  packets_maxlen = 256;
}

write-resent_example :
    write_to_socket_retry client_up 2 (7 ∷ [], idle)
    ≡ some (
        called (message_written (7 ∷ [])) (
          called
            (message_written (registration_message idle))
            (on_new_connection client_up (called (message_written (7 ∷ [])) idle))))
write-resent_example = write-resent client_up client_up-IsUp 0 (7 ∷ []) idle refl

received-read_cb_example :
    (bytes : List ℕ) × (take_statistics (receive_all (10 ∷ 30 ∷ []) idle)
      ≡ (bytes, record idle { payload_samples = 0; payload_total = 0; payload_avg = 0 }))
    × (read_cb online (pos 3) bytes fresh ≡ record fresh { packets_per_min = 2; packets_avg = 20 })
received-read_cb_example =
    received-read_cb online (pos 3) 10 (30 ∷ []) idle fresh refl refl (omega arith) (omega arith)

identity-exchange_example :
    (ask reply : List ℕ) × (build (identity_request ∷ []) ≡ some ask)
    × (read_cb online (pos 3) ask fresh ≡ recorded (socket_written minus_one reply) fresh)
    × (identity_reply none reply idle ≡ (ok, some (codes "device"), idle))
identity-exchange_example =
    identity-exchange online (pos 3) none idle fresh (omega arith) (omega arith)

reputation-answer_example :
    (reply : List ℕ) × (handle_reputation resp_ok (encode (best_identity (codes "peer") ∷ [])) fresh
      ≡ recorded (socket_written minus_one reply) fresh)
    × (reputation_reply none reply idle ≡ (ok, some (codes "peer"), idle))
reputation-answer_example =
    reputation-answer none (codes "peer") idle fresh (omega arith) (omega arith)

reputation-error_example :
    (reply : List ℕ) × (handle_reputation timeout [] fresh
      ≡ recorded (socket_written minus_one reply) fresh)
    × (reputation_reply none reply idle ≡ (general_err, none, idle))
reputation-error_example = reputation-error timeout [] none idle fresh (λ e. cc)

abbrev good : Feedback
good = record { identity = codes "peer"; sensor_type = 101; sensor_score = 100; time_score = 0 }

abbrev too_good : Feedback
too_good = record good { time_score = 101 }

abbrev repeated : ℕ → List ℕ
repeated zero = []
repeated (suc n) = 97 ∷ repeated n

length-repeated : (n : ℕ) → length (repeated n) ≡ n
length-repeated zero = refl
length-repeated (suc n) = ap suc (length-repeated n)

long_identity-refused_example :
    (identity_reply none (encode (own_identity (repeated 2045) ∷ [])) idle
      ≡ (corrupted_command, none, idle))
    × (reputation_reply none (encode (best_identity (repeated 2045) ∷ [])) idle
        ≡ (corrupted_command, none, idle))
long_identity-refused_example =
    long_identity-refused none (repeated 2045) idle (omega (arith, length-repeated 2045))
      (omega (arith, length-repeated 2045))
