-- ===== src/World/Batches.antt =====
-- The receiver of a batch reads the commands that the sender wrote.
use atlas_client.Prelude.{
  ℕ, ◌+◌, ◌<◌, ◌≤◌, ◌≡◌, ◌≢◌, ap, some, List, [], ◌∷◌, arith, All, length, length-append,
}
use atlas_client.Status.{ok}
use atlas_client.Commands.{Cmd, read_all}
use atlas_client.Commands.Types
use atlas_client.Commands.Wire.{encode, IsByte, IsCmd}
use atlas_client.Commands.RoundTrip.{read_all-build}
use atlas_client.World.{World, bytes_of, written}
use atlas_client.Telemetry.Payload.{feature_cmds, text_payload}

-- A batch that fits 65535 bytes is written without a fault, and read back as the same commands.
pub written_lem :
    (cs : List Cmd) (w : World)
    → cs ≢ []
    → All IsCmd cs
    → length (encode cs) < 65536
    → (raw : List ℕ) × (written cs w ≡ (raw, w)) × (read_all raw ≡ some (ok, cs))
unfolding written bytes_of
written_lem cs w nonempty good fits =
    let (raw, built, read) = read_all-build cs nonempty good fits in
    (raw, ap (λ r. bytes_of r w) built, read)

-- The payload of a telemetry feature whose text has at most 128 bytes is written without a fault, and
-- read back as the client's identity, of at most 64 bytes, and that text.
pub text_payload_lem :
    (type : ℕ) (text : List ℕ) (w : World)
    → type < 65536
    → All IsByte text
    → length text ≤ 128
    → All IsByte w.identity
    → length w.identity ≤ 64
    → (raw : List ℕ) × (text_payload type text w ≡ (raw, w))
      × (read_all raw
          ≡ some (
            ok,
            record { type = Types.identity; value = w.identity }
                ∷ record { type = type; value = text }
                ∷ [],
          ))
unfolding text_payload feature_cmds
text_payload_lem type text w word bytes short bytes' short' =
    written_lem (feature_cmds type text w) w (λ e. cc)
      ((omega arith, omega arith, bytes'), ((word, omega arith, bytes), tt)) (omega (arith, fits))
  where
    second : Cmd
    second = record { type = type; value = text }

    fits : length (encode (feature_cmds type text w)) ≡ 4 + length w.identity + (4 + length text)
    fits = omega (arith, length-append w.identity (encode (second ∷ [])), length-append text [])
