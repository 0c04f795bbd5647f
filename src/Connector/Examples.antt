-- ===== src/Connector/Examples.antt =====
-- Tests of the connection to the data plane.
use atlas_client.Prelude.{ℕ, ◌≡◌, ◌⊎◌, inr, refl, true, List, [], ◌∷◌, ◌++◌, arith, pos}
use atlas_client.Commands.{Cmd}
use atlas_client.Commands.Types
use atlas_client.Commands.Wire.{encode}
use atlas_client.Environment.{faulted}
use atlas_client.Environment.Samples.{online}
use atlas_client.World.{recorded}
use atlas_client.World.Samples.{fresh}
use atlas_client.Register.Policy.{send_policy_command}
use atlas_client.Connector.{parse_policy, read_cb, read_loop}
use atlas_client.Connector.Messages.{
  policy_batch, read_cb_total, parse_policy_lem, done_before, short_word_faults,
}

abbrev average : List ℕ
average = 3 ∷ 234 ∷ 0 ∷ 2 ∷ 7 ∷ 0 ∷ []

read_cb_total_test :
    ((cs : List Cmd) × (average ≡ encode cs)
      × (read_cb online (pos 11) average fresh ≡ read_loop online cs fresh))
    ⊎ (read_cb online (pos 11) average fresh ≡ fresh)
read_cb_total_test = read_cb_total online (pos 11) average fresh (omega arith) (λ e. cc)

parse_policy_lem_test :
    parse_policy online (encode (policy_batch 1 300 1024)) fresh
    ≡ send_policy_command online (record fresh {
      policy = record { qos = 1; packets_per_min = 300; packets_maxlen = 1024; active = true };
    })
parse_policy_lem_test =
    parse_policy_lem online 1 300 1024 fresh (omega arith) (omega arith) (omega arith)

abbrev rate_300 : Cmd
rate_300 = record { type = Types.data_plane_packets_per_minute; value = 44 ∷ 1 ∷ [] }

short_word_faults_example :
    let short : Cmd = record { type = Types.data_plane_packets_avg; value = 7 ∷ [] } in
    read_cb online (pos 11) (encode ((rate_300 ∷ []) ++ short ∷ [])) fresh
    ≡ recorded faulted (done_before online (rate_300 ∷ []) (short ∷ []) fresh)
short_word_faults_example =
    short_word_faults online (pos 11) (rate_300 ∷ []) Types.data_plane_packets_avg (7 ∷ []) fresh
      (omega arith) (inr refl) (omega arith) (omega arith)
