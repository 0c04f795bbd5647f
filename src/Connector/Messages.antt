-- ===== src/Connector/Messages.antt =====
-- What a message of the data plane does.
use atlas_client.Prelude.{
  ℕ, ◌<◌, ◌≡◌, ◌≢◌, ◌⊎◌, inl, inr, refl, ap, true, some, none, List, [], ◌∷◌, ◌++◌, arith, All,
  All-append, ◌∙◌, ℤ, length,
}
use atlas_client.Status.{Status, ok}
use atlas_client.Environment.{Environment, faulted}
use atlas_client.Commands.{Cmd, host_bytes}
use atlas_client.Commands.Types
use atlas_client.Commands.Wire.{encode, IsByte, IsCmd}
use atlas_client.Commands.Iterate.{read_all-encode, read_all_total}
use atlas_client.World.{World, recorded}
use atlas_client.Register.Policy.{send_policy_command}
use atlas_client.Connector.{
  word_at, store, policy_one, policy_loop, policy_parsed, parse_policy, read_one, read_loop,
  read_parsed, read_cb,
}

read_parsed-err :
    (env : Environment) (status : Status) (w : World)
    → status ≢ ok
    → read_parsed env (some (status, [])) w ≡ w
unfolding read_parsed
read_parsed-err env ok w bad = absurd (bad refl)
read_parsed-err env _ w bad = refl

-- One or more bytes from the data plane are handled command by command if they encode commands, and otherwise
-- change nothing.
pub read_cb_total :
    (env : Environment) (fd : ℤ) (raw : List ℕ) (w : World)
    → All IsByte raw
    → raw ≢ []
    → ((cs : List Cmd) × (raw ≡ encode cs) × (read_cb env fd raw w ≡ read_loop env cs w))
      ⊎ (read_cb env fd raw w ≡ w)
unfolding read_cb read_parsed
read_cb_total env fd [] w bytes nonempty = absurd (nonempty refl)
read_cb_total env fd (b ∷ bs) w bytes nonempty = elim (read_all_total (b ∷ bs) bytes) [
  | inl (cs, e, read) ↦ inl (cs, e, rw read)
  | inr (status, bad, read) ↦ inr (rw read (read_parsed-err env status w bad))
]

-- A word in the host's order is read back, whatever stands behind it.
pub word_at-host_bytes :
    (n : ℕ) (rest : List ℕ) → n < 65536 → word_at (host_bytes n ++ rest) ≡ some n
unfolding word_at
word_at-host_bytes n rest word = ap (λ (k : ℕ). some k) (omega arith)

-- The firewall policy as the data plane sends it.
abbrev pub policy_batch : ℕ → ℕ → ℕ → List Cmd
policy_batch qos ppm maxlen =
    record { type = Types.data_plane_policy_qos; value = host_bytes qos }
    ∷ record { type = Types.data_plane_policy_packets_per_minute; value = host_bytes ppm }
    ∷ record { type = Types.data_plane_policy_packets_maxlen; value = host_bytes maxlen }
    ∷ []

policy_batch-loop :
    (qos ppm maxlen : ℕ) (w : World)
    → qos < 65536
    → ppm < 65536
    → maxlen < 65536
    → policy_loop (policy_batch qos ppm maxlen) w ≡ record w {
      policy = record w.policy { qos = qos; packets_per_min = ppm; packets_maxlen = maxlen };
    }
unfolding policy_loop policy_one store
policy_batch-loop qos ppm maxlen w hq hp hm = rw (
  word_at-host_bytes qos
      (encode (
        record { type = Types.data_plane_policy_packets_per_minute; value = host_bytes ppm }
        ∷ record { type = Types.data_plane_policy_packets_maxlen; value = host_bytes maxlen }
        ∷ []))
      hq,
  word_at-host_bytes ppm
      (encode
        (record { type = Types.data_plane_policy_packets_maxlen; value = host_bytes maxlen } ∷ []))
      hp,
  word_at-host_bytes maxlen [] hm,
)

-- A policy of the data plane, three numbers below 65536, is stored, made active, and sent on to the
-- gateway.
pub parse_policy_lem :
    (env : Environment) (qos ppm maxlen : ℕ) (w : World)
    → qos < 65536
    → ppm < 65536
    → maxlen < 65536
    → parse_policy env (encode (policy_batch qos ppm maxlen)) w
      ≡ send_policy_command env (record w {
        policy = record {
          qos = qos;
          packets_per_min = ppm;
          packets_maxlen = maxlen;
          active = true;
        };
      })
unfolding parse_policy policy_parsed
parse_policy_lem env qos ppm maxlen w hq hp hm =
    rw (read_all-encode (policy_batch qos ppm maxlen) (λ e. cc) (omega arith))
      (rw (policy_batch-loop qos ppm maxlen w hq hp hm))

word_at-short : (value : List ℕ) → length value < 2 → word_at (value ++ []) ≡ none
unfolding word_at
word_at-short [] short = refl
word_at-short (b ∷ []) short = refl
word_at-short (b ∷ b' ∷ bs) short = absurd (omega (arith, short))

read_one-short :
    (env : Environment) (type : ℕ) (value : List ℕ) (w : World)
    → (type ≡ Types.data_plane_packets_per_minute) ⊎ (type ≡ Types.data_plane_packets_avg)
    → length value < 2
    → read_one env (record { type = type; value = value }) [] w ≡ recorded faulted w
unfolding read_one store
read_one-short env type value w (inl e) short = rw e (rw (word_at-short value short))
read_one-short env type value w (inr e) short = rw e (rw (word_at-short value short))

known_word :
    (type : ℕ)
    → (type ≡ Types.data_plane_packets_per_minute) ⊎ (type ≡ Types.data_plane_packets_avg)
    → type < 65536
known_word type (inl e) = omega (arith, e)
known_word type (inr e) = omega (arith, e)

-- What commands at the front of a message do, with `rest` behind them.
abbrev pub done_before : Environment → List Cmd → List Cmd → World → World
done_before env [] rest w = w
done_before env (c ∷ cs) rest w = done_before env cs rest (read_one env c (cs ++ rest) w)

read_loop-append :
    (env : Environment) (cs : List Cmd) (c : Cmd) (w : World)
    → read_loop env (cs ++ c ∷ []) w ≡ read_one env c [] (done_before env cs (c ∷ []) w)
unfolding read_loop
read_loop-append env [] c w = refl
read_loop-append env (b ∷ cs) c w = read_loop-append env cs c (read_one env b (cs ++ c ∷ []) w)

-- A message of these commands is handled command by command.
pub read_cb-encode :
    (env : Environment) (fd : ℤ) (c : Cmd) (cs : List Cmd) (w : World)
    → All IsCmd (c ∷ cs)
    → read_cb env fd (encode (c ∷ cs)) w ≡ read_loop env (c ∷ cs) w
unfolding read_cb read_parsed
read_cb-encode env fd c cs w good = rw (read_all-encode (c ∷ cs) (λ e. cc) good) refl

read_cb-nonempty :
    (env : Environment) (fd : ℤ) (cs : List Cmd) (w : World)
    → cs ≢ []
    → All IsCmd cs
    → read_cb env fd (encode cs) w ≡ read_loop env cs w
read_cb-nonempty env fd [] w nonempty good = absurd (nonempty refl)
read_cb-nonempty env fd (c ∷ cs) w nonempty good = read_cb-encode env fd c cs w good

append-nonempty : (cs : List Cmd) (c : Cmd) → cs ++ c ∷ [] ≢ []
append-nonempty [] c e = cc
append-nonempty (b ∷ cs) c e = cc

-- A packet count or average of fewer than two bytes at the end of a message, behind any commands, is read
-- from behind the message, once what stands before it is done.
pub short_word_faults :
    (env : Environment) (fd : ℤ) (before : List Cmd) (type : ℕ) (value : List ℕ) (w : World)
    → All IsCmd before
    → (type ≡ Types.data_plane_packets_per_minute) ⊎ (type ≡ Types.data_plane_packets_avg)
    → length value < 2
    → All IsByte value
    → let short : Cmd = record { type = type; value = value } in
      read_cb env fd (encode (before ++ short ∷ [])) w
      ≡ recorded faulted (done_before env before (short ∷ []) w)
short_word_faults env fd before type value w good known short bytes =
    let c : Cmd = record { type = type; value = value } in
    read_cb-nonempty env fd (before ++ c ∷ []) w (append-nonempty before c) (
      All-append IsCmd before (c ∷ []) good
        ((known_word type known, omega (arith, short), bytes), tt))
    ∙ read_loop-append env before c w
    ∙ read_one-short env type value (done_before env before (c ∷ []) w) known short
