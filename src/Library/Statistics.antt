-- ===== src/Library/Statistics.antt =====
-- The statistics of the received packets: atlas_pkt_received and the part of send_statistics_command that
-- the mutex guards, in any order.
use atlas_client.Prelude.{
  ℕ, ◌+◌, ◌/◌, ◌%◌, ◌<◌, ◌≤◌, ◌≡◌, refl, ap, ◌∙◌, ℤ, List, [], ◌∷◌, arith, length, lt→ltb,
}
use atlas_client.Environment.{Environment}
use atlas_client.World.{World}
use atlas_client.Connector.{read_cb}
use atlas_client.Library.{Library, pkt_received, take_statistics}
use atlas_client.Library.Messages.{statistics-read_cb}

abbrev pub sum : List ℕ → ℕ
sum [] = 0
sum (n ∷ ns) = n + sum ns

unfoldable pub receive_all : List ℕ → Library → Library
receive_all [] s = s
receive_all (len ∷ lens) s = receive_all lens (pkt_received len s)

-- The statistics of `n` packets with `t` bytes together.
abbrev counted : ℕ → ℕ → Library → Library
counted n t s = record s { payload_samples = n; payload_total = t; payload_avg = t / n }

received_lem :
    (len : ℕ) (s : Library)
    → s.payload_total + len < 2147483648
    → s.payload_samples + 1 < 2147483648
    → pkt_received len s ≡ counted (s.payload_samples + 1) (s.payload_total + len) s
unfolding pkt_received
received_lem len s total samples = rw (lt→ltb _ _ total, lt→ltb _ _ samples) refl

div_le : (a b : ℕ) → a / b ≤ a
div_le a b = omega arith

counted-same : (s : Library) {n n' t t' : ℕ} → n ≡ n' → t ≡ t' → counted n t s ≡ counted n' t' s
counted-same s e e' = rw (e, e') refl

receive_all_lem :
    (len : ℕ) (lens : List ℕ) (s : Library)
    → s.payload_total + (len + sum lens) < 2147483648
    → s.payload_samples + (1 + length lens) < 2147483648
    → receive_all (len ∷ lens) s
      ≡ counted (s.payload_samples + (1 + length lens)) (s.payload_total + (len + sum lens)) s
unfolding receive_all
receive_all_lem len [] s total samples =
    received_lem len s (omega arith) (omega arith) ∙ counted-same s refl (omega arith)
receive_all_lem len (next ∷ lens) s total samples =
    ap (λ r. receive_all lens (pkt_received next r))
      (received_lem len s (omega arith) (omega arith))
    ∙ receive_all_lem next lens (counted (s.payload_samples + 1) (s.payload_total + len) s)
        (omega arith) (omega arith)
    ∙ counted-same s (omega arith) (omega arith)

-- After packets whose number and lengths stay in the range of an int, the next message of the library
-- makes the client store the low sixteen bits of their number and of their average length, and the
-- statistics begin anew.
pub received-read_cb :
    (env : Environment) (fd : ℤ) (len : ℕ) (lens : List ℕ) (s : Library) (w : World)
    → s.payload_samples ≡ 0
    → s.payload_total ≡ 0
    → len + sum lens < 2147483648
    → 1 + length lens < 2147483648
    → (bytes : List ℕ) × (take_statistics (receive_all (len ∷ lens) s)
        ≡ (bytes, record s { payload_samples = 0; payload_total = 0; payload_avg = 0 }))
      × (read_cb env fd bytes w ≡ record w {
        packets_per_min = (1 + length lens) % 65536;
        packets_avg = ((len + sum lens) / (1 + length lens)) % 65536;
      })
received-read_cb env fd len lens s w no_samples no_total total samples =
    let all = receive_all_lem len lens s (omega (arith, no_total)) (omega (arith, no_samples)) in
    let n : s.payload_samples + (1 + length lens) ≡ 1 + length lens = omega (arith, no_samples) in
    let t : s.payload_total + (len + sum lens) ≡ len + sum lens = omega (arith, no_total) in
    let small : (len + sum lens) / (1 + length lens) < 2147483648 =
      omega (arith, total, div_le (len + sum lens) (1 + length lens)) in
    let after = counted (1 + length lens) (len + sum lens) s in
    let (bytes, taken, handled) = statistics-read_cb env fd after w samples small in
    (bytes, rw (all ∙ counted-same s n t) taken, handled)
