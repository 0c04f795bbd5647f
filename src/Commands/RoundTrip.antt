-- ===== src/Commands/RoundTrip.antt =====
-- A batch that was built by `add` holds the encoding of what was added, and reads back as it.
use native.Mathlib.Decide.{dec_lt}
use atlas_client.Prelude.{
  ℕ, ◌+◌, ◌%◌, ◌≤◌, ◌<◌, ◌≡◌, ◌≢◌, refl, ap, sym, ◌∙◌, none, some, List, [], ◌∷◌, ◌++◌, arith,
  append_assoc, append-nil, length, length-append, All, ltb, le→ltb, lt→ltb, if◌then◌else◌,
}
use atlas_client.Status.{ok}
use atlas_client.Commands.{Batch, Cmd, new, add, add_all, build, read_all}
use atlas_client.Commands.Wire.{encode, encode_cmd, IsCmd}
use atlas_client.Commands.Iterate.{read_all-encode}

-- The invariant of a batch: its length is that of its block, and fits a uint16_t.
pub record IsBatch (batch : Batch) : Type 0 where
  pub len_exact : batch.len ≡ length batch.buf
  pub len_word : batch.len < 65536

-- Where the batch with the command takes fewer than 65536 bytes, `add` appends the command and keeps
-- the invariant.
pub add_lem :
    (batch : Batch) (c : Cmd)
    → IsBatch batch
    → batch.len + 4 + length c.value < 65536
    → (b : Batch) × (add batch c.type c.value ≡ some b)
      × IsBatch b
      × (b.buf ≡ batch.buf ++ encode_cmd c)
unfolding add
add_lem batch c h fits = (b, rw (le→ltb _ _ exact), valid, refl)
  where
    b : Batch
    b = record { len = (batch.len + 4 + length c.value) % 65536; buf = batch.buf ++ encode_cmd c }

    exact : batch.len + 4 + length c.value ≤ (batch.len + 4 + length c.value) % 65536
    exact = omega arith

    valid : IsBatch b
    valid = omega (arith, h, length-append batch.buf (encode_cmd c))

-- Where it takes more, the uint16_t length wraps and `add` writes behind its block.
pub add_fault :
    (batch : Batch) (c : Cmd)
    → 65536 ≤ batch.len + 4 + length c.value
    → add batch c.type c.value ≡ none
unfolding add
add_fault batch c over = rw (lt→ltb _ _ wraps)
  where
    wraps : (batch.len + 4 + length c.value) % 65536 < batch.len + 4 + length c.value
    wraps = omega arith

add_all-step :
    (batch : Batch) (c : Cmd) (cs : List Cmd) {b : Batch}
    → add batch c.type c.value ≡ some b
    → add_all batch (c ∷ cs) ≡ add_all b cs
unfolding add_all
add_all-step batch c cs e = ground arith

add_all-fault :
    (batch : Batch) (c : Cmd) (cs : List Cmd)
    → add batch c.type c.value ≡ none
    → add_all batch (c ∷ cs) ≡ none
unfolding add_all
add_all-fault batch c cs e = ground arith

-- The bytes of a batch after one more command.
grown_len :
    (batch b : Batch) (c : Cmd)
    → IsBatch batch
    → IsBatch b
    → b.buf ≡ batch.buf ++ encode_cmd c
    → b.len ≡ batch.len + (4 + length c.value)
grown_len batch b c h h' e =
    omega (arith, h, h', ap (length {0}) e, length-append batch.buf (encode_cmd c))

add_all-fits :
    (batch : Batch) (cs : List Cmd)
    → IsBatch batch
    → batch.len + length (encode cs) < 65536
    → (b : Batch) × (add_all batch cs ≡ some b) × (b.buf ≡ batch.buf ++ encode cs)
unfolding add_all
add_all-fits batch [] h fits = (batch, refl, sym (append-nil batch.buf))
add_all-fits batch (c ∷ cs) h fits =
    let (b, added, valid, grown) =
      add_lem batch c h (omega (arith, length-append (encode_cmd c) (encode cs))) in
    let (b', rest, whole) = add_all-fits b cs valid (
      omega (arith, grown_len batch b c h valid grown, length-append (encode_cmd c) (encode cs))) in
    (
      b',
      add_all-step batch c cs added ∙ rest,
      whole ∙ ap (λ r. r ++ encode cs) grown ∙ append_assoc batch.buf (encode_cmd c) (encode cs),
    )

add_all-over :
    (batch : Batch) (cs : List Cmd)
    → IsBatch batch
    → 65536 ≤ batch.len + length (encode cs)
    → add_all batch cs ≡ none
unfolding add_all
add_all-over batch [] h over = absurd (omega (arith, h))
add_all-over batch (c ∷ cs) h over = elim (dec_lt (batch.len + 4 + length c.value) 65536) [
  | yes fits ↦
      let (b, added, valid, grown) = add_lem batch c h fits in
      add_all-step batch c cs added
      ∙ add_all-over b cs valid (
          omega
            (arith, grown_len batch b c h valid grown, length-append (encode_cmd c) (encode cs)))
  | no wraps ↦ add_all-fault batch c cs (add_fault batch c (omega arith))
]

-- A batch built from a new one is the encoding of the commands added, if that takes fewer than 65536
-- bytes; otherwise some call of `add` has written behind its block.
pub build_lem :
    (cs : List Cmd) → build cs ≡ (if ltb (length (encode cs)) 65536 then some (encode cs) else none)
unfolding build
build_lem cs = elim (dec_lt (length (encode cs)) 65536) [
  | yes fits ↦
      let (b, added, whole) = add_all-fits new cs (omega arith) (omega arith) in
      rw (lt→ltb (length (encode cs)) 65536 fits) (ground (arith, added, whole))
  | no over ↦
      rw (le→ltb (length (encode cs)) 65536 (omega arith))
        (ground (arith, add_all-over new cs (omega arith) (omega arith)))
]

-- What was added is what a reader of the serialised batch sees: the types and the values, in order.
pub read_all-build :
    (cs : List Cmd)
    → cs ≢ []
    → All IsCmd cs
    → length (encode cs) < 65536
    → (raw : List ℕ) × (build cs ≡ some raw) × (read_all raw ≡ some (ok, cs))
read_all-build cs nonempty good fits =
    (encode cs, rw build_lem (rw (lt→ltb _ _ fits)), read_all-encode cs nonempty good)
