-- ===== src/Commands/Validate.antt =====
-- `set_raw` accepts exactly the encodings of non-empty lists of commands.
use atlas_client.Prelude.{
  ℕ, zero, suc, ◌≤◌, ◌≡◌, refl, ap, ◌∙◌, ◌≢◌, ◌↔◌, ◌⊎◌, true, List, [], ◌∷◌, ◌++◌, arith, length,
  take, drop, length-append, length-take, take-append-drop, drop-append, All, All-take, All-drop,
  ltb, le→ltb, ltb→le, Bool-cases, inl, inr,
}
use atlas_client.Status.{Status, ok, invalid_input, corrupted_command}
use atlas_client.Commands.{ntohs, Batch, Cmd, validate, set_raw}
use atlas_client.Commands.Wire.{
  encode, encode_cmd, IsByte, IsCmd, ntohs-htons, ntohs_high, ntohs_low, length-le-encode,
}

-- Enough fuel accepts an encoding.
pub validate-encode :
    (fuel : ℕ) (cs : List Cmd) → All IsCmd cs → length cs ≤ fuel → validate fuel (encode cs) ≡ true
unfolding validate
validate-encode fuel [] h n = refl
validate-encode zero (c ∷ cs) h n = elim n [ ]
validate-encode (suc fuel) (c ∷ cs) (h, hs) n = rw (ntohs-htons (length c.value)) (
    rw (le→ltb (length (c.value ++ encode cs)) (length c.value) fits)
      (rw (drop-append c.value (encode cs)) (validate-encode fuel cs hs (omega arith))))
  where
    fits : length c.value ≤ length (c.value ++ encode cs)
    fits = omega (arith, length-append c.value (encode cs))

-- The command at the front of bytes that hold it whole.
abbrev first : ℕ → ℕ → ℕ → ℕ → List ℕ → Cmd
first t₁ t₂ l₁ l₂ rest = record { type = ntohs t₁ t₂; value = take (ntohs l₁ l₂) rest }

module _ (t₁ t₂ l₁ l₂ : ℕ) (rest : List ℕ) (bytes : All IsByte (t₁ ∷ t₂ ∷ l₁ ∷ l₂ ∷ rest))
    (fits : ntohs l₁ l₂ ≤ length rest) where
  first-IsCmd : IsCmd (first t₁ t₂ l₁ l₂ rest)
  first-IsCmd = (
    omega arith,
    omega (arith, length-take (ntohs l₁ l₂) rest fits),
    All-take IsByte (ntohs l₁ l₂) rest bytes.1.1.1.1,
  )

  encode_cmd-first :
      t₁ ∷ t₂ ∷ l₁ ∷ l₂ ∷ rest ≡ encode_cmd (first t₁ t₂ l₁ l₂ rest) ++ drop (ntohs l₁ l₂) rest
  encode_cmd-first = cc (
    length-take (ntohs l₁ l₂) rest fits,
    ntohs_high t₁ t₂ bytes.1.0,
    ntohs_low t₁ t₂ bytes.1.0,
    ntohs_high l₁ l₂ bytes.1.1.1.0,
    ntohs_low l₁ l₂ bytes.1.1.1.0,
    take-append-drop (ntohs l₁ l₂) rest,
  )

-- What is accepted is an encoding.
pub decode-validate :
    (fuel : ℕ) (raw : List ℕ)
    → All IsByte raw
    → validate fuel raw ≡ true
    → (cs : List Cmd) × All IsCmd cs × (raw ≡ encode cs)
unfolding validate
decode-validate fuel [] b h = ([], tt, refl)
decode-validate zero (_ ∷ _) b h = cc
decode-validate (suc fuel) (_ ∷ []) b h = cc
decode-validate (suc fuel) (_ ∷ _ ∷ []) b h = cc
decode-validate (suc fuel) (_ ∷ _ ∷ _ ∷ []) b h = cc
decode-validate (suc fuel) (t₁ ∷ t₂ ∷ l₁ ∷ l₂ ∷ rest) bytes h =
    elim (Bool-cases (ltb (length rest) (ntohs l₁ l₂))) [
      | inl short ↦ cc
      | inr fits ↦
          let (cs, good, e) =
            decode-validate fuel (drop (ntohs l₁ l₂) rest)
              (All-drop IsByte (ntohs l₁ l₂) rest bytes.1.1.1.1) (rw fits at h) in
          (
            first t₁ t₂ l₁ l₂ rest ∷ cs,
            (first-IsCmd t₁ t₂ l₁ l₂ rest bytes (ltb→le _ _ fits), good),
            encode_cmd-first t₁ t₂ l₁ l₂ rest bytes (ltb→le _ _ fits)
                ∙ ap (λ r. encode_cmd (first t₁ t₂ l₁ l₂ rest) ++ r) e,
          )
    ]

pub set_raw-encode :
    (batch : Batch) (cs : List Cmd)
    → cs ≢ []
    → All IsCmd cs
    → set_raw batch (encode cs) ≡ (ok, record { len = length (encode cs); buf = encode cs })
unfolding set_raw
set_raw-encode batch [] nonempty good = absurd (nonempty refl)
set_raw-encode batch (c ∷ cs) nonempty good =
    rw (validate-encode (length (encode (c ∷ cs))) (c ∷ cs) good (length-le-encode (c ∷ cs)))

-- What `set_raw` accepts is an encoding.
pub decode-set_raw :
    (batch : Batch) (raw : List ℕ)
    → All IsByte raw
    → (set_raw batch raw).0 ≡ ok
    → (cs : List Cmd) × (cs ≢ []) × All IsCmd cs × (raw ≡ encode cs)
unfolding set_raw
decode-set_raw batch [] bytes h = cc
decode-set_raw batch (b ∷ bs) bytes h = elim (Bool-cases (validate (length (b ∷ bs)) (b ∷ bs))) [
  | inl good ↦
      let (cs, fields, e) = decode-validate (length (b ∷ bs)) (b ∷ bs) bytes good in
      (cs, λ empty. cc (e, ap encode empty), fields, e)
  | inr bad ↦ cc (rw bad at h)
]

-- Whatever the bytes, `set_raw` accepts them and holds them, or returns an error and leaves the
-- batch as it was; the error is ATLAS_INVALID_INPUT exactly for the empty buffer.
pub set_raw_cases :
    (batch : Batch) (raw : List ℕ)
    → (set_raw batch raw ≡ (ok, record { len = length raw; buf = raw }))
      ⊎ ((set_raw batch raw ≡ (invalid_input, batch)) × (raw ≡ []))
      ⊎ ((set_raw batch raw ≡ (corrupted_command, batch)) × (raw ≢ []))
unfolding set_raw
set_raw_cases batch [] = inr (inl (refl, refl))
set_raw_cases batch (b ∷ bs) = elim (Bool-cases (validate (length (b ∷ bs)) (b ∷ bs))) [
  | inl good ↦ inl (rw good)
  | inr bad ↦ inr (inr (rw bad, λ e. cc))
]

-- What the batch is behind `set_raw`.
set_raw-held :
    (batch : Batch) (raw : List ℕ)
    → ((set_raw batch raw).0 ≡ ok → (set_raw batch raw).1 ≡ record { len = length raw; buf = raw })
      × ((set_raw batch raw).0 ≢ ok → (set_raw batch raw).1 ≡ batch)
set_raw-held batch raw = elim (set_raw_cases batch raw) [
  | inl held ↦ (
    λ accepted. ap (λ (r : Status × Batch). r.1) held,
    λ bad. absurd (bad (ap (λ (r : Status × Batch). r.0) held)),
  )
  | inr (inl (empty, _)) ↦ (
    λ accepted. absurd (cc (accepted, ap (λ (r : Status × Batch). r.0) empty)),
    λ bad. ap (λ (r : Status × Batch). r.1) empty,
  )
  | inr (inr (corrupted, _)) ↦ (
    λ accepted. absurd (cc (accepted, ap (λ (r : Status × Batch). r.0) corrupted)),
    λ bad. ap (λ (r : Status × Batch). r.1) corrupted,
  )
]

-- For any bytes, `set_raw` returns ATLAS_OK exactly when they are the encoding of a non-empty list of
-- commands whose fields fit their words. Where it returns ATLAS_OK it holds those bytes, and where it
-- returns another status the batch is as it was.
pub set_raw_iff :
    (batch : Batch) (raw : List ℕ)
    → All IsByte raw
    → (((set_raw batch raw).0 ≡ ok)
        ↔ ((cs : List Cmd) × (cs ≢ []) × All IsCmd cs × (raw ≡ encode cs)))
      × ((set_raw batch raw).0 ≡ ok
          → (set_raw batch raw).1 ≡ record { len = length raw; buf = raw })
      × ((set_raw batch raw).0 ≢ ok → (set_raw batch raw).1 ≡ batch)
set_raw_iff batch raw bytes = (
  (
    decode-set_raw batch raw bytes,
    λ (cs, nonempty, fields, e).
        rw e (ap (λ (r : Status × Batch). r.0) (set_raw-encode batch cs nonempty fields)),
  ),
  (set_raw-held batch raw).0,
  (set_raw-held batch raw).1,
)
