-- ===== src/Commands/Iterate.antt =====
-- The loop over an accepted batch sees its commands, in order, and reads only inside the block.
use atlas_client.Prelude.{
  ℕ, zero, suc, ◌+◌, ◌≤◌, ◌<◌, ◌≡◌, refl, ap, ◌≢◌, ◌⊎◌, inl, inr, none, some, List, [], ◌∷◌, ◌++◌,
  arith, append_assoc, append-nil, length, drop, length-append, take-append, drop-append, All,
  le→ltb, le→leb, lt→leb,
}
use atlas_client.Status.{Status, ok, invalid_input, corrupted_command}
use atlas_client.Commands.{
  host_bytes, Batch, Found, at, finished, Cmd, jump, get_next, get, view, walk, new, read_accepted,
  read_all,
}
use atlas_client.Commands.Wire.{encode, IsByte, IsCmd, host-ntohs, length-le-encode}
use atlas_client.Commands.Validate.{set_raw-encode, set_raw_cases, decode-set_raw}

-- A command after its header was put into host order.
abbrev opened : Cmd → List ℕ
opened c = host_bytes c.type ++ (host_bytes (length c.value) ++ c.value)

-- The batch with the commands before `c` opened, those behind it not.
abbrev standing : List ℕ → Cmd → List Cmd → Batch
standing before c cs = record {
  len = length (before ++ (opened c ++ encode cs));
  buf = before ++ (opened c ++ encode cs);
}

view-opened : (c : Cmd) (rest : List ℕ) → view (opened c ++ rest) ≡ some c
unfolding view
view-opened c rest =
    rw (host-ntohs c.type, host-ntohs (length c.value))
      (rw (le→ltb (length (c.value ++ rest)) (length c.value) fits) (rw (take-append c.value rest)))
  where
    fits : length c.value ≤ length (c.value ++ rest)
    fits = omega (arith, length-append c.value rest)

-- What `get` finds behind `c`.
abbrev behind : List ℕ → Cmd → List Cmd → Found
behind before c [] = finished
behind before c (d ∷ ds) = at (length (before ++ opened c)) (standing (before ++ opened c) d ds)

jump-opened :
    (p : ℕ) (c : Cmd) (rest : List ℕ) → jump p (opened c ++ rest) ≡ some (p + 4 + length c.value)
unfolding jump
jump-opened p c rest = rw (host-ntohs (length c.value))

get-some : (batch : Batch) (p : ℕ) → get batch (some p) ≡ get_next batch (jump p (drop p batch.buf))
unfolding get
get-some batch p = refl

get_next-finished : (batch : Batch) (q : ℕ) → batch.len ≤ q → get_next batch (some q) ≡ finished
unfolding get_next
get_next-finished batch q h = rw (le→leb batch.len q h)

-- The command at the end of `before` is opened.
get_next-standing :
    (len : ℕ) (before : List ℕ) (d : Cmd) (ds : List Cmd)
    → len ≡ length (before ++ encode (d ∷ ds))
    → get_next (record { len = len; buf = before ++ encode (d ∷ ds) }) (some (length before))
      ≡ at (length before) (standing before d ds)
unfolding get_next
get_next-standing len before d ds e = rw (lt→leb len (length before) more) (
    rw (drop-append before (encode (d ∷ ds)), take-append before (encode (d ∷ ds)))
      (ap
        (λ (n : ℕ).
          at (length before) (record { len = n; buf = before ++ (opened d ++ encode ds) }))
        same))
  where
    more : length before < len
    more = omega (arith, e, length-append before (encode (d ∷ ds)))

    same : len ≡ length (before ++ (opened d ++ encode ds))
    same = omega (
      arith,
      e,
      length-append before (encode (d ∷ ds)),
      length-append before (opened d ++ encode ds),
    )

get-standing :
    (before : List ℕ) (c : Cmd) (cs : List Cmd)
    → get (standing before c cs) (some (length before)) ≡ behind before c cs
get-standing before c cs = rw (get-some (standing before c cs) (length before)) (
    rw (drop-append before (opened c ++ encode cs))
      (rw (jump-opened (length before) c (encode cs)) (next cs)))
  where
    end : length before + 4 + length c.value ≡ length (before ++ opened c)
    end = omega (arith, length-append before (opened c))

    next :
        (cs : List Cmd)
        → get_next (standing before c cs) (some (length before + 4 + length c.value))
          ≡ behind before c cs
    next [] =
        get_next-finished (standing before c []) (length before + 4 + length c.value)
          (rw (append-nil c.value) (omega (arith, end)))
    next (d ∷ ds) = rw end (
        rw (← append_assoc before (opened c) (encode (d ∷ ds))) (
          get_next-standing (length ((before ++ opened c) ++ encode (d ∷ ds))) (before ++ opened c)
            d ds refl))

walk-at :
    (fuel p : ℕ) (batch : Batch) {c : Cmd} {cs : List Cmd}
    → view (drop p batch.buf) ≡ some c
    → walk fuel (get batch (some p)) ≡ some cs
    → walk (suc fuel) (at p batch) ≡ some (c ∷ cs)
unfolding walk
walk-at fuel p batch seen rest = ground arith

walk-finished : (fuel : ℕ) → walk fuel finished ≡ some []
unfolding walk
walk-finished zero = refl
walk-finished (suc fuel) = refl

-- From a command on, the loop sees it and those behind it.
walk-standing :
    (fuel : ℕ) (before : List ℕ) (c : Cmd) (cs : List Cmd)
    → length cs < fuel
    → walk fuel (at (length before) (standing before c cs)) ≡ some (c ∷ cs)
walk-standing zero before c cs h = elim h [ ]
walk-standing (suc fuel) before c [] h =
    walk-at fuel (length before) (standing before c [])
      (rw (drop-append before (opened c ++ encode [])) (view-opened c (encode [])))
      (rw (get-standing before c []) (walk-finished fuel))
walk-standing (suc fuel) before c (d ∷ ds) h =
    walk-at fuel (length before) (standing before c (d ∷ ds))
      (rw (drop-append before (opened c ++ encode (d ∷ ds))) (view-opened c (encode (d ∷ ds))))
      (rw (get-standing before c (d ∷ ds))
        (walk-standing fuel (before ++ opened c) d ds (omega arith)))

read_accepted-ok :
    (fuel : ℕ) (batch : Batch) {cs : List Cmd}
    → walk fuel (get batch none) ≡ some cs
    → read_accepted fuel (ok, batch) ≡ some (ok, cs)
unfolding read_accepted
read_accepted-ok fuel batch h = ground arith

get-none :
    (c : Cmd) (cs : List Cmd)
    → get (record { len = length (encode (c ∷ cs)); buf = encode (c ∷ cs) }) none
      ≡ at 0 (standing [] c cs)
unfolding get
get-none c cs = refl

-- The loop over the encoding of a list of commands sees these commands, in order, each with its type
-- and its value.
pub read_all-encode :
    (cs : List Cmd) → cs ≢ [] → All IsCmd cs → read_all (encode cs) ≡ some (ok, cs)
unfolding read_all
read_all-encode [] nonempty good = absurd (nonempty refl)
read_all-encode (c ∷ cs) nonempty good = rw (set_raw-encode new (c ∷ cs) nonempty good) (
    read_accepted-ok (length (encode (c ∷ cs))) _ (
      rw (get-none c cs)
        (walk-standing (length (encode (c ∷ cs))) [] c cs (length-le-encode (c ∷ cs)))))

-- What was read, with what is known of the commands.
pub read_all_cases :
    (raw : List ℕ)
    → All IsByte raw
    → ((cs : List Cmd) × (cs ≢ [])
        × All IsCmd cs
        × (raw ≡ encode cs)
        × (read_all raw ≡ some (ok, cs)))
      ⊎ ((status : Status) × (status ≢ ok) × (read_all raw ≡ some (status, [])))
unfolding read_all read_accepted
read_all_cases raw bytes = elim (set_raw_cases new raw) [
  | inl accepted ↦
      let (cs, nonempty, good, e) =
        decode-set_raw new raw bytes (ap (λ (r : Status × Batch). r.0) accepted) in
      inl (cs, nonempty, good, e, rw e (read_all-encode cs nonempty good))
  | inr (inl (empty, _)) ↦ inr (invalid_input, ne_invalid, rw empty)
  | inr (inr (corrupt, _)) ↦ inr (corrupted_command, ne_corrupted, rw corrupt)
]
  where
    ne_invalid : invalid_input ≢ ok
    ne_invalid e = cc

    ne_corrupted : corrupted_command ≢ ok
    ne_corrupted e = cc

-- Whatever bytes arrive, reading them stays inside the block and comes to an end: either they are the
-- encoding of the commands that the loop sees, or an error is returned and no command is seen.
pub read_all_total :
    (raw : List ℕ)
    → All IsByte raw
    → ((cs : List Cmd) × (raw ≡ encode cs) × (read_all raw ≡ some (ok, cs)))
      ⊎ ((status : Status) × (status ≢ ok) × (read_all raw ≡ some (status, [])))
read_all_total raw bytes = elim (read_all_cases raw bytes) [
  | inl (cs, nonempty, good, e, read) ↦ inl (cs, e, read)
  | inr bad ↦ inr bad
]
