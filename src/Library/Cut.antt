-- ===== src/Library/Cut.antt =====
-- Replies that are longer than the library's buffer: send_identity_command and atlas_reputation_request of
-- src/data_plane/atlas_client.c.
use atlas_client.Prelude.{
  ℕ, suc, ◌<◌, ◌≡◌, refl, ap, false, Option, some, List, [], ◌∷◌, ◌++◌, arith, length, take,
  length-take, length-append, ◌/◌, ◌%◌, lt→ltb,
}
use atlas_client.Status.{corrupted_command}
use atlas_client.Commands.{Cmd, ntohs, new, validate, set_raw, read_all, read_accepted}
use atlas_client.Commands.Types
use atlas_client.Commands.Wire.{encode, ntohs-htons}
use atlas_client.Library.{Library}
use atlas_client.Library.Requests.{
  identity_parsed, identity_reply, reputation_parsed, reputation_reply,
}
use atlas_client.Library.Messages.{best_identity}

validate-cut :
    (fuel t₁ t₂ l₁ l₂ : ℕ) (rest : List ℕ)
    → length rest < ntohs l₁ l₂
    → validate (suc fuel) (t₁ ∷ t₂ ∷ l₁ ∷ l₂ ∷ rest) ≡ false
unfolding validate
validate-cut fuel t₁ t₂ l₁ l₂ rest short = rw (lt→ltb (length rest) (ntohs l₁ l₂) short) refl

set_raw-refused :
    (b : ℕ) (bs : List ℕ)
    → validate (length (b ∷ bs)) (b ∷ bs) ≡ false
    → set_raw new (b ∷ bs) ≡ (corrupted_command, new)
unfolding set_raw
set_raw-refused b bs bad = rw bad refl

read_all-refused :
    (raw : List ℕ)
    → set_raw new raw ≡ (corrupted_command, new)
    → read_all raw ≡ some (corrupted_command, [])
unfolding read_all read_accepted
read_all-refused raw bad = ap (read_accepted (length raw)) bad

-- A command whose value does not fit the buffer, as it is read.
abbrev cut_value : Cmd → List ℕ
cut_value c = take 2044 (c.value ++ [])

read_all-cut :
    (c : Cmd)
    → 2044 < length c.value
    → read_all (take 2048 (encode (c ∷ []))) ≡ some (corrupted_command, [])
read_all-cut c long =
    let len = length c.value in
    let left : length (cut_value c) ≡ 2044 =
      length-take 2044 (c.value ++ []) (omega (arith, long, length-append c.value [])) in
    let short : length (cut_value c) < ntohs (len / 256) (len % 256) =
      omega (arith, left, long, ntohs-htons len) in
    read_all-refused (take 2048 (encode (c ∷ []))) (
      set_raw-refused (c.type / 256) _
        (validate-cut _ (c.type / 256) (c.type % 256) (len / 256) (len % 256) (cut_value c) short))

abbrev pub own_identity : List ℕ → Cmd
own_identity id = record { type = Types.data_plane_identity; value = id }

-- An answer with an identity of more than 2044 bytes, but fewer than 65532, is cut at the 2048 bytes that the library reads, and
-- refused as corrupted: whether it is the client's own identity or the best one, the caller's variable
-- is as it was.
pub long_identity-refused :
    (cell : Option (List ℕ)) (id : List ℕ) (s : Library)
    → 2044 < length id
    → length id < 65532
    → (identity_reply cell (encode (own_identity id ∷ [])) s ≡ (corrupted_command, cell, s))
      × (reputation_reply cell (encode (best_identity id ∷ [])) s ≡ (corrupted_command, cell, s))
unfolding identity_reply identity_parsed reputation_reply reputation_parsed
long_identity-refused cell id s long fits = (
  ap (λ r. identity_parsed cell r s) (read_all-cut (own_identity id) long),
  ap (λ r. reputation_parsed cell r s) (read_all-cut (best_identity id) long),
)
