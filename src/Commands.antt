-- ===== src/Commands.antt =====
-- The command batch, a sequence of type-length-value records: src/commands/atlas_command.h and
-- atlas_command.c. The header's pointers into the buffer are offsets. The host is little-endian, so
-- `htons` and `ntohs` swap the two bytes of a word where they stand. An access outside the block
-- that was allocated is a fault, `none`; `malloc` is taken to succeed.
pub mod Types
pub mod Wire
pub mod Validate
pub mod Iterate
pub mod RoundTrip
mod Examples
use atlas_client.Prelude.{
  ℕ, zero, suc, ◌+◌, ◌*◌, ◌/◌, ◌%◌, Bool, true, false, Option, none, some, List, [], ◌∷◌, ◌++◌,
  length, take, drop, ltb, leb, if◌then◌else◌,
}
use atlas_client.Status.{Status, ok, invalid_input, corrupted_command}

-- The bytes of a 16-bit number in network order, and in the host's.
abbrev pub htons_bytes : ℕ → List ℕ
htons_bytes n = (n / 256) ∷ (n % 256) ∷ []

abbrev pub host_bytes : ℕ → List ℕ
host_bytes n = (n % 256) ∷ (n / 256) ∷ []

-- The number that two bytes hold in network order, and in the host's.
abbrev pub ntohs : ℕ → ℕ → ℕ
ntohs high low = high * 256 + low

abbrev pub host : ℕ → ℕ → ℕ
host low high = high * 256 + low

-- `length_` is a uint16_t. The empty block stands for the null pointer.
pub record Batch : Type 0 where
  pub len : ℕ
  pub buf : List ℕ

abbrev pub new : Batch
new = record { len = 0; buf = [] }

-- `value` has the `length` bytes that the caller names, less than 65536. The new length is a
-- uint16_t: where it wraps, the block that `realloc` returns is too short for what is written.
unfoldable pub add : Batch → ℕ → List ℕ → Option Batch
add batch type value =
    let needed = batch.len + 4 + length value in
    let new_len = needed % 65536 in
    if ltb new_len needed
    then none
    else some (record {
      len = new_len;
      buf = batch.buf ++ (htons_bytes type ++ (htons_bytes (length value) ++ value));
    })

-- A command: what a caller passes to `add`, and reads through the pointer that `get` returned.
pub record Cmd : Type 0 where
  pub type : ℕ
  pub value : List ℕ

-- A writer's calls of `add`, in order.
unfoldable pub add_all : Batch → List Cmd → Option Batch
add_all batch [] = some batch
add_all batch (c ∷ cs) = elim (add batch c.type c.value) [ none ↦ none | some b ↦ add_all b cs ]

-- What every writer of a batch does: `batch_new`, the calls of `add`, and `get_buf`, whose buffer
-- holds as many bytes as its length says.
unfoldable pub build : List Cmd → Option (List ℕ)
build cs = elim (add_all new cs) [ none ↦ none | some batch ↦ some batch.buf ]

-- The loop over the bytes that are left, `tmp_len` of them from `p` on. `true` is ATLAS_OK. A round
-- consumes four bytes at least, so fuel of the number of bytes is enough.
unfoldable pub validate : ℕ → List ℕ → Bool
validate fuel [] = true
validate zero (_ ∷ _) = false
validate (suc fuel) (_ ∷ []) = false
validate (suc fuel) (_ ∷ _ ∷ []) = false
validate (suc fuel) (_ ∷ _ ∷ _ ∷ []) = false
validate (suc fuel) (_ ∷ _ ∷ high ∷ low ∷ rest) =
    let cmd_len = ntohs high low in
    if ltb (length rest) cmd_len then false else validate fuel (drop cmd_len rest)

-- `raw` holds the `len` bytes that the caller names, less than 65536. The null buffer has none.
unfoldable pub set_raw : Batch → List ℕ → Status × Batch
unfolding validate
set_raw batch [] = (invalid_input, batch)
set_raw batch (b ∷ bs) =
    let raw = b ∷ bs in
    if validate (length raw) raw
    then (ok, record { len = length raw; buf = raw })
    else (corrupted_command, batch)

-- What `atlas_cmd_batch_get` returns: no further command, or the offset of one in the batch, whose
-- header it has put into host order in place. A fault is a read outside the block.
pub data Found : Type 0 where
  fault finished : Found
  at : ℕ → Batch → Found

-- The swap of the header at offset `q`.
unfoldable pub open_header : ℕ → ℕ → List ℕ → List ℕ → Found
open_header len q before (t₁ ∷ t₂ ∷ l₁ ∷ l₂ ∷ rest) =
    at q (record { len = len; buf = before ++ (t₂ ∷ t₁ ∷ l₂ ∷ l₁ ∷ rest) })
open_header len q before _ = fault

-- The offset of the command behind the one whose header, in host order, begins `header`.
unfoldable pub jump : ℕ → List ℕ → Option ℕ
jump p (_ ∷ _ ∷ low ∷ high ∷ _) = some (p + 4 + host low high)
jump p _ = none

unfoldable pub get_next : Batch → Option ℕ → Found
unfolding open_header
get_next batch none = fault
get_next batch (some q) =
    if leb batch.len q
    then finished
    else open_header batch.len q (take q batch.buf) (drop q batch.buf)

-- `none` is the null `current_cmd`.
unfoldable pub get : Batch → Option ℕ → Found
unfolding open_header jump get_next
get batch none = open_header batch.len 0 [] batch.buf
get batch (some p) = get_next batch (jump p (drop p batch.buf))

-- The fields that a caller reads through the pointer, the value as long as the header says.
unfoldable pub view : List ℕ → Option Cmd
view (t₁ ∷ t₂ ∷ l₁ ∷ l₂ ∷ rest) =
    if ltb (length rest) (host l₁ l₂)
    then none
    else some (record { type = host t₁ t₂; value = take (host l₁ l₂) rest })
view _ = none

-- The callers' loop, `cmd = get(batch, NULL); while (cmd) { ...; cmd = get(batch, cmd); }`: the
-- commands that its body sees, in order. A round leaves four bytes behind.
unfoldable pub walk : ℕ → Found → Option (List Cmd)
walk fuel fault = none
walk fuel finished = some []
walk zero (at p batch) = none
walk (suc fuel) (at p batch) =
    let rest = walk fuel (get batch (some p)) in
    elim (view (drop p batch.buf)) [
      | none ↦ none
      | some cmd ↦ elim rest [ none ↦ none | some cmds ↦ some (cmd ∷ cmds) ]
    ]

-- The loop, if the batch was accepted.
unfoldable pub read_accepted : ℕ → Status × Batch → Option (Status × List Cmd)
read_accepted fuel (ok, batch) = elim (walk fuel (get batch none)) [
  | none ↦ none
  | some cmds ↦ some (ok, cmds)
]
read_accepted fuel (status, batch) = some (status, [])

-- What every reader of a batch does: `batch_new`, `set_raw`, and the loop if that returned ATLAS_OK.
unfoldable pub read_all : List ℕ → Option (Status × List Cmd)
read_all raw = read_accepted (length raw) (set_raw new raw)
