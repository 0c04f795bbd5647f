-- ===== src/Commands/Examples.antt =====
-- Tests of the batch on small buffers, and the theorems on them at concrete commands.
use atlas_client.Prelude.{
  ℕ, ◌≡◌, ◌≢◌, ◌⊎◌, ◌↔◌, refl, none, some, List, [], ◌∷◌, arith, length, All,
}
use atlas_client.Status.{Status, ok, corrupted_command}
use atlas_client.Commands.{
  Cmd, Batch, new, add, add_all, build, set_raw, at, get, walk, view, read_accepted, read_all,
}
use atlas_client.Commands.Wire.{encode, IsCmd}
use atlas_client.Commands.Validate.{set_raw_iff}
use atlas_client.Commands.Iterate.{read_all_total}
use atlas_client.Commands.RoundTrip.{add_fault, build_lem, read_all-build}

abbrev two_cmds : List Cmd
two_cmds = record { type = 1; value = 0x12 ∷ 0x34 ∷ [] } ∷ record { type = 513; value = [] } ∷ []

abbrev two_raw : List ℕ
two_raw = 0 ∷ 1 ∷ 0 ∷ 2 ∷ 0x12 ∷ 0x34 ∷ 2 ∷ 1 ∷ 0 ∷ 0 ∷ []

abbrev short_raw : List ℕ
short_raw = 0 ∷ 1 ∷ 0 ∷ 2 ∷ 0x12 ∷ []

build_two : build two_cmds ≡ some two_raw
unfolding build add_all add
build_two = refl

read_two : read_all two_raw ≡ some (ok, two_cmds)
unfolding read_all read_accepted walk get view set_raw
read_two = refl

read_short : read_all short_raw ≡ some (corrupted_command, [])
unfolding read_all read_accepted walk get view set_raw
read_short = refl

-- `get` leaves the header of the first command in host order: a second loop over the same batch
-- reads type 0x0100 and length 0x0200.
second_loop :
    get (record { len = 6; buf = 0 ∷ 1 ∷ 0 ∷ 2 ∷ 0x12 ∷ 0x34 ∷ [] }) none
    ≡ at 0 (record { len = 6; buf = 1 ∷ 0 ∷ 2 ∷ 0 ∷ 0x12 ∷ 0x34 ∷ [] })
unfolding get
second_loop = refl

two_nonempty : two_cmds ≢ []
two_nonempty e = cc

set_raw_iff_example :
    (((set_raw new two_raw).0 ≡ ok)
      ↔ ((cs : List Cmd) × (cs ≢ []) × All IsCmd cs × (two_raw ≡ encode cs)))
    × ((set_raw new two_raw).0 ≡ ok
        → (set_raw new two_raw).1 ≡ record { len = length two_raw; buf = two_raw })
    × ((set_raw new two_raw).0 ≢ ok → (set_raw new two_raw).1 ≡ new)
set_raw_iff_example = set_raw_iff new two_raw (omega arith)

read_all_total_example :
    ((cs : List Cmd) × (short_raw ≡ encode cs) × (read_all short_raw ≡ some (ok, cs)))
    ⊎ ((status : Status) × (status ≢ ok) × (read_all short_raw ≡ some (status, [])))
read_all_total_example = read_all_total short_raw (omega arith)

build_lem_test : build two_cmds ≡ some (encode two_cmds)
build_lem_test = build_lem two_cmds

read_all-build_example :
    (raw : List ℕ) × (build two_cmds ≡ some raw) × (read_all raw ≡ some (ok, two_cmds))
read_all-build_example = read_all-build two_cmds two_nonempty (omega arith) (omega arith)

abbrev one_cmd : Cmd
one_cmd = record { type = 3; value = 0x61 ∷ [] }

-- Only the length counts.
abbrev long_batch : Batch
long_batch = record { len = 65531; buf = [] }

add_fault_example : add long_batch 3 (0x61 ∷ []) ≡ none
add_fault_example = add_fault long_batch one_cmd (omega arith)
