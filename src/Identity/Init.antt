-- ===== src/Identity/Init.antt =====
-- What the start leaves of the identity and the key.
use atlas_client.Prelude.{
  sym, ℕ, zero, suc, ◌≤◌, ◌≡◌, ◌≢◌, refl, ap, ◌∙◌, true, false, Option, none, some, List, [], ◌∷◌,
  arith, length, take, take-short, All,
}
use mathlib.Core.Path.{subst}
use atlas_client.Status.{Status, ok}
use atlas_client.Telemetry.Payload.{until_nul}
use atlas_client.Identity.{
  FileCall, identity_removed, psk_removed, identity_opened, psk_opened, identity_created,
  psk_created, identity_written, psk_written, Keys, Files, pad, generate_identity, store_psk,
  generate_psk, get_identity, get_psk, cleaned, then_psk, identity_init,
}

cleaned-error :
    (r : Status × Keys)
    → (cleaned r).0 ≢ ok
    → (rest : List FileCall) × ((cleaned r).1.calls ≡ psk_removed ∷ identity_removed ∷ rest)
unfolding cleaned
cleaned-error (ok, k) bad = absurd (bad refl)
cleaned-error (_, k) bad = (k.calls, refl)

-- Where the start fails, the last that it does is to remove both files, so that the next start makes a
-- new identity and a new key.
pub init_error :
    (f : Files) (k : Keys)
    → (identity_init f k).0 ≢ ok
    → (rest : List FileCall) × ((identity_init f k).1.calls ≡ psk_removed ∷ identity_removed ∷ rest)
unfolding identity_init
init_error f k bad = cleaned-error _ bad

-- A text without a zero that fits is read back, from its file or from the array of the key.
until_nul-take :
    (m : ℕ) (text : List ℕ)
    → All (λ c. c ≢ 0) text
    → length text ≤ m
    → until_nul (take m text) ≡ text
unfolding until_nul
until_nul-take zero [] nonzero short = refl
until_nul-take zero (c ∷ cs) nonzero short = absurd (omega (arith, short))
until_nul-take (suc m) [] nonzero short = refl
until_nul-take (suc m) (c ∷ cs) nonzero short =
    ground (arith, nonzero.0, until_nul-take m cs nonzero.1 (omega (arith, short)))

until_nul-pad :
    (m : ℕ) (text : List ℕ)
    → All (λ c. c ≢ 0) text
    → length text ≤ m
    → until_nul (take m (pad (suc m) text)) ≡ text
unfolding until_nul pad
until_nul-pad zero [] nonzero short = refl
until_nul-pad zero (c ∷ cs) nonzero short = absurd (omega (arith, short))
until_nul-pad (suc m) [] nonzero short = refl
until_nul-pad (suc m) (c ∷ cs) nonzero short =
    ground (arith, nonzero.0, until_nul-pad m cs nonzero.1 (omega (arith, short)))

-- A start that finds no files and can create them,
abbrev pub first_start : List ℕ → List ℕ → Files
first_start uuid key = record {
  identity_file = none;
  psk_file = none;
  can_create_identity = true;
  can_create_psk = true;
  uuid = uuid;
  random_base64 = some key;
}

-- The two files, as texts where they are there.
abbrev pub Disk : Type 0
Disk = Option (List ℕ) × Option (List ℕ)

-- What the calls make of two files that are not there: a creation makes an empty file, and a write to it
-- sets its text.
abbrev pub files_behind : List FileCall → Disk
files_behind [] = (none, none)
files_behind (identity_opened ∷ calls) = files_behind calls
files_behind (psk_opened ∷ calls) = files_behind calls
files_behind (identity_created true ∷ calls) = (some [], (files_behind calls).1)
files_behind (identity_created false ∷ calls) = files_behind calls
files_behind (psk_created true ∷ calls) = ((files_behind calls).0, some [])
files_behind (psk_created false ∷ calls) = files_behind calls
files_behind (identity_written text ∷ calls) = (some text, (files_behind calls).1)
files_behind (psk_written text ∷ calls) = ((files_behind calls).0, some text)
files_behind (identity_removed ∷ calls) = (none, (files_behind calls).1)
files_behind (psk_removed ∷ calls) = ((files_behind calls).0, none)

-- and one that finds the files that the calls left.
abbrev pub next_start : Disk → Files → Files
next_start disk f = record f { identity_file = disk.0; psk_file = disk.1 }

-- Before the first start.
abbrev pub no_keys : Keys
no_keys = record { identity = []; psk = []; calls = [] }

first_start_lem :
    (uuid key : List ℕ) (k : Keys)
    → ((identity_init (first_start uuid key) k).0 ≡ ok)
      × ((identity_init (first_start uuid key) k).1.identity ≡ uuid)
      × ((identity_init (first_start uuid key) k).1.psk ≡ take 64 key)
unfolding identity_init cleaned then_psk get_identity generate_identity get_psk generate_psk
    store_psk
first_start_lem uuid key k = (refl, refl, refl)

get_psk-pad :
    (f : Files) (text : List ℕ) (k : Keys)
    → get_psk f (some (pad 65 text)) k ≡ (ok, record k { psk = until_nul (take 64 (pad 65 text)) })
unfolding get_psk pad
get_psk-pad f [] k = refl
get_psk-pad f (c ∷ cs) k = refl

key_read :
    (key : List ℕ)
    → length key ≤ 64
    → All (λ c. c ≢ 0) key
    → until_nul (take 64 (pad 65 (take 64 key))) ≡ take 64 key
key_read key short nonzero =
    ap (λ t. until_nul (take 64 (pad 65 t))) (take-short 64 key short)
    ∙ until_nul-pad 64 key nonzero short
    ∙ sym (take-short 64 key short)

-- The calls of the first start leave the identity and the array of the key.
first_start-files_behind :
    (uuid key : List ℕ)
    → files_behind (identity_init (first_start uuid key) no_keys).1.calls
      ≡ (some uuid, some (pad 65 (take 64 key)))
unfolding identity_init cleaned then_psk get_identity generate_identity get_psk generate_psk
    store_psk
first_start-files_behind uuid key = refl

-- What a start with some files gives.
abbrev StartsAs : List ℕ → List ℕ → Files → Keys → Disk → Type 0
StartsAs uuid key f k disk =
    ((identity_init (next_start disk f) k).0 ≡ ok)
    × ((identity_init (next_start disk f) k).1.identity ≡ uuid)
    × ((identity_init (next_start disk f) k).1.psk ≡ take 64 key)

-- A start with these files.
start_again :
    (uuid key : List ℕ) (f : Files) (k' : Keys)
    → uuid ≢ []
    → length uuid ≤ 64
    → All (λ c. c ≢ 0) uuid
    → length key ≤ 64
    → All (λ c. c ≢ 0) key
    → StartsAs uuid key f k' (some uuid, some (pad 65 (take 64 key)))
unfolding identity_init cleaned then_psk get_identity
start_again [] key f k' nonempty short nonzero short' nonzero' = absurd (nonempty refl)
start_again (u ∷ us) key f k' nonempty short nonzero short' nonzero' =
    let e = ap cleaned (
      get_psk-pad (next_start (some (u ∷ us), some (pad 65 (take 64 key))) f) (take 64 key)
        (record k' {
          identity = until_nul (take 64 (u ∷ us));
          calls = psk_opened ∷ identity_opened ∷ k'.calls;
        })) in
    (
      ap (λ (r : Status × Keys). r.0) e,
      ap (λ (r : Status × Keys). r.1.identity) e ∙ until_nul-take 64 (u ∷ us) nonzero short,
      ap (λ (r : Status × Keys). r.1.psk) e ∙ key_read key short' nonzero',
    )

-- A client whose first start makes its identity and its key has the same identity and the same key after
-- a next start that finds the files as the first one's calls left them, whatever else it finds, if
-- neither text has a zero in it, the identity has from 1 to 64 characters, and the key has 64 at most.
pub restart_lem :
    (uuid key : List ℕ) (f : Files) (k' : Keys)
    → uuid ≢ []
    → length uuid ≤ 64
    → All (λ c. c ≢ 0) uuid
    → length key ≤ 64
    → All (λ c. c ≢ 0) key
    → let (status, made) = identity_init (first_start uuid key) no_keys in
      let (status', found) = identity_init (next_start (files_behind made.calls) f) k' in
      (status ≡ ok) × (status' ≡ ok) × (found.identity ≡ made.identity) × (found.psk ≡ made.psk)
restart_lem uuid key f k' nonempty short nonzero short' nonzero' =
    let (status, identity, psk) = first_start_lem uuid key no_keys in
    let (status', identity', psk') =
      subst (StartsAs uuid key f k') (sym (first_start-files_behind uuid key))
        (start_again uuid key f k' nonempty short nonzero short' nonzero') in
    (status, status', identity' ∙ sym identity, psk' ∙ sym psk)
