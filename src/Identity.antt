-- ===== src/Identity.antt =====
-- The client's identity and its key: src/identity/atlas_identity.h and atlas_identity.c. Files, the uuid
-- library and OpenSSL are parameters. The texts end before their terminator.
pub mod Init
mod Examples
use atlas_client.Prelude.{
  ℕ, zero, suc, Bool, true, false, Option, none, some, List, [], ◌∷◌, take, if◌then◌else◌,
}
use atlas_client.Status.{Status, ok, identity_file_error, psk_file_error}
use atlas_client.Telemetry.Payload.{until_nul}

-- What is done to the two files.
pub data FileCall : Type 0 where
  identity_opened psk_opened : FileCall
  identity_created : Bool → FileCall
  psk_created : Bool → FileCall
  identity_written psk_written : List ℕ → FileCall
  identity_removed psk_removed : FileCall

-- The calls are newest first.
pub record Keys : Type 0 where
  pub identity : List ℕ
  pub psk : List ℕ
  pub calls : List FileCall

abbrev pub did : FileCall → Keys → Keys
did call k = record k { calls = call ∷ k.calls }

-- The results of the calls that the two parts make: what a file holds, or `none` where it cannot be
-- opened, whether it can be created, the uuid's text, and the random bytes in base64, if there are any.
pub record Files : Type 0 where
  pub identity_file : Option (List ℕ)
  pub psk_file : Option (List ℕ)
  pub can_create_identity : Bool
  pub can_create_psk : Bool
  pub uuid : List ℕ
  pub random_base64 : Option (List ℕ)

unfoldable pub generate_identity : Files → Keys → Status × Keys
generate_identity f k =
    let created = did (identity_created f.can_create_identity) k in
    if f.can_create_identity
    then (ok, record (did (identity_written f.uuid) created) { identity = f.uuid })
    else (identity_file_error, created)

-- The first bytes of an array that holds the text and zeros behind it.
unfoldable pub pad : ℕ → List ℕ → List ℕ
pad zero text = []
pad (suc n) [] = 0 ∷ pad n []
pad (suc n) (c ∷ cs) = c ∷ pad n cs

-- The text of the key is the first 64 characters; the whole array of 65 is written.
unfoldable pub store_psk : Option (List ℕ) → Keys → Status × Keys
store_psk none k = (psk_file_error, k)
store_psk (some text) k =
    (ok, record (did (psk_written (pad 65 (take 64 text))) k) { psk = take 64 text })

unfoldable pub generate_psk : Files → Keys → Status × Keys
generate_psk f k =
    let created = did (psk_created f.can_create_psk) k in
    if f.can_create_psk then store_psk f.random_base64 created else (psk_file_error, created)

-- With what the file holds; 64 bytes of it are read, and none is an error.
unfoldable pub get_identity : Files → Option (List ℕ) → Keys → Status × Keys
get_identity f none k = generate_identity f k
get_identity f (some []) k = (identity_file_error, record k { identity = [] })
get_identity f (some (b ∷ bs)) k = (ok, record k { identity = until_nul (take 64 (b ∷ bs)) })

unfoldable pub get_psk : Files → Option (List ℕ) → Keys → Status × Keys
get_psk f none k = generate_psk f k
get_psk f (some []) k = (psk_file_error, record k { psk = [] })
get_psk f (some (b ∷ bs)) k = (ok, record k { psk = until_nul (take 64 (b ∷ bs)) })

-- The label ERR, for every status but ATLAS_OK.
unfoldable pub cleaned : Status × Keys → Status × Keys
cleaned (ok, k) = (ok, k)
cleaned (status, k) = (status, did psk_removed (did identity_removed k))

-- The second part, where the first one succeeded.
unfoldable pub then_psk : Files → Status × Keys → Status × Keys
then_psk f (ok, k) = get_psk f f.psk_file (did psk_opened k)
then_psk f (status, k) = (status, k)

unfoldable pub identity_init : Files → Keys → Status × Keys
identity_init f k = cleaned (then_psk f (get_identity f f.identity_file (did identity_opened k)))
