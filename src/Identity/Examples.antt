-- ===== src/Identity/Examples.antt =====
-- Tests of the start with and without the files.
use atlas_client.Prelude.{◌≡◌, refl, true, none, some, List, [], ◌∷◌, arith}
use atlas_client.Status.{ok, psk_file_error}
use atlas_client.Identity.{
  FileCall, identity_removed, psk_removed, Files, identity_init, cleaned, then_psk, get_identity,
  get_psk,
}
use atlas_client.Identity.Init.{
  no_keys, files_behind, first_start, next_start, init_error, restart_lem,
}

-- An identity is there, and an empty key file.
abbrev empty_psk : Files
empty_psk = record {
  identity_file = some (97 ∷ []);
  psk_file = some [];
  can_create_identity = true;
  can_create_psk = true;
  uuid = 98 ∷ [];
  random_base64 = none;
}

empty_psk-fails : (identity_init empty_psk no_keys).0 ≡ psk_file_error
unfolding identity_init cleaned then_psk get_identity get_psk
empty_psk-fails = refl

init_error_test :
    (rest : List FileCall) × ((identity_init empty_psk no_keys).1.calls
      ≡ psk_removed ∷ identity_removed ∷ rest)
init_error_test = init_error empty_psk no_keys (λ e. cc (e, empty_psk-fails))

restart_lem_example :
    let (status, made) = identity_init (first_start (97 ∷ []) (98 ∷ 99 ∷ [])) no_keys in
    let (status', found) = identity_init (next_start (files_behind made.calls) empty_psk) no_keys in
    (status ≡ ok) × (status' ≡ ok) × (found.identity ≡ made.identity) × (found.psk ≡ made.psk)
restart_lem_example =
    restart_lem (97 ∷ []) (98 ∷ 99 ∷ []) empty_psk no_keys (λ e. cc) (omega arith)
      ((λ e. omega (arith, e)), tt) (omega arith)
      ((λ e. omega (arith, e)), ((λ e. omega (arith, e)), tt))
