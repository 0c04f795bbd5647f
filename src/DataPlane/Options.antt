-- ===== src/DataPlane/Options.antt =====
-- The options of the data plane: the loop of parse_arguments of src/data_plane/atlas_data_plane.c. `atoi` is
-- a parameter.
use atlas_client.Prelude.{Option, none, some, List, [], ◌∷◌, ℕ, ℤ, minus_one}

-- The options of `getopt_long`, and anything else.
pub data PlaneOpt : Type 0 where
  publish_opt subscribe_opt hostname_opt qos_opt ppm_opt maxlen_opt reputation_opt : PlaneOpt
  bad_opt : PlaneOpt

pub record Given : Type 0 where
  pub publish_arg : Option (List ℕ)
  pub subscribe_arg : Option (List ℕ)
  pub hostname_arg : Option (List ℕ)
  pub reputation_arg : Option (List ℕ)
  pub qos : ℤ
  pub ppm : ℤ
  pub maxlen : ℤ

abbrev pub nothing_given : Given
nothing_given = record {
  publish_arg = none;
  subscribe_arg = none;
  hostname_arg = none;
  reputation_arg = none;
  qos = minus_one;
  ppm = minus_one;
  maxlen = minus_one;
}

unfoldable pub take_one : (List ℕ → ℤ) → PlaneOpt → List ℕ → Given → Option Given
take_one atoi publish_opt arg g = some (record g { publish_arg = some arg })
take_one atoi subscribe_opt arg g = some (record g { subscribe_arg = some arg })
take_one atoi hostname_opt arg g = some (record g { hostname_arg = some arg })
take_one atoi qos_opt arg g = some (record g { qos = atoi arg })
take_one atoi ppm_opt arg g = some (record g { ppm = atoi arg })
take_one atoi maxlen_opt arg g = some (record g { maxlen = atoi arg })
take_one atoi reputation_opt arg g = some (record g { reputation_arg = some arg })
take_one atoi bad_opt arg g = none

-- `none` is the exit of an option that there is not.
unfoldable pub take_all : (List ℕ → ℤ) → List (PlaneOpt × List ℕ) → Option Given → Option Given
take_all atoi [] g = g
take_all atoi (a ∷ more) none = none
take_all atoi ((opt, arg) ∷ more) (some g) = take_all atoi more (take_one atoi opt arg g)
