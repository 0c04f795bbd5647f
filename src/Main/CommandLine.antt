-- ===== src/Main/CommandLine.antt =====
-- The command line: parse_options of src/atlas_main.c.
use atlas_client.Prelude.{
  ℕ, Bool, true, false, not, ◌||◌, Option, none, some, List, [], ◌∷◌, ℤ, ltb, length, if◌then◌else◌,
}
use atlas_client.Status.{Status, ok}
use atlas_client.Config.{Config, set_hostname, set_port, set_local_iface, set_local_port}

-- What `getopt` returns: the four options, and anything else.
pub data Opt : Type 0 where
  opt_h opt_p opt_i opt_l opt_unknown : Opt

-- With `optarg`, which `none` is null.
pub record Arg : Type 0 where
  pub opt : Opt
  pub optarg : Option (List ℕ)

-- The settings so far, whether each option was given, and whether a copy was written behind its block.
pub record Options : Type 0 where
  pub config : Config
  pub hostname_opt : Bool
  pub gw_port_opt : Bool
  pub iface_opt : Bool
  pub local_port_opt : Bool
  pub overran : Bool

abbrev pub too_long : Option (List ℕ) → Bool
too_long none = false
too_long (some text) = ltb 128 (length text)

-- The settings that an option leaves, where its setter returned ATLAS_OK.
unfoldable pub configured : Options → Status × Config × Bool → Option Options
configured o (ok, cfg, over) = some (record o { config = cfg; overran = o.overran || over })
configured o (_, cfg, over) = none

unfoldable pub port_configured : Options → Status × Config → Option Options
port_configured o (ok, cfg) = some (record o { config = cfg })
port_configured o (_, cfg) = none

unfoldable pub and_then : (Options → Option Options) → Option Options → Option Options
and_then next none = none
and_then next (some o) = next o

-- The test behind the loop.
unfoldable pub all_given : Option Options → Option Options
all_given none = none
all_given (some o) =
    if not o.hostname_opt || not o.gw_port_opt || not o.iface_opt || not o.local_port_opt
    then none
    else some o

module _ (atoi : List ℕ → ℤ) where
  -- One turn of the loop.
  unfoldable pub take_option : Opt → Option (List ℕ) → Options → Option Options
  take_option opt_h arg o =
      if too_long arg
      then none
      else configured (record o { hostname_opt = true }) (set_hostname arg o.config)
  take_option opt_p arg o =
      configured (record o { gw_port_opt = true }) (set_port atoi arg o.config)
  take_option opt_i arg o =
      configured (record o { iface_opt = true }) (set_local_iface arg o.config)
  take_option opt_l arg o =
      port_configured (record o { local_port_opt = true }) (set_local_port atoi arg o.config)
  take_option opt_unknown arg o = none

  unfoldable pub take_options : List Arg → Options → Option Options
  take_options [] o = some o
  take_options (a ∷ more) o = and_then (take_options more) (take_option a.opt a.optarg o)

  unfoldable pub parse_options : List Arg → Config → Option Options
  parse_options args cfg = all_given (
      take_options args (record {
        config = cfg;
        hostname_opt = false;
        gw_port_opt = false;
        iface_opt = false;
        local_port_opt = false;
        overran = false;
      }))
