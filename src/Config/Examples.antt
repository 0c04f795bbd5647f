-- ===== src/Config/Examples.antt =====
-- Tests of the settings.
use atlas_client.Prelude.{◌+◌, ◌≤◌, ◌≡◌, ◌↔◌, true, false, some, List, ℕ, ℤ, pos, codes, length}
use atlas_client.Status.{ok}
use atlas_client.Config.{Config, overruns, get_uri, set_hostname, set_port, set_local_iface}
use atlas_client.Config.Uri.{get_uri_fits, settings_overrun}

abbrev cfg : Config
cfg = record {
  gw_hostname = codes "gw";
  gw_port = codes "5684";
  local_iface = codes "eth0";
  local_port = 10100;
}

-- `atoi` of the only text that the tests use.
abbrev atoi : List ℕ → ℤ
atoi text = pos 8080

get_uri_fits_test :
    (overruns 256 (get_uri cfg (codes "a")) ≡ false)
    ↔ (length cfg.gw_hostname + length cfg.gw_port + length (codes "a") ≤ 245)
get_uri_fits_test = get_uri_fits cfg (codes "a")

settings_overrun_example :
    ((set_hostname (some (codes "gw")) cfg).2 ≡ true)
    × ((set_local_iface (some (codes "gw")) cfg).2 ≡ true)
    × ((set_port atoi (some (codes "gw")) cfg).0 ≡ ok
        → (set_port atoi (some (codes "gw")) cfg).2 ≡ true)
settings_overrun_example = settings_overrun atoi (codes "gw") cfg
