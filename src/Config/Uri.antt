-- ===== src/Config/Uri.antt =====
-- The sizes of the texts that the settings are copied to.
use atlas_client.Prelude.{
  ◌↔◌, true, some, ℤ, lt→ltb, ℕ, ◌+◌, ◌≤◌, ◌≡◌, false, List, ◌++◌, arith, codes, length,
  length-append,
}
use atlas_client.Config.{Config, get_uri, overruns, set_hostname, set_port, set_local_iface}
use atlas_client.Status.{ok}

length-get_uri :
    (cfg : Config) (path : List ℕ)
    → length (get_uri cfg path) ≡ 10 + length cfg.gw_hostname + length cfg.gw_port + length path
unfolding get_uri
length-get_uri cfg path = omega (
  arith,
  length-append cfg.gw_hostname (codes ":" ++ (cfg.gw_port ++ (codes "/" ++ path))),
  length-append cfg.gw_port (codes "/" ++ path),
)

-- A gateway URI and its terminator fit the callers' 256 bytes exactly if the host, the port and the
-- path have at most 245 bytes together.
pub get_uri_fits :
    (cfg : Config) (path : List ℕ)
    → (overruns 256 (get_uri cfg path) ≡ false)
      ↔ (length cfg.gw_hostname + length cfg.gw_port + length path ≤ 245)
unfolding overruns
get_uri_fits cfg path = ground (arith, length-get_uri cfg path)

-- The terminator of every text that the host name or the interface is set to, and of every port that
-- is accepted, is written behind the block that is made for the text.
pub settings_overrun :
    (atoi : List ℕ → ℤ) (text : List ℕ) (cfg : Config)
    → ((set_hostname (some text) cfg).2 ≡ true)
      × ((set_local_iface (some text) cfg).2 ≡ true)
      × ((set_port atoi (some text) cfg).0 ≡ ok → (set_port atoi (some text) cfg).2 ≡ true)
unfolding set_hostname set_local_iface set_port overruns
settings_overrun atoi text cfg =
    (lt→ltb _ _ (omega arith), lt→ltb _ _ (omega arith), ground (arith))
