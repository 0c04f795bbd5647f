-- ===== src/Config.antt =====
-- The client's settings: src/utils/atlas_config.h and atlas_config.c. `atoi` is a parameter.
pub mod Uri
mod Examples
use atlas_client.Prelude.{
  ℕ, suc, ◌+◌, Bool, true, false, Option, none, some, List, [], ◌∷◌, ◌++◌, ℤ, pos, negsuc, ltb,
  codes, length, take, if◌then◌else◌,
}
use atlas_client.Status.{Status, ok, invalid_input}

pub record Config : Type 0 where
  pub gw_hostname : List ℕ
  pub gw_port : List ℕ
  pub local_iface : List ℕ
  pub local_port : ℕ

-- `strcpy` into a block of `size` bytes writes the text and its terminator: whether that is too much.
unfoldable pub overruns : ℕ → List ℕ → Bool
overruns size text = ltb size (length text + 1)

-- The copy into `malloc(strlen(text))`, with whether it writes behind the block. `none` is null.
unfoldable pub set_hostname : Option (List ℕ) → Config → Status × Config × Bool
unfolding overruns
set_hostname none cfg = (invalid_input, cfg, false)
set_hostname (some text) cfg = (ok, record cfg { gw_hostname = text }, overruns (length text) text)

-- What `atoi` made of the text, if it is a port.
unfoldable pub port_value : ℤ → Option ℕ
port_value (negsuc n) = none
port_value (pos n) = if ltb 0 n then (if ltb 65535 n then none else some n) else none

unfoldable pub set_port : (List ℕ → ℤ) → Option (List ℕ) → Config → Status × Config × Bool
unfolding overruns port_value
set_port atoi none cfg = (invalid_input, cfg, false)
set_port atoi (some text) cfg = elim (port_value (atoi text)) [
  | none ↦ (invalid_input, cfg, false)
  | some n ↦ (ok, record cfg { gw_port = text }, overruns (length text) text)
]

unfoldable pub set_local_iface : Option (List ℕ) → Config → Status × Config × Bool
unfolding overruns
set_local_iface none cfg = (invalid_input, cfg, false)
set_local_iface (some text) cfg =
    (ok, record cfg { local_iface = text }, overruns (length text) text)

unfoldable pub set_local_port : (List ℕ → ℤ) → Option (List ℕ) → Config → Status × Config
unfolding port_value
set_local_port atoi none cfg = (invalid_input, cfg)
set_local_port atoi (some text) cfg = elim (port_value (atoi text)) [
  | none ↦ (invalid_input, cfg)
  | some n ↦ (ok, record cfg { local_port = n })
]

-- `uri` is written with the terminator; the callers' buffers have 256 bytes.
unfoldable pub get_uri : Config → List ℕ → List ℕ
get_uri cfg path =
    codes "coaps://" ++ (cfg.gw_hostname ++ (codes ":" ++ (cfg.gw_port ++ (codes "/" ++ path))))

-- The address, a colon and the port, each cut as `strncpy`, `snprintf` and `strncat` cut them.
unfoldable pub ip_port : (ℕ → List ℕ) → Config → List ℕ → List ℕ
ip_port print cfg ip = take 16 ip ++ (codes ":" ++ take 5 (print cfg.local_port))
