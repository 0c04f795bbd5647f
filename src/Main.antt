-- ===== src/Main.antt =====
-- The program's start: src/atlas_main.c. `getopt` gives the options one after the other; the library's
-- `atoi` is a parameter. `none` is an exit.
pub mod EndPoints
pub mod CommandLine
pub mod Settings
pub mod Sound
mod Examples
use atlas_client.Prelude.{ℕ, Bool, true, false, Option, none, some, List, ℤ, ◌==◌, if◌then◌else◌}
use atlas_client.Status.{Status, ok}
use atlas_client.Environment.{Environment}
use atlas_client.Identity.{Files, Keys, identity_init}
use atlas_client.CoapClient.Dtls.{DtlsInfo, set_dtls_info}
use atlas_client.CoapServer
use atlas_client.CoapServer.{mode_dtls_psk}
use atlas_client.Connector.Start.{connector_start}
use atlas_client.Register.{register_start}
use atlas_client.Telemetry.Features.{features_init}
use atlas_client.Execute.{execute_init}
use atlas_client.World.{World}
use atlas_client.Main.CommandLine.{Arg, Options, parse_options}

-- The state of the start: the identity and the DTLS data have files of their own.
pub record Boot : Type 0 where
  pub world : World
  pub keys : Keys
  pub dtls_info : DtlsInfo

-- The parts read the identity by its getter.
unfoldable pub with_keys : Boot → Keys → Boot
with_keys b k = record b { world = record b.world { identity = k.identity }; keys = k }

module _ (env : Environment) where
  -- The scheduler's loop follows. A command engine without its end-point does not stop the program.
  unfoldable pub start_modules : Boot → Status × World → Option Boot
  start_modules b (ok, w) = some (record b { world = (execute_init env (features_init env w)).1 })
  start_modules b (status, w) = none

  unfoldable pub start_connector : Boot → Status × World → Option Boot
  start_connector b (ok, w) = start_modules b (connector_start env w)
  start_connector b (status, w) = none

  unfoldable pub start_network : Boot → Status × DtlsInfo → Option Boot
  start_network b (ok, info) =
      let w = register_start env b.world in
      start_connector (record b { dtls_info = info })
        (CoapServer.start env w.config.local_port mode_dtls_psk b.keys.psk w)
  start_network b (status, info) = none

  unfoldable pub start_identity : Boot → Status × Keys → Option Boot
  start_identity b (ok, k) =
      start_network (with_keys b k) (set_dtls_info (some k.identity) (some k.psk) b.dtls_info)
  start_identity b (status, k) = none

  -- With the effective user's number; the program must be root's.
  unfoldable pub start_as : ℕ → Files → Boot → Option Boot
  start_as euid files b = if euid == 0 then start_identity b (identity_init files b.keys) else none

  unfoldable pub with_options : ℕ → Files → Boot → Option Options → Option Boot
  with_options euid files b none = none
  with_options euid files b (some o) =
      start_as euid files (record b { world = record b.world { config = o.config } })

  unfoldable pub main : (List ℕ → ℤ) → List Arg → ℕ → Files → Boot → Option Boot
  main atoi args euid files b = with_options euid files b (parse_options atoi args b.world.config)
