-- ===== src/World.antt =====
-- The state of the whole program: the static variables of its files, as its callbacks share them.
pub mod Keeps
pub mod Batches
pub mod Samples
use atlas_client.Prelude.{ℕ, Bool, Option, none, some, List, [], ◌∷◌, ℤ}
use atlas_client.Status.{Status, Method}
use atlas_client.Callbacks.{ClientCallback, PayloadCallback, ServerCallback}
use atlas_client.Environment.{Call, faulted, Environment}
use atlas_client.Commands.{Cmd, build}
use atlas_client.Alarm.{Timers}
use atlas_client.CoapClient.{Client, client_request}
use atlas_client.CoapClient
use atlas_client.Config.{Config, get_uri}

-- atlas_telemetry_t.
pub record Feature : Type 0 where
  pub uri_path : List ℕ
  pub payload_cb : PayloadCallback
  pub push_id : ℤ
  pub threshold_id : ℤ

-- The static variables of atlas_data_plane_connector.c that the other files see.
pub record Policy : Type 0 where
  pub qos : ℕ
  pub packets_per_min : ℕ
  pub packets_maxlen : ℕ
  pub active : Bool

-- atlas_coap_server_listener_t. `resource` is its address.
pub record Listener : Type 0 where
  pub resource : ℕ
  pub callback : ServerCallback
  pub uri_path : List ℕ

-- The static variables of atlas_coap_server.c: `server_listeners` method by method.
pub record Server : Type 0 where
  pub ctx : Option ℕ
  pub fd : ℤ
  pub get_listeners : List Listener
  pub post_listeners : List Listener
  pub put_listeners : List Listener
  pub delete_listeners : List Listener

pub record World : Type 0 where
  pub client : Client
  pub server : Server
  -- atlas_register.c.
  pub registered : Bool
  pub ka_token : ℕ
  pub ka_count : ℕ
  pub ka_alarm_id : ℤ
  -- atlas_telemetry.c and atlas_telemetry_sysinfo.c.
  pub features : List Feature
  pub procs_threshold : ℕ
  -- atlas_data_plane_connector.c.
  pub policy : Policy
  -- A descriptor, or -1.
  pub connected_socket : ℤ
  pub packets_per_min : ℕ
  pub packets_avg : ℕ
  -- atlas_command_execute_utils.c, atlas_config.c and atlas_identity.c.
  pub cmd_in_progress : Bool
  pub config : Config
  pub identity : List ℕ

abbrev pub recorded : Call → World → World
recorded call w = record w { client = CoapClient.called call w.client }

abbrev pub set_timers : Timers → World → World
set_timers t w = record w { client = record w.client { timers = t } }

-- A batch that overruns its block is a fault.
unfoldable pub bytes_of : Option (List ℕ) → World → List ℕ × World
bytes_of none w = ([], recorded faulted w)
bytes_of (some bytes) w = (bytes, w)

-- The bytes of a new batch with these commands.
unfoldable pub written : List Cmd → World → List ℕ × World
unfolding bytes_of
written cmds w = bytes_of (build cmds) w

-- A request to the gateway's resource of this path.
unfoldable pub request : Environment → List ℕ → Method → List ℕ → ℕ → ClientCallback → World → World
request env path method payload ms cb w = record w {
  client =
      (client_request env (some (get_uri w.config path)) method payload ms (some cb) w.client).1;
}
