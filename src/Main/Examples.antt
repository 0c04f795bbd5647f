-- ===== src/Main/Examples.antt =====
-- Tests of the start.
use atlas_client.Prelude.{
  All-each, ◌≡◌, ◌≤◌, ◌<◌, refl, true, false, Option, none, some, List, [], ◌∷◌, ℕ, ℤ, codes, pos,
  arith,
}
use mathlib.Core.Option.{get_or}
use atlas_client.Status.{put}
use atlas_client.Callbacks.{execute_command}
use atlas_client.Environment.Samples.{last_resource, online}
use atlas_client.Identity.{Files, identity_init, cleaned, then_psk, get_identity, get_psk}
use atlas_client.World.{World, request, written}
use atlas_client.World.Samples.{fresh}
use atlas_client.World.Keeps.{IsSound}
use atlas_client.CoapServer.Samples.{online-IsRegistry, fresh-IsLive}
use atlas_client.CoapServer.Table.{served}
use atlas_client.CoapServer.EndPoints.{register_all, AreFree, add_end_points, on_ok}
use atlas_client.CoapServer.Dispatch.{answer_by}
use atlas_client.Events.Requests.{run_server, handler_called, handle_request}
use atlas_client.Events.Reach.{data_plane_connected, here, further}
use atlas_client.Connector.{accept_cb}
use atlas_client.Connector.Start.{connector_start, open_socket, bind_socket, listen_on}
use atlas_client.Config.{
  ip_port, set_hostname, set_port, set_local_iface, set_local_port, port_value, overruns,
}
use atlas_client.CoapClient.Dtls.{set_dtls_info}
use atlas_client.CoapServer.{
  add_resource, install, start, get_context, context_opened, set_dtls_psk, open_endpoint, open_dtls,
  serve_context, init_default_resources, default_resource, serve_fd,
}
use atlas_client.Telemetry.{add}
use atlas_client.Telemetry.Payload.{until_nul}
use atlas_client.Register.{register_start, register_cmds, address}
use atlas_client.Commands
use atlas_client.Commands.{build, add_all}
use atlas_client.Execute.{execute_init, installed}
use atlas_client.Telemetry.Features.{
  features_init, add_packets_info, add_sysinfo, add_kern_info, add_hostname, add_each,
}
use atlas_client.Main.{
  Boot, main, with_options, start_as, start_identity, with_keys, start_network, start_connector,
  start_modules,
}
use atlas_client.Main.CommandLine.{
  Arg, Options, opt_h, opt_p, opt_i, opt_l, parse_options, all_given, take_options, and_then,
  take_option, configured, port_configured,
}
use atlas_client.Main.Settings.{IsPort, parse_options_lem}
use atlas_client.Main.EndPoints.{gateway_end_points, init-served, init-answered}
use atlas_client.Main.Sound.{main-Reach-IsSound}

abbrev port_5684 : List ℕ → ℤ
port_5684 text = pos 5684

abbrev command_line : List Arg
command_line =
    record { opt = opt_h; optarg = some (codes "gw") }
    ∷ record { opt = opt_p; optarg = some (codes "5684") }
    ∷ record { opt = opt_i; optarg = some (codes "eth0") }
    ∷ record { opt = opt_l; optarg = some (codes "5684") }
    ∷ []

abbrev keys_there : Files
keys_there = record {
  identity_file = some (codes "device");
  psk_file = some (codes "key");
  can_create_identity = true;
  can_create_psk = true;
  uuid = [];
  random_base64 = none;
}

abbrev before : Boot
before = record {
  world = fresh;
  keys = record { identity = []; psk = []; calls = [] };
  dtls_info = record { dtls_identity = []; dtls_key = [] };
}

abbrev accepted : Option Options
accepted = parse_options port_5684 command_line fresh.config

fresh-free : AreFree online last_resource gateway_end_points fresh
fresh-free = All-each (λ e. last_resource [] e.uri ≡ none) (λ e. refl) gateway_end_points

init-served_example :
    served online last_resource (execute_init online (features_init online fresh)).1
    ≡ register_all gateway_end_points (served online last_resource fresh)
init-served_example =
    init-served online last_resource online-IsRegistry (λ h e. cc) fresh fresh-free fresh-IsLive

abbrev installed_world : World
installed_world = (execute_init online (features_init online fresh)).1

abbrev order : List ℕ
order = codes "client/approved/command/push"

init-answered_example :
    handle_request online
      (λ t. (pos 0, false))
      (handler_called put 8191 (some order) (0 ∷ []))
      installed_world
    ≡ answer_by
        (run_server online (λ t. (pos 0, false)))
        (some execute_command)
        order
        (0 ∷ [])
        installed_world
unfolding execute_init features_init installed add_resource install add_packets_info add_end_points
    on_ok add_sysinfo add_kern_info add_hostname add_each add
init-answered_example =
    init-answered online last_resource online-IsRegistry (λ h e. cc) (λ t. (pos 0, false)) fresh
      order (0 ∷ []) execute_command 8191 fresh-free fresh-IsLive refl refl

fresh-IsSound : IsSound fresh
fresh-IsSound = record {
  balance = λ weight. refl;
  count_byte = omega arith;
  token_word = omega arith;
}

abbrev after : Boot
after = get_or (main online port_5684 command_line 0 keys_there before) before

main-Reach-IsSound_example : IsSound (accept_cb online after.world)
unfolding main with_options parse_options all_given take_options and_then take_option configured
    set_hostname set_port set_local_iface port_configured set_local_port port_value overruns
    start_as start_identity identity_init cleaned then_psk get_identity get_psk with_keys
    start_network set_dtls_info start_connector start get_context context_opened set_dtls_psk
    open_endpoint open_dtls serve_context init_default_resources default_resource serve_fd
    connector_start open_socket bind_socket listen_on start_modules register_start request written
    build add_all register_cmds Commands.add until_nul address ip_port
main-Reach-IsSound_example =
    main-Reach-IsSound online port_5684 command_line 0 keys_there before after fresh-IsSound refl
      (further here data_plane_connected)

parse_options_lem_example : (2 ≤ 128) × IsPort (pos 5684) × (0 < 5684) × (5684 ≤ 65535)
unfolding parse_options all_given take_options and_then take_option configured port_configured
    set_hostname set_port set_local_iface set_local_port port_value
parse_options_lem_example =
    parse_options_lem port_5684 command_line fresh.config
      (get_or accepted (record {
        config = fresh.config;
        hostname_opt = false;
        gw_port_opt = false;
        iface_opt = false;
        local_port_opt = false;
        overran = false;
      }))
      refl
