-- ===== src/Lib.antt =====
-- The ATLAS client registers an IoT device at a gateway over CoAP, keeps the registration alive, sends
-- telemetry, executes the gateway's orders, and carries policies and feedback between the gateway and a
-- data plane process on the device. It is one process with one thread: a scheduler calls back when a
-- descriptor is ready, and every other part runs in such a callback.
--
-- The files, and the code that they model:
--   Status        src/utils/atlas_status.h, src/coap/atlas_coap_response.h, src/coap/atlas_coap_method.h
--   Commands      src/commands: new, add, set_raw and get are atlas_cmd_batch_new, _add, _set_raw and
--                 _get; build is a writer's sequence of calls, and read_all the loop of every reader.
--                 A batch is its bytes, a fault is an access outside its block.
--   Scheduler     src/scheduler: add_entry, del_entry, and loop_round, one turn of `while (1)`: sweep is
--                 its first loop and dispatch its second
--   Alarm         src/alarm: alarm_set and alarm_cancel over timer descriptors
--   CoapClient    src/coap/atlas_coap_client.c: client_request; CoapClient.Receive has message_handler, and
--                 what the scheduler and the timeout do with a request
--   CoapServer    src/coap/atlas_coap_server.c: start, add_resource and del_resource; CoapServer.Requests has
--                 process_request_handler, and CoapServer.EndPoints the end-points that a part adds.
--                 CoapServer.Table is the server as a table of callbacks by path and method, which
--                 they refine.
--   Alert         src/telemetry/atlas_alert_utils.c
--   Config        src/utils/atlas_config.c
--   World         the static variables of all files as one record, a batch and a request as the parts
--                 send them, and what every event keeps
--   Telemetry     src/telemetry/atlas_telemetry.c; Telemetry.Payload has the payload functions of
--                 atlas_telemetry_sysinfo.c, _hostname.c, _kern_info.c and _packets_info.c, and
--                 Telemetry.Endpoints the alert end-points, and Telemetry.Features the registration of
--                 both
--   Register      src/register; Register.Policy the policy request of src/data_plane_connector
--   Connector     the rest of src/data_plane_connector/atlas_data_plane_connector.c
--   Library       src/data_plane/atlas_client.c, in a process of its own; Library.Messages is its exchange
--                 with Connector
--   DataPlane     src/data_plane/atlas_data_plane.c, the process that uses Library: DataPlane.Arrivals has
--                 publish_feature_value and msgarrvd, DataPlane.Reputation handle_data, DataPlane.Rounds
--                 a round of reputation_query_task, DataPlane.Options and DataPlane.Start the arguments;
--                 DataPlane.Exchange is a request for a value and its answer
--   Execute       src/commands_execute
--   Events        atlas_alarm_trigger, request_alarm_cb and coap_client_sched_callback, which run the
--                 callbacks of the other parts; Events.Requests has coap_server_sched_callback;
--                 Events.Reach is the program as a step relation
--   Identity      src/identity/atlas_identity.c, over what its files hold
--   Main          src/atlas_main.c: main up to the scheduler's loop; Main.CommandLine is parse_options
--   Environment   the kernel, libcoap and the C library
--   Callbacks     the functions that are registered as callbacks, by name
--   Prelude       the library's names, Boolean tests, lists and integers over the native numbers
--
-- Conventions. Text and buffers are lists of bytes without the terminator; a null buffer is the empty
-- one, a null pointer that the code tests is `none`. A uint16_t and a uint8_t keep their wrap-around as
-- a remainder. The host is little-endian. malloc succeeds. A result of the environment is a function of
-- the calls made before it, newest first, so that nothing is assumed of it but what a theorem says. A
-- batch that overruns its block, and a read behind a message, are recorded in the history as `faulted`.
-- Two callbacks of one turn share nothing but World, so their order is that of the calls.
--
-- Fuel. The loops over a batch have as much fuel as it has bytes, and each turn consumes four. The loop
-- over the scheduler's entries gets fuel from its caller, and so do the library's functions that try
-- without end to write and to connect. A loop over the tokens of a text has one more than the text
-- has bytes, and each token consumes one. All other loops are structural.
--
-- The data plane's floating-point numbers are a type with the operations that the source uses; nothing is
-- assumed of them. The events of a round, messages that arrive and values that are published, are
-- lists in any order.
--
-- Not modelled: the logger; the log lines are left out. Which resource libcoap chooses for a request is a
-- parameter, with what the source relies on as laws.
pub mod Library
pub mod Main
pub mod Prelude
pub mod Status
pub mod Commands
pub mod Scheduler
pub mod DataPlane
pub mod Environment
pub mod Callbacks
pub mod Alarm
pub mod CoapClient
pub mod CoapServer
pub mod Alert
pub mod Config
pub mod World
pub mod Telemetry
pub mod Register
pub mod Execute
pub mod Connector
pub mod Events
pub mod Identity
