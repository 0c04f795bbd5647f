-- ===== src/Commands/Types.antt =====
-- The numbers of the command types: src/commands/atlas_command_types.h and
-- src/commands_execute/atlas_command_execute_types.h.
use atlas_client.Prelude.{ℕ}

abbrev pub register : ℕ
register = 0

abbrev pub keepalive : ℕ
keepalive = 1

abbrev pub identity : ℕ
identity = 2

abbrev pub ip_port : ℕ
ip_port = 3

abbrev pub telemetry_hostname : ℕ
telemetry_hostname = 500

abbrev pub telemetry_kern_info : ℕ
telemetry_kern_info = 501

abbrev pub telemetry_sysinfo_uptime : ℕ
telemetry_sysinfo_uptime = 502

abbrev pub telemetry_sysinfo_totalram : ℕ
telemetry_sysinfo_totalram = 503

abbrev pub telemetry_sysinfo_freeram : ℕ
telemetry_sysinfo_freeram = 504

abbrev pub telemetry_sysinfo_sharedram : ℕ
telemetry_sysinfo_sharedram = 505

abbrev pub telemetry_sysinfo_bufferram : ℕ
telemetry_sysinfo_bufferram = 506

abbrev pub telemetry_sysinfo_totalswap : ℕ
telemetry_sysinfo_totalswap = 507

abbrev pub telemetry_sysinfo_freeswap : ℕ
telemetry_sysinfo_freeswap = 508

abbrev pub telemetry_sysinfo_procs : ℕ
telemetry_sysinfo_procs = 509

abbrev pub telemetry_sysinfo_load1 : ℕ
telemetry_sysinfo_load1 = 510

abbrev pub telemetry_sysinfo_load5 : ℕ
telemetry_sysinfo_load5 = 511

abbrev pub telemetry_sysinfo_load15 : ℕ
telemetry_sysinfo_load15 = 512

abbrev pub telemetry_alert_ext_push_rate : ℕ
telemetry_alert_ext_push_rate = 513

abbrev pub telemetry_alert_int_scan_rate : ℕ
telemetry_alert_int_scan_rate = 514

abbrev pub telemetry_alert_threshold : ℕ
telemetry_alert_threshold = 515

abbrev pub telemetry_packets_per_minute : ℕ
telemetry_packets_per_minute = 516

abbrev pub telemetry_packets_avg : ℕ
telemetry_packets_avg = 517

abbrev pub data_plane_policy : ℕ
data_plane_policy = 1000

abbrev pub data_plane_packets_per_minute : ℕ
data_plane_packets_per_minute = 1001

abbrev pub data_plane_packets_avg : ℕ
data_plane_packets_avg = 1002

abbrev pub data_plane_get_identity : ℕ
data_plane_get_identity = 1003

abbrev pub data_plane_identity : ℕ
data_plane_identity = 1004

abbrev pub data_plane_policy_qos : ℕ
data_plane_policy_qos = 1100

abbrev pub data_plane_policy_packets_per_minute : ℕ
data_plane_policy_packets_per_minute = 1101

abbrev pub data_plane_policy_packets_maxlen : ℕ
data_plane_policy_packets_maxlen = 1102

abbrev pub data_plane_feature_reputation : ℕ
data_plane_feature_reputation = 1500

abbrev pub data_plane_feedback : ℕ
data_plane_feedback = 1501

abbrev pub data_plane_feedback_identity : ℕ
data_plane_feedback_identity = 1502

abbrev pub data_plane_feedback_sensor_type : ℕ
data_plane_feedback_sensor_type = 1503

abbrev pub data_plane_feedback_sensor : ℕ
data_plane_feedback_sensor = 1504

abbrev pub data_plane_feedback_response_time : ℕ
data_plane_feedback_response_time = 1505

abbrev pub data_plane_feature_error : ℕ
data_plane_feature_error = 1506

abbrev pub device_restart : ℕ
device_restart = 0

abbrev pub device_shutdown : ℕ
device_shutdown = 1

abbrev pub device_unknown : ℕ
device_unknown = 2
