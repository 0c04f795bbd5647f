-- ===== src/Callbacks.antt =====
-- The functions that the program registers as callbacks, by name.

-- atlas_sched_cb_t.
pub data SchedCallback : Type 0 where
  alarm_trigger coap_client_sched coap_server_sched data_plane_accept data_plane_read :
      SchedCallback

-- atlas_alarm_cb_t.
pub data AlarmCallback : Type 0 where
  request_alarm reg_alarm keepalive_alarm policy_alarm : AlarmCallback
  push_alert_alarm threshold_alert_alarm : AlarmCallback
  execute_restart_alarm execute_shutdown_alarm : AlarmCallback

-- atlas_coap_client_cb_t.
pub data ClientCallback : Type 0 where
  reg_callback keepalive_callback telemetry_callback : ClientCallback
  policy_callback feature_reputation_callback feedback_callback : ClientCallback

-- atlas_telemetry_payload_cb.
pub data PayloadCallback : Type 0 where
  payload_hostname payload_kern_info : PayloadCallback
  payload_uptime payload_totalram payload_freeram payload_sharedram : PayloadCallback
  payload_bufferram payload_totalswap payload_freeswap payload_procs : PayloadCallback
  payload_load1 payload_load5 payload_load15 : PayloadCallback
  payload_packets_per_minute payload_packets_avg : PayloadCallback

-- atlas_coap_server_cb_t. Two files have a function of the same name for the push alerts.
pub data ServerCallback : Type 0 where
  sysinfo_push_alert packets_push_alert procs_threshold_alert execute_command : ServerCallback
