-- ===== src/World/Samples.antt =====
-- Worlds for tests.
use atlas_client.Prelude.{none, false, [], ◌∷◌, minus_one, pos, codes}
use atlas_client.Callbacks.{payload_load1, payload_load15, payload_packets_avg}
use atlas_client.World.{Feature, World}

abbrev pub load1 : Feature
load1 = record {
  uri_path = codes "gateway/telemetry/sysinfo/load1";
  payload_cb = payload_load1;
  push_id = minus_one;
  threshold_id = minus_one;
}

abbrev pub load15 : Feature
load15 = record load1 {
  uri_path = codes "gateway/telemetry/sysinfo/load15";
  payload_cb = payload_load15;
}

abbrev pub packets : Feature
packets = record load1 {
  uri_path = codes "gateway/telemetry/packets_avg";
  payload_cb = payload_packets_avg;
}

-- The state in which the program starts, with the settings of the command line.
abbrev pub fresh : World
fresh = record {
  client = record {
    timers = record { history = []; sched = []; alarms = [] };
    reqs = [];
    next_token = 0;
  };
  server = record {
    ctx = none;
    fd = pos 0;
    get_listeners = [];
    post_listeners = [];
    put_listeners = [];
    delete_listeners = [];
  };
  registered = false;
  ka_token = 0;
  ka_count = 0;
  ka_alarm_id = pos 0;
  features = load1 ∷ load15 ∷ packets ∷ [];
  procs_threshold = 0;
  policy = record { qos = 0; packets_per_min = 0; packets_maxlen = 0; active = false };
  connected_socket = minus_one;
  packets_per_min = 0;
  packets_avg = 0;
  cmd_in_progress = false;
  config = record {
    gw_hostname = codes "gw";
    gw_port = codes "5684";
    local_iface = codes "eth0";
    local_port = 10100;
  };
  identity = codes "device";
}
