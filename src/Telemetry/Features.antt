-- ===== src/Telemetry/Features.antt =====
-- The registration of the features and of their end-points: atlas_telemetry_features_init of
-- src/telemetry/atlas_telemetry_features.c and the functions of the other files that it calls.
use atlas_client.Prelude.{List, [], ◌∷◌, ◌++◌, ℕ, map, some, codes}
use atlas_client.Callbacks.{
  PayloadCallback, payload_hostname, payload_kern_info, payload_uptime, payload_totalram,
  payload_freeram, payload_sharedram, payload_bufferram, payload_totalswap, payload_freeswap,
  payload_procs, payload_load1, payload_load5, payload_load15, payload_packets_per_minute,
  payload_packets_avg, sysinfo_push_alert, packets_push_alert, procs_threshold_alert,
}
use atlas_client.Environment.{Environment}
use atlas_client.World.{World}
use atlas_client.CoapServer.EndPoints.{EndPoint, add_end_points}
use atlas_client.Telemetry.{add}
use atlas_client.Telemetry.Endpoints.{sysinfo_alerts, packets_alerts}

-- A path and its payload function.
abbrev pub Source : Type 0
Source = List ℕ × PayloadCallback

unfoldable pub add_each : List Source → World → World
add_each [] w = w
add_each ((path, cb) ∷ more) w = add_each more (add (some path) (some cb) w)

abbrev pub sysinfo_sources : List Source
sysinfo_sources =
    (codes "gateway/telemetry/sysinfo/uptime", payload_uptime)
    ∷ (codes "gateway/telemetry/sysinfo/totalram", payload_totalram)
    ∷ (codes "gateway/telemetry/sysinfo/freeram", payload_freeram)
    ∷ (codes "gateway/telemetry/sysinfo/sharedram", payload_sharedram)
    ∷ (codes "gateway/telemetry/sysinfo/bufferram", payload_bufferram)
    ∷ (codes "gateway/telemetry/sysinfo/totalswap", payload_totalswap)
    ∷ (codes "gateway/telemetry/sysinfo/freeswap", payload_freeswap)
    ∷ (codes "gateway/telemetry/sysinfo/procs", payload_procs)
    ∷ (codes "gateway/telemetry/sysinfo/load1", payload_load1)
    ∷ (codes "gateway/telemetry/sysinfo/load5", payload_load5)
    ∷ (codes "gateway/telemetry/sysinfo/load15", payload_load15)
    ∷ []

-- The end-points of the push alerts are added in the order of the chain of `strcmp`.
abbrev pub sysinfo_end_points : List EndPoint
sysinfo_end_points =
    map (λ a. record { uri = a.alert; callback = sysinfo_push_alert }) sysinfo_alerts
    ++ record {
      uri = codes "client/telemetry/sysinfo/procs/alerts/threshold";
      callback = procs_threshold_alert;
    }
      ∷ []

abbrev pub packets_sources : List Source
packets_sources =
    (codes "gateway/telemetry/packets_per_minute", payload_packets_per_minute)
    ∷ (codes "gateway/telemetry/packets_avg", payload_packets_avg)
    ∷ []

abbrev pub packets_end_points : List EndPoint
packets_end_points =
    map (λ a. record { uri = a.alert; callback = packets_push_alert }) packets_alerts

unfoldable pub add_hostname : World → World
add_hostname w = add_each ((codes "gateway/telemetry/hostname", payload_hostname) ∷ []) w

unfoldable pub add_kern_info : World → World
add_kern_info w = add_each ((codes "gateway/telemetry/kernel_info", payload_kern_info) ∷ []) w

module _ (env : Environment) where
  unfoldable pub add_sysinfo : World → World
  add_sysinfo w = (add_end_points env sysinfo_end_points (add_each sysinfo_sources w)).1

  unfoldable pub add_packets_info : World → World
  add_packets_info w = (add_end_points env packets_end_points (add_each packets_sources w)).1

  unfoldable pub features_init : World → World
  features_init w = add_packets_info (add_sysinfo (add_kern_info (add_hostname w)))
