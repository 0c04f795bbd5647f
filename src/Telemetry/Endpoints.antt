-- ===== src/Telemetry/Endpoints.antt =====
-- The CoAP end-points of the alerts: atlas_push_alert_cb of src/telemetry/atlas_telemetry_sysinfo.c and of
-- atlas_telemetry_packets_info.c, and atlas_threshold_alert_procs_cb. `strtol` is a parameter: the
-- number, and whether it set errno.
use atlas_client.Prelude.{
  ℕ, ◌-◌, ◌%◌, Bool, ◌&&◌, Option, none, some, List, [], ◌∷◌, ◌==◌, ℤ, pos, negsuc, if◌then◌else◌,
  bytes_eq, codes,
}
use atlas_client.Status.{Status, ok, Response, resp_ok, not_acceptable_here}
use atlas_client.Environment.{Environment, faulted}
use atlas_client.Alert.{Alerts, push_cmd_parse, threshold_cmd_parse}
use atlas_client.World.{World, recorded}
use atlas_client.Telemetry.{push_set, threshold_set}

-- An end-point's path, and the path of its feature.
pub record Alias : Type 0 where
  pub alert : List ℕ
  pub feature : List ℕ

-- The chain of `strcmp`.
unfoldable pub feature_of : List ℕ → List Alias → Option (List ℕ)
feature_of uri [] = none
feature_of uri (a ∷ more) =
    let rest = feature_of uri more in if bytes_eq uri a.alert then some a.feature else rest

abbrev pub sysinfo_alerts : List Alias
sysinfo_alerts =
    record {
      alert = codes "client/telemetry/sysinfo/procs/alerts/push";
      feature = codes "gateway/telemetry/sysinfo/procs";
    }
    ∷ record {
      alert = codes "client/telemetry/sysinfo/uptime/alerts/push";
      feature = codes "gateway/telemetry/sysinfo/uptime";
    }
    ∷ record {
      alert = codes "client/telemetry/sysinfo/freeram/alerts/push";
      feature = codes "gateway/telemetry/sysinfo/freeram";
    }
    ∷ record {
      alert = codes "client/telemetry/sysinfo/sharedram/alerts/push";
      feature = codes "gateway/telemetry/sysinfo/sharedram";
    }
    ∷ record {
      alert = codes "client/telemetry/sysinfo/bufferram/alerts/push";
      feature = codes "gateway/telemetry/sysinfo/bufferram";
    }
    ∷ record {
      alert = codes "client/telemetry/sysinfo/totalswap/alerts/push";
      feature = codes "gateway/telemetry/sysinfo/totalswap";
    }
    ∷ record {
      alert = codes "client/telemetry/sysinfo/freeswap/alerts/push";
      feature = codes "gateway/telemetry/sysinfo/freeswap";
    }
    ∷ record {
      alert = codes "client/telemetry/sysinfo/load1/alerts/push";
      feature = codes "gateway/telemetry/sysinfo/load1";
    }
    ∷ record {
      alert = codes "client/telemetry/sysinfo/load5/alerts/push";
      feature = codes "gateway/telemetry/sysinfo/load5";
    }
    ∷ record {
      alert = codes "client/telemetry/sysinfo/load15/alerts/push";
      feature = codes "gateway/telemetry/sysinfo/load15";
    }
    ∷ []

abbrev pub packets_alerts : List Alias
packets_alerts =
    record {
      alert = codes "client/telemetry/packets_info/packets_per_min/alerts/push";
      feature = codes "gateway/telemetry/packets_per_minute";
    }
    ∷ record {
      alert = codes "client/telemetry/packets_info/packets_avg/alerts/push";
      feature = codes "gateway/telemetry/packets_avg";
    }
    ∷ []

-- The low 16 bits of a long.
unfoldable pub low_word : ℤ → ℕ
low_word (pos n) = n % 65536
low_word (negsuc n) = 65535 - n % 65536

module _ (env : Environment) where
  -- With what the parser returned. It returns ATLAS_OK only with a rate.
  unfoldable pub push_answer :
      Option (List ℕ) → Option (Status × Option ℕ) → World → Response × World
  push_answer path none w = (resp_ok, recorded faulted w)
  push_answer path (some (ok, none)) w = (resp_ok, recorded faulted w)
  push_answer path (some (ok, some rate)) w = (resp_ok, push_set env path rate w)
  push_answer path (some (_, rate)) w = (not_acceptable_here, w)

  -- The alert handlers of both files, with their own aliases.
  unfoldable pub push_alert_cb : List Alias → List ℕ → List ℕ → World → Response × World
  push_alert_cb aliases uri payload w =
      push_answer (feature_of uri aliases) (push_cmd_parse payload) w

  -- The variable is set before errno is looked at; as a uint16_t it is neither LONG_MAX nor LONG_MIN.
  unfoldable pub threshold_stored : ℤ × Bool → Option ℕ → World → Response × World
  threshold_stored (value, err) none w = (resp_ok, recorded faulted w)
  threshold_stored (value, err) (some rate) w =
      let w' = record w { procs_threshold = low_word value } in
      if err && low_word value == 0
      then (not_acceptable_here, w')
      else (resp_ok, threshold_set env (some (codes "gateway/telemetry/sysinfo/procs")) rate w')

  -- With the threshold's text; `strtol` of a null pointer is a fault.
  unfoldable pub threshold_checked :
      (List ℕ → ℤ × Bool) → Option (List ℕ) → Option ℕ → World → Response × World
  threshold_checked strtol none rate w = (resp_ok, recorded faulted w)
  threshold_checked strtol (some text) rate w = threshold_stored (strtol text) rate w

  unfoldable pub threshold_answer :
      (List ℕ → ℤ × Bool) → Option (Status × Alerts) → World → Response × World
  threshold_answer strtol none w = (resp_ok, recorded faulted w)
  threshold_answer strtol (some (ok, a)) w = threshold_checked strtol a.threshold a.scan_rate w
  threshold_answer strtol (some (_, a)) w = (not_acceptable_here, w)

  unfoldable pub threshold_alert_cb : (List ℕ → ℤ × Bool) → List ℕ → World → Response × World
  threshold_alert_cb strtol payload w = threshold_answer strtol (threshold_cmd_parse payload) w
