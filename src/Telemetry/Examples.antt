-- ===== src/Telemetry/Examples.antt =====
-- Tests of the telemetry features.
use atlas_client.Prelude.{
  true, inl, All, ◌≢◌, Bool, ℤ, ℕ, ◌≡◌, refl, some, List, [], ◌∷◌, arith, codes, pos, has_part,
}
use atlas_client.Status.{resp_ok, not_acceptable_here, ok, timeout}
use atlas_client.Commands.{Cmd, read_all}
use atlas_client.Commands.Wire.{encode}
use atlas_client.Commands.Types
use atlas_client.Environment.Samples.{online, steady}
use atlas_client.Config.{get_uri}
use atlas_client.World.Samples.{fresh, load1, load15}
use atlas_client.World.Batches.{text_payload_lem}
use atlas_client.Telemetry.Payload.{text_payload}
use atlas_client.Telemetry.{
  first_feature, push_all, push_set, push_alert_alarm_cb, threshold_alert_alarm_cb, handle_response,
}
use atlas_client.Telemetry.Endpoints.{Alias, sysinfo_alerts, packets_alerts, push_alert_cb}
use atlas_client.Telemetry.Requests.{
  sysinfo_names, sysinfo_alert, sysinfo_feature, packets_alert, rate_request, push_alert_cb_total,
}
use atlas_client.Alert.{Alerts}
use atlas_client.Telemetry.Retry.{telemetry_silent}

-- The feature of load15 timed out, and the feature of load1 is what is found for it.
load15_found :
    first_feature (λ f. has_part f.uri_path (get_uri fresh.config load15.uri_path)) fresh.features
    ≡ some load1
unfolding first_feature get_uri
load15_found = refl

telemetry_silent_test :
    (push_all online fresh ≡ fresh)
    × (push_alert_alarm_cb online (pos 7) fresh ≡ fresh)
    × (threshold_alert_alarm_cb online (pos 7) fresh ≡ fresh)
    × (handle_response online (codes "a") timeout fresh ≡ fresh)
telemetry_silent_test = telemetry_silent online fresh (pos 7) (codes "a") timeout refl

text_payload_lem_test :
    (raw : List ℕ) × (text_payload Types.telemetry_hostname (codes "pi") fresh ≡ (raw, fresh))
    × (read_all raw
        ≡ some (
          ok,
          record { type = Types.identity; value = codes "device" }
              ∷ record { type = Types.telemetry_hostname; value = codes "pi" }
              ∷ [],
        ))
text_payload_lem_test =
    text_payload_lem Types.telemetry_hostname (codes "pi") fresh (omega arith) (omega arith)
      (omega arith) (omega arith) (omega arith)

abbrev load1_alert : List ℕ
load1_alert = codes "client/telemetry/sysinfo/load1/alerts/push"

-- A command of another type before a rate of one minute.
abbrev other : List Cmd
other = record { type = 7; value = 1 ∷ [] } ∷ []

-- No command fits one byte.
one_byte-encode : (b : ℕ) (cs : List Cmd) → cs ≢ [] → b ∷ [] ≢ encode cs
one_byte-encode b [] nonempty e = nonempty refl
one_byte-encode b (c ∷ cs) nonempty e = cc

push_alert_cb_total_example :
    All
      (λ name.
        push_alert_cb steady sysinfo_alerts
          (sysinfo_alert name)
          (rate_request steady other 60 [])
          fresh
        ≡ (resp_ok, push_set steady (some (sysinfo_feature name)) 60 fresh))
      sysinfo_names
    × (push_alert_cb steady packets_alerts
          (packets_alert (codes "packets_per_min"))
          (rate_request steady other 60 [])
          fresh
        ≡ (resp_ok, push_set steady (some (codes "gateway/telemetry/packets_per_minute")) 60 fresh))
    × (push_alert_cb steady packets_alerts
          (packets_alert (codes "packets_avg"))
          (rate_request steady other 60 [])
          fresh
        ≡ (resp_ok, push_set steady (some (codes "gateway/telemetry/packets_avg")) 60 fresh))
    × ((aliases : List Alias) (uri : List ℕ)
        → push_alert_cb steady aliases uri (9 ∷ []) fresh ≡ (not_acceptable_here, fresh))
push_alert_cb_total_example =
    push_alert_cb_total steady other [] 60 (9 ∷ []) fresh (inl refl, tt) (omega arith) (omega arith)
      (omega arith) (λ cs nonempty good e. absurd (one_byte-encode 9 cs nonempty e))

-- A scan rate of ten seconds, and a threshold of one digit.
abbrev threshold_raw : List ℕ
threshold_raw = 2 ∷ 2 ∷ 0 ∷ 2 ∷ 0 ∷ 10 ∷ 2 ∷ 3 ∷ 0 ∷ 1 ∷ 57 ∷ []

abbrev alerts : Alerts
alerts = record { scan_rate = some 10; threshold = some (57 ∷ []) }

-- The greatest long, with errno set.
abbrev overflowing : List ℕ → ℤ × Bool
overflowing text = (pos 9223372036854775807, true)
