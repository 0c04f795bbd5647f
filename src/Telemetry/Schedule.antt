-- ===== src/Telemetry/Schedule.antt =====
-- The rates of a feature, and the alarms that they set, keep the registration and the balance too.
use atlas_client.Prelude.{pos, negsuc, ℕ, ◌*◌, true, false, Option, none, some, List, ℤ, ◌==◌}
use atlas_client.Callbacks.{push_alert_alarm, threshold_alert_alarm}
use atlas_client.Environment.{Environment}
use atlas_client.World.{Feature, World, set_timers}
use atlas_client.World.Keeps.{
  Keeps, Keeps-same, Keeps-if, Keeps-then, alarm_set-Keeps, alarm_cancel-Keeps,
}
use atlas_client.Telemetry.{
  cancel_set, push_alert_alarm_cb, threshold_alert_alarm_cb, schedule_push, push_set, schedule_scan,
  threshold_set,
}
use atlas_client.Telemetry.Keeps.{push_found-Keeps}

cancel_set-Keeps : (id : ℤ) (w : World) → Keeps w (set_timers (cancel_set id w.client.timers) w)
unfolding cancel_set
cancel_set-Keeps (pos n) w = alarm_cancel-Keeps (pos n) w
cancel_set-Keeps (negsuc n) w = Keeps-same w

-- Other features do not change what is kept.
with_features : (fs : List Feature) {u w : World} → Keeps u w → Keeps u (record w { features = fs })
with_features fs h = record {
  registered = h.registered;
  ka_count = h.ka_count;
  ka_token = h.ka_token;
  balance = h.balance;
}

module _ (env : Environment) where
  schedule_push-Keeps :
      (uri_path : List ℕ) (rate : ℕ) (f : Option Feature) (w : World)
      → Keeps w (schedule_push env uri_path rate f w)
  unfolding schedule_push
  schedule_push-Keeps uri_path rate none w = Keeps-same w
  schedule_push-Keeps uri_path rate (some f) w = with_features _ (
      Keeps-then (cancel_set-Keeps f.push_id w)
        (alarm_set-Keeps env (rate * 1000) push_alert_alarm false _))

  schedule_scan-Keeps :
      (uri_path : List ℕ) (rate : ℕ) (f : Option Feature) (w : World)
      → Keeps w (schedule_scan env uri_path rate f w)
  unfolding schedule_scan
  schedule_scan-Keeps uri_path rate none w = Keeps-same w
  schedule_scan-Keeps uri_path rate (some f) w = with_features _ (
      Keeps-then (cancel_set-Keeps f.threshold_id w)
        (alarm_set-Keeps env (rate * 1000) threshold_alert_alarm false _))

  pub push_set-Keeps :
      (uri_path : Option (List ℕ)) (rate : ℕ) (w : World) → Keeps w (push_set env uri_path rate w)
  unfolding push_set
  push_set-Keeps none rate w = Keeps-same w
  push_set-Keeps (some uri_path) rate w =
      Keeps-if (rate == 0) (push_found-Keeps env _ false w) (schedule_push-Keeps uri_path rate _ w)

  pub threshold_set-Keeps :
      (uri_path : Option (List ℕ)) (rate : ℕ) (w : World)
      → Keeps w (threshold_set env uri_path rate w)
  unfolding threshold_set
  threshold_set-Keeps none rate w = Keeps-same w
  threshold_set-Keeps (some uri_path) rate w =
      Keeps-if (rate == 0) (Keeps-same w) (schedule_scan-Keeps uri_path rate _ w)

  pub push_alert_alarm_cb-Keeps : (id : ℤ) (w : World) → Keeps w (push_alert_alarm_cb env id w)
  unfolding push_alert_alarm_cb
  push_alert_alarm_cb-Keeps id w = push_found-Keeps env _ false w

  pub threshold_alert_alarm_cb-Keeps :
      (id : ℤ) (w : World) → Keeps w (threshold_alert_alarm_cb env id w)
  unfolding threshold_alert_alarm_cb
  threshold_alert_alarm_cb-Keeps id w = push_found-Keeps env _ true w
