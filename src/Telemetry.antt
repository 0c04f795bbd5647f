-- ===== src/Telemetry.antt =====
-- The telemetry features: src/telemetry/atlas_telemetry.h and atlas_telemetry.c. A payload function does
-- not change the list of features, and neither does a request.
pub mod Payload
pub mod Endpoints
pub mod Answers
pub mod Requests
pub mod Features
pub mod Keeps
pub mod Retry
mod Examples
pub mod Schedule
use atlas_client.Prelude.{
  ℕ, Bool, true, false, Option, none, some, List, [], ◌∷◌, ◌++◌, ℤ, minus_one, is_neg, ◌*◌, ◌==◌,
  ◌==ℤ◌, if◌then◌else◌, bytes_eq, has_part,
}
use atlas_client.Status.{put, Response, resp_ok, timeout}
use atlas_client.Callbacks.{
  AlarmCallback, push_alert_alarm, threshold_alert_alarm, telemetry_callback, PayloadCallback,
}
use atlas_client.Environment.{Environment}
use atlas_client.Alarm.{Timers, alarm_set, alarm_cancel}
use atlas_client.World.{Feature, World, set_timers, request}
use atlas_client.Telemetry.Payload.{payload}

-- `none` is a null pointer.
unfoldable pub add : Option (List ℕ) → Option PayloadCallback → World → World
add none cb w = w
add (some uri_path) none w = w
add (some uri_path) (some cb) w = record w {
  features =
      w.features
      ++ record {
        uri_path = uri_path;
        payload_cb = cb;
        push_id = minus_one;
        threshold_id = minus_one;
      }
        ∷ [];
}

-- Without the first feature of the path.
unfoldable pub remove : List ℕ → List Feature → List Feature
remove uri_path [] = []
remove uri_path (f ∷ fs) =
    let rest = remove uri_path fs in if bytes_eq f.uri_path uri_path then fs else f ∷ rest

unfoldable pub del : Option (List ℕ) → World → World
unfolding remove
del none w = w
del (some uri_path) w = record w { features = remove uri_path w.features }

-- The loops that look for a feature end at the first one.
unfoldable pub first_feature : (Feature → Bool) → List Feature → Option Feature
first_feature test [] = none
first_feature test (f ∷ fs) = let rest = first_feature test fs in if test f then some f else rest

-- The first feature that passes the test, changed.
unfoldable pub change_first : (Feature → Bool) → (Feature → Feature) → List Feature → List Feature
change_first test change [] = []
change_first test change (f ∷ fs) =
    let rest = change_first test change fs in if test f then change f ∷ fs else f ∷ rest

-- The alarm of a number that is not negative is canceled.
unfoldable pub cancel_set : ℤ → Timers → Timers
cancel_set id t = if is_neg id then t else alarm_cancel id t

module _ (env : Environment) where
  -- With the payload; nothing is sent where it is empty.
  unfoldable pub push_payload : Feature → List ℕ × World → World
  push_payload feature ([], w) = w
  push_payload feature (b ∷ bs, w) =
      request env feature.uri_path put (b ∷ bs) 40000 telemetry_callback w

  unfoldable pub push : Feature → Bool → World → World
  push feature use_threshold w =
      if w.registered
      then push_payload feature (payload env feature.payload_cb use_threshold w)
      else w

  unfoldable pub push_found : Option Feature → Bool → World → World
  push_found none use_threshold w = w
  push_found (some feature) use_threshold w = push feature use_threshold w

  unfoldable pub push_alert_alarm_cb : ℤ → World → World
  push_alert_alarm_cb id w = push_found (first_feature (λ f. f.push_id ==ℤ id) w.features) false w

  unfoldable pub threshold_alert_alarm_cb : ℤ → World → World
  threshold_alert_alarm_cb id w =
      push_found (first_feature (λ f. f.threshold_id ==ℤ id) w.features) true w

  -- Only a request that timed out is sent again.
  unfoldable pub handle_response : List ℕ → Response → World → World
  handle_response uri timeout w =
      push_found (first_feature (λ f. has_part f.uri_path uri) w.features) false w
  handle_response uri _ w = w

  unfoldable pub push_each : List Feature → World → World
  push_each [] w = w
  push_each (f ∷ fs) w = push_each fs (push f false w)

  unfoldable pub push_all : World → World
  unfolding push_each
  push_all w = push_each w.features w

  -- The feature's new alarm, in place of the one that it has.
  unfoldable pub schedule_push : List ℕ → ℕ → Option Feature → World → World
  schedule_push uri_path rate none w = w
  schedule_push uri_path rate (some f) w =
      let (id, t) =
        alarm_set env (rate * 1000) push_alert_alarm false (cancel_set f.push_id w.client.timers) in
      record (set_timers t w) {
        features =
            change_first (λ g. bytes_eq g.uri_path uri_path) (λ g. record g { push_id = id })
              w.features;
      }

  unfoldable pub push_set : Option (List ℕ) → ℕ → World → World
  push_set none rate w = w
  push_set (some uri_path) rate w =
      let found = first_feature (λ f. bytes_eq f.uri_path uri_path) w.features in
      if rate == 0 then push_found found false w else schedule_push uri_path rate found w

  unfoldable pub schedule_scan : List ℕ → ℕ → Option Feature → World → World
  schedule_scan uri_path rate none w = w
  schedule_scan uri_path rate (some f) w =
      let (id, t) =
        alarm_set env (rate * 1000) threshold_alert_alarm false
          (cancel_set f.threshold_id w.client.timers) in
      record (set_timers t w) {
        features =
            change_first (λ g. bytes_eq g.uri_path uri_path) (λ g. record g { threshold_id = id })
              w.features;
      }

  unfoldable pub threshold_set : Option (List ℕ) → ℕ → World → World
  threshold_set none rate w = w
  threshold_set (some uri_path) rate w =
      let found = first_feature (λ f. bytes_eq f.uri_path uri_path) w.features in
      if rate == 0 then w else schedule_scan uri_path rate found w
