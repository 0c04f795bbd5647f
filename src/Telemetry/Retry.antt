-- ===== src/Telemetry/Retry.antt =====
-- Which feature is sent, and when.
use atlas_client.Prelude.{
  ℕ, ◌≡◌, refl, ap, ◌∙◌, Bool, true, false, Option, none, some, List, [], ◌∷◌, arith, ℤ,
}
use atlas_client.Status.{Response, timeout}
use atlas_client.Environment.{Environment}
use atlas_client.World.{Feature, World}
use atlas_client.Telemetry.{
  push, push_found, push_each, push_all, push_alert_alarm_cb, threshold_alert_alarm_cb,
  handle_response,
}

push-silent :
    (env : Environment) (f : Feature) (use_threshold : Bool) (w : World)
    → w.registered ≡ false
    → push env f use_threshold w ≡ w
unfolding push
push-silent env f use_threshold w out = ground (arith, out)

push_found-silent :
    (env : Environment) (f : Option Feature) (use_threshold : Bool) (w : World)
    → w.registered ≡ false
    → push_found env f use_threshold w ≡ w
unfolding push_found
push_found-silent env none use_threshold w out = refl
push_found-silent env (some f) use_threshold w out = push-silent env f use_threshold w out

push_each-silent :
    (env : Environment) (fs : List Feature) (w : World)
    → w.registered ≡ false
    → push_each env fs w ≡ w
unfolding push_each
push_each-silent env [] w out = refl
push_each-silent env (f ∷ fs) w out =
    ap (λ v. push_each env fs v) (push-silent env f false w out) ∙ push_each-silent env fs w out

-- A client that is not registered sends no telemetry: neither all features, nor at an alarm, nor after a
-- response.
pub telemetry_silent :
    (env : Environment) (w : World) (id : ℤ) (uri : List ℕ) (response : Response)
    → w.registered ≡ false
    → (push_all env w ≡ w)
      × (push_alert_alarm_cb env id w ≡ w)
      × (threshold_alert_alarm_cb env id w ≡ w)
      × (handle_response env uri response w ≡ w)
unfolding push_all push_alert_alarm_cb threshold_alert_alarm_cb handle_response
telemetry_silent env w id uri timeout out = (
  push_each-silent env w.features w out,
  push_found-silent env _ false w out,
  push_found-silent env _ true w out,
  push_found-silent env _ false w out,
)
telemetry_silent env w id uri _ out = (
  push_each-silent env w.features w out,
  push_found-silent env _ false w out,
  push_found-silent env _ true w out,
  refl,
)
