-- ===== src/Telemetry/Answers.antt =====
-- What the alert end-points answer, and that they keep the registration and the balance.
use atlas_client.Prelude.{
  if◌then◌else◌, ℕ, refl, Bool, true, false, Option, none, some, List, ℤ, ◌==◌, ◌&&◌, arith,
}
use atlas_client.Status.{Status, ok, Response, resp_ok, not_acceptable_here}
use atlas_client.Environment.{Environment, faulted}
use atlas_client.Alert.{push_cmd_parse, Alerts}
use atlas_client.World.{World, recorded}
use atlas_client.World.Keeps.{Keeps, Keeps-same, Keeps-then}
use atlas_client.Telemetry.Schedule.{push_set-Keeps, threshold_set-Keeps}
use atlas_client.Telemetry.Endpoints.{
  Alias, low_word, push_answer, push_alert_cb, threshold_stored, threshold_checked,
  threshold_answer, threshold_alert_cb,
}

module _ (env : Environment) where
  -- A choice between answers.
  if-answer :
      (b : Bool) {w u v : World} (q r : Response)
      → Keeps w u
      → Keeps w v
      → Keeps w (let answer : Response × World = if b then (q, u) else (r, v) in answer.1)
  if-answer true q r h k = h
  if-answer false q r h k = k

  recorded-faulted : (w : World) → Keeps w (recorded faulted w)
  recorded-faulted w = record {
    registered = refl;
    ka_count = refl;
    ka_token = refl;
    balance = λ b weight. omega (arith, b weight);
  }

  push_answer-Keeps :
      (path : Option (List ℕ)) (r : Option (Status × Option ℕ)) (w : World)
      → Keeps w (push_answer env path r w).1
  unfolding push_answer
  push_answer-Keeps path none w = recorded-faulted w
  push_answer-Keeps path (some (ok, none)) w = recorded-faulted w
  push_answer-Keeps path (some (ok, some rate)) w = push_set-Keeps env path rate w
  push_answer-Keeps path (some (_, rate)) w = Keeps-same w

  pub push_alert_cb-Keeps :
      (aliases : List Alias) (uri raw : List ℕ) (w : World)
      → Keeps w (push_alert_cb env aliases uri raw w).1
  unfolding push_alert_cb
  push_alert_cb-Keeps aliases uri raw w = push_answer-Keeps _ (push_cmd_parse raw) w

  threshold_stored-Keeps :
      (value : ℤ) (err : Bool) (rate : Option ℕ) (w : World)
      → Keeps w (threshold_stored env (value, err) rate w).1
  unfolding threshold_stored
  threshold_stored-Keeps value err none w = recorded-faulted w
  threshold_stored-Keeps value err (some rate) w =
      let stored : Keeps w (record w { procs_threshold = low_word value }) = record {
        registered = refl;
        ka_count = refl;
        ka_token = refl;
        balance = λ b. b;
      } in
      if-answer (err && low_word value == 0) not_acceptable_here resp_ok stored
        (Keeps-then stored (threshold_set-Keeps env _ rate _))

  threshold_checked-Keeps :
      (strtol : List ℕ → ℤ × Bool) (text : Option (List ℕ)) (rate : Option ℕ) (w : World)
      → Keeps w (threshold_checked env strtol text rate w).1
  unfolding threshold_checked
  threshold_checked-Keeps strtol none rate w = recorded-faulted w
  threshold_checked-Keeps strtol (some text) rate w = threshold_stored-Keeps _ _ rate w

  threshold_answer-Keeps :
      (strtol : List ℕ → ℤ × Bool) (r : Option (Status × Alerts)) (w : World)
      → Keeps w (threshold_answer env strtol r w).1
  unfolding threshold_answer
  threshold_answer-Keeps strtol none w = recorded-faulted w
  threshold_answer-Keeps strtol (some (ok, a)) w =
      threshold_checked-Keeps strtol a.threshold a.scan_rate w
  threshold_answer-Keeps strtol (some (_, a)) w = Keeps-same w

  pub threshold_alert_cb-Keeps :
      (strtol : List ℕ → ℤ × Bool) (raw : List ℕ) (w : World)
      → Keeps w (threshold_alert_cb env strtol raw w).1
  unfolding threshold_alert_cb
  threshold_alert_cb-Keeps strtol raw w = threshold_answer-Keeps strtol _ w
