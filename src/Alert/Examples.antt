-- ===== src/Alert/Examples.antt =====
-- The alert parsers on requests of one and two commands.
use atlas_client.Prelude.{ℕ, ◌≡◌, ◌⊎◌, refl, none, some, List, [], ◌∷◌, arith}
use atlas_client.Status.{ok, corrupted_command}
use atlas_client.Commands.{Cmd, set_raw, get, view, walk, read_accepted, read_all}
use atlas_client.Commands.Wire.{encode}
use atlas_client.Alert.{
  first_rate, push_found, push_cmd_parse, Alerts, no_alerts, store_alerts, check_alerts,
  threshold_cmd_parse,
}
use atlas_client.Alert.Parse.{push_cmd_parse_total, threshold_cmd_parse_total, threshold_missing}

abbrev push_raw : List ℕ
push_raw = 2 ∷ 1 ∷ 0 ∷ 2 ∷ 0 ∷ 60 ∷ []

abbrev scan_only : List Cmd
scan_only = record { type = 514; value = 0 ∷ 10 ∷ [] } ∷ []

push_sixty : push_cmd_parse push_raw ≡ some (ok, some 60)
unfolding push_cmd_parse read_all read_accepted walk get view set_raw
push_sixty = refl

push_cmd_parse_total_test :
    ((cs : List Cmd) × (push_raw ≡ encode cs)
      × (push_cmd_parse push_raw ≡ some (push_found (first_rate cs))))
    ⊎ (push_cmd_parse push_raw ≡ some (corrupted_command, none))
push_cmd_parse_total_test = push_cmd_parse_total push_raw (omega arith) (λ e. cc)

threshold_cmd_parse_total_test :
    ((cs : List Cmd) × (push_raw ≡ encode cs)
      × (threshold_cmd_parse push_raw ≡ some (check_alerts (store_alerts cs no_alerts))))
    ⊎ (threshold_cmd_parse push_raw ≡ some (corrupted_command, no_alerts))
threshold_cmd_parse_total_test = threshold_cmd_parse_total push_raw (omega arith) (λ e. cc)

threshold_missing_test :
    (a : Alerts) × (threshold_cmd_parse (encode scan_only) ≡ some (ok, a)) × (a.threshold ≡ none)
threshold_missing_test =
    threshold_missing scan_only (λ e. cc) (omega arith) (refl, tt) (unfold store_alerts in λ e. cc)
