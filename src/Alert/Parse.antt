-- ===== src/Alert/Parse.antt =====
-- What the alert parsers accept, for any bytes.
use atlas_client.Prelude.{
  ℕ, ◌≡◌, ◌≢◌, ◌⊎◌, inl, inr, refl, ap, ◌∙◌, none, some, List, [], ◌∷◌, arith, All, ◌==◌, false,
}
use atlas_client.Status.{Status, ok, corrupted_command}
use atlas_client.Commands.{Cmd}
use atlas_client.Commands.Types
use atlas_client.Commands.Wire.{encode, IsByte, IsCmd}
use atlas_client.Commands.Iterate.{read_all-encode, read_all_total}
use atlas_client.Alert.{
  first_rate, push_found, push_parsed, push_cmd_parse, Alerts, no_alerts, store_alert, store_alerts,
  check_alerts, threshold_parsed, threshold_cmd_parse,
}

push_parsed_err :
    (status : Status)
    → status ≢ ok
    → push_parsed (some (status, [])) ≡ some (corrupted_command, none)
unfolding push_parsed
push_parsed_err ok h = absurd (h refl)
push_parsed_err _ h = refl

threshold_parsed_err :
    (status : Status)
    → status ≢ ok
    → threshold_parsed (some (status, [])) ≡ some (corrupted_command, no_alerts)
unfolding threshold_parsed
threshold_parsed_err ok h = absurd (h refl)
threshold_parsed_err _ h = refl

-- Whatever bytes a push request brings, its parser reads only inside them. It refuses what is not the
-- encoding of a list of commands, and otherwise stores the first two-byte push rate, or refuses the
-- request if there is none.
pub push_cmd_parse_total :
    (raw : List ℕ)
    → All IsByte raw
    → raw ≢ []
    → ((cs : List Cmd) × (raw ≡ encode cs)
        × (push_cmd_parse raw ≡ some (push_found (first_rate cs))))
      ⊎ (push_cmd_parse raw ≡ some (corrupted_command, none))
unfolding push_cmd_parse
push_cmd_parse_total [] bytes nonempty = absurd (nonempty refl)
push_cmd_parse_total (b ∷ bs) bytes nonempty = elim (read_all_total (b ∷ bs) bytes) [
  | inl (cs, e, read) ↦ inl (cs, e, rw read)
  | inr (status, bad, read) ↦ inr (rw read (push_parsed_err status bad))
]

-- The same of a threshold request: for an encoding its parser stores what the commands say, one after
-- another, and refuses the request if none has set a scan rate.
pub threshold_cmd_parse_total :
    (raw : List ℕ)
    → All IsByte raw
    → raw ≢ []
    → ((cs : List Cmd) × (raw ≡ encode cs)
        × (threshold_cmd_parse raw ≡ some (check_alerts (store_alerts cs no_alerts))))
      ⊎ (threshold_cmd_parse raw ≡ some (corrupted_command, no_alerts))
unfolding threshold_cmd_parse
threshold_cmd_parse_total [] bytes nonempty = absurd (nonempty refl)
threshold_cmd_parse_total (b ∷ bs) bytes nonempty = elim (read_all_total (b ∷ bs) bytes) [
  | inl (cs, e, read) ↦ inl (cs, e, rw read)
  | inr (status, bad, read) ↦ inr (rw read (threshold_parsed_err status bad))
]

-- No command of the list is a threshold.
abbrev pub NoThreshold : Cmd → Type 0
NoThreshold c = (c.type == Types.telemetry_alert_threshold) ≡ false

store_alert-threshold :
    (c : Cmd) (a : Alerts) → NoThreshold c → (store_alert c a).threshold ≡ a.threshold
unfolding store_alert
store_alert-threshold c a h = ground arith

store_alerts-threshold :
    (cs : List Cmd) (a : Alerts) → All NoThreshold cs → (store_alerts cs a).threshold ≡ a.threshold
unfolding store_alerts
store_alerts-threshold [] a h = refl
store_alerts-threshold (c ∷ cs) a h =
    store_alerts-threshold cs (store_alert c a) h.1 ∙ store_alert-threshold c a h.0

check_alerts-ok : (a : Alerts) → a.scan_rate ≢ none → check_alerts a ≡ (ok, a)
unfolding check_alerts
check_alerts-ok a h = ground arith

threshold_cmd_parse-encode :
    (cs : List Cmd)
    → cs ≢ []
    → All IsCmd cs
    → threshold_cmd_parse (encode cs) ≡ some (check_alerts (store_alerts cs no_alerts))
unfolding threshold_cmd_parse
threshold_cmd_parse-encode [] nonempty good = absurd (nonempty refl)
threshold_cmd_parse-encode (c ∷ cs) nonempty good = rw (read_all-encode (c ∷ cs) nonempty good)

-- A request with a scan rate and without any threshold is accepted, and no threshold is stored.
pub threshold_missing :
    (cs : List Cmd)
    → cs ≢ []
    → All IsCmd cs
    → All NoThreshold cs
    → (store_alerts cs no_alerts).scan_rate ≢ none
    → (a : Alerts) × (threshold_cmd_parse (encode cs) ≡ some (ok, a)) × (a.threshold ≡ none)
threshold_missing cs nonempty good bare scan = (
  store_alerts cs no_alerts,
  threshold_cmd_parse-encode cs nonempty good
      ∙ ap (λ (r : Status × Alerts). some r) (check_alerts-ok (store_alerts cs no_alerts) scan),
  store_alerts-threshold cs no_alerts bare,
)
