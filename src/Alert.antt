-- ===== src/Alert.antt =====
-- The parsers of alert requests: src/telemetry/atlas_alert_utils.h and atlas_alert_utils.c. The null
-- buffer is the empty one; the other pointers that the callers pass are not null. A fault is `none`.
pub mod Parse
mod Examples
use atlas_client.Prelude.{
  ℕ, Bool, true, false, ◌&&◌, Option, none, some, List, [], ◌∷◌, ◌==◌, length, if◌then◌else◌,
}
use atlas_client.Status.{Status, ok, invalid_input, corrupted_command}
use atlas_client.Commands.{Cmd, ntohs, read_all}
use atlas_client.Commands.Types

-- A two-byte value, in network order.
unfoldable pub word_of : List ℕ → Option ℕ
word_of (high ∷ low ∷ []) = some (ntohs high low)
word_of _ = none

-- The rate of a command of the type that has two bytes.
unfoldable pub rate_of : ℕ → Cmd → Option ℕ
unfolding word_of
rate_of type cmd = if cmd.type == type then word_of cmd.value else none

-- The loop of `push_cmd_parse`, which breaks at the first rate.
unfoldable pub first_rate : List Cmd → Option ℕ
unfolding rate_of
first_rate [] = none
first_rate (cmd ∷ cmds) =
    let rest = first_rate cmds in
    elim (rate_of Types.telemetry_alert_ext_push_rate cmd) [ none ↦ rest | some rate ↦ some rate ]

unfoldable pub push_found : Option ℕ → Status × Option ℕ
push_found none = (corrupted_command, none)
push_found (some rate) = (ok, some rate)

unfoldable pub push_parsed : Option (Status × List Cmd) → Option (Status × Option ℕ)
unfolding push_found first_rate
push_parsed none = none
push_parsed (some (ok, cmds)) = some (push_found (first_rate cmds))
push_parsed (some (_, cmds)) = some (corrupted_command, none)

-- The status, and the rate that was stored, if one was.
unfoldable pub push_cmd_parse : List ℕ → Option (Status × Option ℕ)
unfolding push_parsed
push_cmd_parse [] = some (invalid_input, none)
push_cmd_parse (b ∷ bs) = push_parsed (read_all (b ∷ bs))

-- What the loop of `threshold_cmd_parse` has stored: the scan rate and the threshold's text.
pub record Alerts : Type 0 where
  pub scan_rate : Option ℕ
  pub threshold : Option (List ℕ)

abbrev pub no_alerts : Alerts
no_alerts = record { scan_rate = none; threshold = none }

-- One round: a rate of two bytes, or else a threshold of one byte or more.
unfoldable pub store_threshold : Cmd → Alerts → Alerts
store_threshold cmd a = elim cmd.value [
  | [] ↦ a
  | b ∷ bs ↦
      if cmd.type == Types.telemetry_alert_threshold
      then record a { threshold = some cmd.value }
      else a
]

unfoldable pub store_alert : Cmd → Alerts → Alerts
unfolding rate_of store_threshold
store_alert cmd a = elim (rate_of Types.telemetry_alert_int_scan_rate cmd) [
  | some rate ↦ record a { scan_rate = some rate }
  | none ↦ store_threshold cmd a
]

unfoldable pub store_alerts : List Cmd → Alerts → Alerts
unfolding store_alert
store_alerts [] a = a
store_alerts (cmd ∷ cmds) a = store_alerts cmds (store_alert cmd a)

-- The tests behind the loop. The second one, `!threshold`, is about the address of the caller's
-- variable and never holds. On an error the threshold is freed and cleared.
unfoldable pub check_alerts : Alerts → Status × Alerts
check_alerts a = elim a.scan_rate [ none ↦ (corrupted_command, no_alerts) | some rate ↦ (ok, a) ]

unfoldable pub threshold_parsed : Option (Status × List Cmd) → Option (Status × Alerts)
unfolding store_alerts check_alerts
threshold_parsed none = none
threshold_parsed (some (ok, cmds)) = some (check_alerts (store_alerts cmds no_alerts))
threshold_parsed (some (_, cmds)) = some (corrupted_command, no_alerts)

unfoldable pub threshold_cmd_parse : List ℕ → Option (Status × Alerts)
unfolding threshold_parsed
threshold_cmd_parse [] = some (invalid_input, no_alerts)
threshold_cmd_parse (b ∷ bs) = threshold_parsed (read_all (b ∷ bs))
