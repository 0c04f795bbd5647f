-- ===== src/Alarm/Cancel.antt =====
-- Cancelling the alarm that was set last.
use atlas_client.Prelude.{
  ℕ, ◌≡◌, Bool, none, some, false, is_neg, inl, inr, ap, List, [], ◌∷◌, ◌++◌, ℤ, ==ℤ_refl, arith,
}
use atlas_client.Callbacks.{AlarmCallback}
use atlas_client.Environment.{closed, Environment}
use atlas_client.Alarm.{AlarmEntry, Timers, find_alarm, remove_alarm, alarm_set, alarm_cancel}
use atlas_client.Alarm.Cases.{alarm, alarm_set_cases}

module _ (p : AlarmEntry) where
  find_alarm-last :
      (ps : List AlarmEntry)
      → find_alarm p.alarm_id ps ≡ none
      → find_alarm p.alarm_id (ps ++ p ∷ []) ≡ some p
  unfolding find_alarm
  find_alarm-last [] h = rw (==ℤ_refl p.alarm_id)
  find_alarm-last (q ∷ ps) h = ground (arith, find_alarm-last ps)

  remove_alarm-last :
      (ps : List AlarmEntry)
      → find_alarm p.alarm_id ps ≡ none
      → remove_alarm p.alarm_id (ps ++ p ∷ []) ≡ ps
  unfolding find_alarm remove_alarm
  remove_alarm-last [] h = rw (==ℤ_refl p.alarm_id)
  remove_alarm-last (q ∷ ps) h = ground (arith, remove_alarm-last ps)

-- Where `alarm_set` returns a descriptor that no other alarm has, the alarm is found under it behind that
-- call. Cancelling it leaves the alarms that there were before, and closes that descriptor and makes no
-- other call.
pub alarm_cancel-set :
    (env : Environment) (ms : ℕ) (cb : AlarmCallback) (run_once : Bool) (t : Timers)
    → let (fd, set) = alarm_set env ms cb run_once t in
      is_neg fd ≡ false
      → find_alarm fd t.alarms ≡ none
      → (find_alarm fd set.alarms ≡ some (alarm fd cb run_once))
        × ((alarm_cancel fd set).alarms ≡ t.alarms)
        × ((alarm_cancel fd set).history ≡ closed fd ∷ set.history)
unfolding alarm_cancel
alarm_cancel-set env ms cb run_once t fresh unused = elim (alarm_set_cases env ms cb run_once t) [
  | inl (e, _) ↦ absurd (cc (fresh, ap (λ (r : ℤ × Timers). is_neg r.0) e))
  | inr (inl (e, _)) ↦ absurd (cc (fresh, ap (λ (r : ℤ × Timers). is_neg r.0) e))
  | inr (inr (e, _)) ↦
      let p = alarm (env.timerfd_create t.history) cb run_once in
      let absent : find_alarm p.alarm_id t.alarms ≡ none = rw e at unused in
      let found = find_alarm-last p t.alarms absent in
      rw e
        (found, ground (arith, found, remove_alarm-last p t.alarms absent), ground (arith, found))
]
