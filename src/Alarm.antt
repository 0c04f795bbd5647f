-- ===== src/Alarm.antt =====
-- Alarms on timer descriptors: src/alarm/atlas_alarm.h and atlas_alarm.c. `Timers` is the list of
-- alarms, the scheduler's list, and the calls made so far.
pub mod Cases
pub mod Period
pub mod Cancel
pub mod Watched
mod Examples
use atlas_client.Prelude.{
  ℕ, ◌*◌, ◌/◌, ◌%◌, Bool, true, false, Option, none, some, List, [], ◌∷◌, ◌++◌, ℤ, minus_one,
  is_neg, ◌==ℤ◌, if◌then◌else◌,
}
use atlas_client.Callbacks.{SchedCallback, alarm_trigger, AlarmCallback}
use atlas_client.Environment.{
  TimerSpec, Call, timer_created, timer_armed, closed, History, Environment,
}
use atlas_client.Scheduler.{Entry, add_entry, del_entry}

pub record AlarmEntry : Type 0 where
  pub alarm_id : ℤ
  pub callback : AlarmCallback
  pub run_once : Bool

pub record Timers : Type 0 where
  pub history : History
  pub sched : List (Entry SchedCallback)
  pub alarms : List AlarmEntry

-- A call is made.
abbrev pub called : Call → Timers → Timers
called c t = record t { history = c ∷ t.history }

-- The expiry after `ms` milliseconds, and the interval if the alarm repeats.
unfoldable pub time_spec : ℕ → Bool → TimerSpec
time_spec ms run_once = record {
  interval_sec = if run_once then 0 else ms / 1000;
  interval_nsec = if run_once then 0 else ms % 1000 * 1000000;
  value_sec = ms / 1000;
  value_nsec = ms % 1000 * 1000000;
}

module _ (env : Environment) where
  -- The descriptor `fd` was created.
  unfoldable pub arm : ℕ → AlarmCallback → Bool → ℤ → Timers → ℤ × Timers
  arm ms cb run_once fd t =
      let res = env.timerfd_settime t.history in
      let armed = called (timer_armed fd (time_spec ms run_once)) t in
      if is_neg res then (minus_one, called (closed fd) armed) else (
        fd,
        record armed {
          sched = add_entry fd (some alarm_trigger) t.sched;
          alarms = t.alarms ++ record { alarm_id = fd; callback = cb; run_once = run_once } ∷ [];
        },
      )

  -- The alarm's id, or -1.
  unfoldable pub alarm_set : ℕ → AlarmCallback → Bool → Timers → ℤ × Timers
  unfolding arm
  alarm_set ms cb run_once t =
      let fd = env.timerfd_create t.history in
      let created = called (timer_created fd) t in
      if fd ==ℤ minus_one then (minus_one, created) else arm ms cb run_once fd created

-- The first alarm of the id.
unfoldable pub find_alarm : ℤ → List AlarmEntry → Option AlarmEntry
find_alarm id [] = none
find_alarm id (p ∷ ps) = if p.alarm_id ==ℤ id then some p else find_alarm id ps

unfoldable pub remove_alarm : ℤ → List AlarmEntry → List AlarmEntry
remove_alarm id [] = []
remove_alarm id (p ∷ ps) = if p.alarm_id ==ℤ id then ps else p ∷ remove_alarm id ps

unfoldable pub alarm_cancel : ℤ → Timers → Timers
alarm_cancel id t = elim (find_alarm id t.alarms) [
  | none ↦ t
  | some p ↦ record {
    history = closed id ∷ t.history;
    sched = del_entry id t.sched;
    alarms = remove_alarm id t.alarms;
  }
]
