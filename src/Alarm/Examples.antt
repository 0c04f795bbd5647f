-- ===== src/Alarm/Examples.antt =====
-- Tests of alarms, in an environment whose timers get descriptor 7 and arm without an error.
use atlas_client.Prelude.{◌+◌, ◌*◌, ◌<◌, ◌≡◌, refl, true, false, some, [], ◌∷◌, pos, arith}
use atlas_client.Callbacks.{keepalive_alarm, request_alarm}
use atlas_client.Environment.{closed}
use atlas_client.Environment.Samples.{steady}
use atlas_client.Alarm.{Timers, time_spec, find_alarm, alarm_set, alarm_cancel}
use atlas_client.Alarm.Cases.{alarm}
use atlas_client.Alarm.Period.{time_spec_lem}
use atlas_client.Alarm.Watched.{IsWatched, alarm_set-IsWatched, alarm_cancel-IsWatched}
use atlas_client.Alarm.Cancel.{alarm_cancel-set}

abbrev idle : Timers
idle = record { history = []; sched = []; alarms = [] }

idle-IsWatched : IsWatched idle
idle-IsWatched = record { one_entry = λ n. omega arith; exact = λ n. refl }

time_spec_lem_test :
    let spec = time_spec 1500 true in
    (spec.value_sec * 1000000000 + spec.value_nsec ≡ 1500 * 1000000)
    × (spec.value_nsec < 1000000000)
    × (true ≡ false → spec.interval_sec * 1000000000 + spec.interval_nsec ≡ 1500 * 1000000)
    × (true ≡ true → spec.interval_sec * 1000000000 + spec.interval_nsec ≡ 0)
time_spec_lem_test = time_spec_lem 1500 true

alarm_set-IsWatched_example : IsWatched (alarm_set steady 20000 keepalive_alarm false idle).1
alarm_set-IsWatched_example =
    alarm_set-IsWatched {t = idle} idle-IsWatched steady 20000 keepalive_alarm false (λ n e. refl)

alarm_cancel-IsWatched_example :
    IsWatched (alarm_cancel (pos 7) (alarm_set steady 20000 keepalive_alarm false idle).1)
alarm_cancel-IsWatched_example =
    alarm_cancel-IsWatched {t = (alarm_set steady 20000 keepalive_alarm false idle).1}
      (alarm_set-IsWatched {t = idle} idle-IsWatched steady 20000 keepalive_alarm false
        (λ n e. refl))
      7

alarm_cancel-set_example :
    let set = (alarm_set steady 5000 request_alarm true idle).1 in
    (find_alarm (pos 7) set.alarms ≡ some (alarm (pos 7) request_alarm true))
    × ((alarm_cancel (pos 7) set).alarms ≡ [])
    × ((alarm_cancel (pos 7) set).history ≡ closed (pos 7) ∷ set.history)
unfolding alarm_set
alarm_cancel-set_example =
    alarm_cancel-set steady 5000 request_alarm true idle refl (unfold find_alarm in refl)
