-- ===== src/Alarm/Period.antt =====
-- The times that an alarm is armed with.
use atlas_client.Prelude.{ℕ, ◌+◌, ◌*◌, ◌<◌, ◌≡◌, Bool, true, false, arith}
use atlas_client.Alarm.{time_spec}

-- An alarm is armed to the exact number of milliseconds, with a part of a second below one second,
-- and with that as its interval if it repeats, with none if it runs once.
pub time_spec_lem :
    (ms : ℕ) (run_once : Bool)
    → let spec = time_spec ms run_once in
      (spec.value_sec * 1000000000 + spec.value_nsec ≡ ms * 1000000)
      × (spec.value_nsec < 1000000000)
      × (run_once ≡ false → spec.interval_sec * 1000000000 + spec.interval_nsec ≡ ms * 1000000)
      × (run_once ≡ true → spec.interval_sec * 1000000000 + spec.interval_nsec ≡ 0)
unfolding time_spec
time_spec_lem ms run_once = ground arith
