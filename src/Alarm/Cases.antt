-- ===== src/Alarm/Cases.antt =====
-- The two ways in which `alarm_set` and `alarm_cancel` end.
use atlas_client.Prelude.{
  ℕ, ◌≡◌, ◌≢◌, ◌⊎◌, inl, inr, Bool, true, none, some, [], ◌∷◌, ◌++◌, ℤ, minus_one, is_neg, ◌==ℤ◌,
  ==ℤ_iff, arith, Bool-cases, Option-cases,
}
use atlas_client.Callbacks.{alarm_trigger, AlarmCallback}
use atlas_client.Environment.{closed, timer_created, timer_armed, History, Environment}
use atlas_client.Scheduler.{add_entry, del_entry}
use atlas_client.Alarm.{
  AlarmEntry, Timers, time_spec, alarm_set, find_alarm, remove_alarm, alarm_cancel,
}

abbrev pub alarm : ℤ → AlarmCallback → Bool → AlarmEntry
alarm id cb run_once = record { alarm_id = id; callback = cb; run_once = run_once }

-- The state after an alarm was set on `fd`.
abbrev pub with_alarm : History → ℤ → AlarmCallback → Bool → Timers → Timers
with_alarm history fd cb run_once t = record {
  history = history;
  sched = add_entry fd (some alarm_trigger) t.sched;
  alarms = t.alarms ++ alarm fd cb run_once ∷ [];
}

module _ (env : Environment) (ms : ℕ) (cb : AlarmCallback) (run_once : Bool) (t : Timers) where
  abbrev fd : ℤ
  fd = env.timerfd_create t.history

  abbrev created : History
  created = timer_created fd ∷ t.history

  abbrev armed : History
  armed = timer_armed fd (time_spec ms run_once) ∷ created

  -- `alarm_set` returns -1 and leaves both lists as they were, having closed the descriptor that it
  -- could not arm; or it returns the new descriptor, with an alarm and an entry for it at the ends of
  -- the lists.
  pub alarm_set_cases :
      ((alarm_set env ms cb run_once t ≡ (minus_one, record t { history = created }))
        × (fd ≡ minus_one))
      ⊎ ((alarm_set env ms cb run_once t ≡ (minus_one, record t { history = closed fd ∷ armed }))
          × (is_neg (env.timerfd_settime created) ≡ true))
      ⊎ ((alarm_set env ms cb run_once t ≡ (fd, with_alarm armed fd cb run_once t))
          × (fd ≢ minus_one))
  unfolding alarm_set
  alarm_set_cases = elim (Bool-cases (fd ==ℤ minus_one)) [
    | inl failed ↦ inl (rw failed, (==ℤ_iff fd minus_one).0 failed)
    | inr fresh ↦ elim (Bool-cases (is_neg (env.timerfd_settime created))) [
      | inl failed ↦ inr (inl (rw (fresh, failed), failed))
      | inr set ↦ inr (inr (rw (fresh, set), λ e. cc (fresh, (==ℤ_iff fd minus_one).1 e)))
    ]
  ]

pub alarm_cancel_cases :
    (id : ℤ) (t : Timers)
    → ((alarm_cancel id t ≡ t) × (find_alarm id t.alarms ≡ none))
      ⊎ ((p : AlarmEntry) × (find_alarm id t.alarms ≡ some p)
          × (alarm_cancel id t ≡ record {
            history = closed id ∷ t.history;
            sched = del_entry id t.sched;
            alarms = remove_alarm id t.alarms;
          }))
unfolding alarm_cancel
alarm_cancel_cases id t = elim (Option-cases (find_alarm id t.alarms)) [
  | inl absent ↦ inl (ground (arith, absent), absent)
  | inr (p, found) ↦ inr (p, found, ground (arith, found))
]
