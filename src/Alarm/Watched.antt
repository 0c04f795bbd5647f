-- ===== src/Alarm/Watched.antt =====
-- The alarms are exactly the descriptors that the scheduler watches for them.
use atlas_client.Prelude.{
  ℕ, ◌+◌, ◌≤◌, ◌≡◌, refl, Bool, true, false, ◌||◌, ◌&&◌, none, some, List, [], ◌∷◌, ◌++◌, ℤ, pos,
  negsuc, ◌==ℤ◌, ◌==◌, arith, if◌then◌else◌, inl, inr,
}
use atlas_client.Callbacks.{SchedCallback, alarm_trigger, AlarmCallback}
use atlas_client.Environment.{Environment, History}
use atlas_client.Scheduler.{Entry, add_entry, del_entry}
use atlas_client.Scheduler.Entries.{entries_of}
use atlas_client.Alarm.Cases.{alarm, with_alarm, alarm_set_cases, alarm_cancel_cases}
use atlas_client.Alarm.{AlarmEntry, Timers, find_alarm, remove_alarm, alarm_set, alarm_cancel}

abbrev is_trigger : SchedCallback → Bool
is_trigger alarm_trigger = true
is_trigger _ = false

-- Whether the next round watches a descriptor for its alarm.
abbrev pub watched : ℕ → List (Entry SchedCallback) → Bool
watched n [] = false
watched n (e ∷ es) = (if e.dirty then false else is_trigger e.callback && e.fd == n) || watched n es

abbrev pub alarms_of : ℤ → List AlarmEntry → ℕ
alarms_of id [] = 0
alarms_of id (p ∷ ps) = let rest = alarms_of id ps in if p.alarm_id ==ℤ id then rest + 1 else rest

pub record IsWatched (t : Timers) : Type 0 where
  -- Each descriptor has one entry at most.
  pub one_entry : (n : ℕ) → entries_of n t.sched ≤ 1
  -- A descriptor has one alarm if it is watched for it, else none.
  pub exact : (n : ℕ) → alarms_of (pos n) t.alarms ≡ (if watched n t.sched then 1 else 0)

entries_of-add :
    (n m : ℕ) (cb : SchedCallback) (sched : List (Entry SchedCallback))
    → entries_of m (add_entry (pos n) (some cb) sched)
      ≡ entries_of m sched + (if n == m then 1 else 0)
unfolding add_entry
entries_of-add n m cb [] = ground arith
entries_of-add n m cb (e ∷ es) = ground (arith, entries_of-add n m cb es)

watched-add :
    (n m : ℕ) (sched : List (Entry SchedCallback))
    → watched m (add_entry (pos n) (some alarm_trigger) sched) ≡ (watched m sched || n == m)
unfolding add_entry
watched-add n m [] = ground arith
watched-add n m (e ∷ es) = ground (arith, watched-add n m es)

alarms_of-add :
    (id : ℤ) (p : AlarmEntry) (ps : List AlarmEntry)
    → alarms_of id (ps ++ p ∷ []) ≡ alarms_of id ps + (if p.alarm_id ==ℤ id then 1 else 0)
alarms_of-add id p [] = ground arith
alarms_of-add id p (q ∷ ps) = ground (arith, alarms_of-add id p ps)

entries_of-del :
    (n m : ℕ) (sched : List (Entry SchedCallback))
    → entries_of m (del_entry (pos n) sched) ≡ entries_of m sched
unfolding del_entry
entries_of-del n m [] = refl
entries_of-del n m (e ∷ es) = ground (arith, entries_of-del n m es)

unwatched :
    (n : ℕ) (sched : List (Entry SchedCallback)) → entries_of n sched ≡ 0 → watched n sched ≡ false
unwatched n [] h = refl
unwatched n (e ∷ es) h = ground (arith, unwatched n es)

watched-del :
    (n m : ℕ) (sched : List (Entry SchedCallback))
    → entries_of n sched ≤ 1
    → watched m (del_entry (pos n) sched) ≡ (if n == m then false else watched m sched)
unfolding del_entry
watched-del n m [] h = ground arith
watched-del n m (e ∷ es) h = ground (arith, watched-del n m es, unwatched n es)

alarms_of-remove :
    (n m : ℕ) (ps : List AlarmEntry)
    → alarms_of (pos n) ps ≤ 1
    → alarms_of (pos m) (remove_alarm (pos n) ps) ≡ (if n == m then 0 else alarms_of (pos m) ps)
unfolding remove_alarm
alarms_of-remove n m [] h = ground arith
alarms_of-remove n m (p ∷ ps) h = ground (arith, alarms_of-remove n m ps)

alarms_of-none :
    (n : ℕ) (ps : List AlarmEntry) → find_alarm (pos n) ps ≡ none → alarms_of (pos n) ps ≡ 0
unfolding find_alarm
alarms_of-none n [] h = refl
alarms_of-none n (p ∷ ps) h = ground (arith, alarms_of-none n ps)

at_most_one : (b : Bool) → (if b then 1 else 0) ≤ 1
at_most_one true = omega arith
at_most_one false = omega arith

module _ {t : Timers} (h : IsWatched t) where
  one_alarm : (n : ℕ) → alarms_of (pos n) t.alarms ≤ 1
  one_alarm n = rw (h.exact n) (at_most_one (watched n t.sched))

  -- A new alarm on a descriptor that has no entry.
  added_exact :
      (n m : ℕ) (p : AlarmEntry)
      → p.alarm_id ≡ pos n
      → entries_of n t.sched ≡ 0
      → alarms_of (pos m) (t.alarms ++ p ∷ [])
        ≡ (if watched m (add_entry (pos n) (some alarm_trigger) t.sched) then 1 else 0)
  added_exact n m p e fresh =
      rw (alarms_of-add (pos m) p t.alarms)
        (rw (watched-add n m t.sched) (rw e (ground (arith, h.exact m, unwatched n t.sched))))

  cancelled_exact :
      (n m : ℕ)
      → alarms_of (pos m) (remove_alarm (pos n) t.alarms)
        ≡ (if watched m (del_entry (pos n) t.sched) then 1 else 0)
  cancelled_exact n m =
      rw (alarms_of-remove n m t.alarms (one_alarm n))
        (rw (watched-del n m t.sched (h.one_entry n)) (ground (arith, h.exact m)))

  -- Where a new timer descriptor has no entry in the scheduler's list, not even a dirty one, setting
  -- an alarm keeps the alarms and the descriptors watched for them in step, whatever the system calls
  -- return.
  pub alarm_set-IsWatched :
      (env : Environment) (ms : ℕ) (cb : AlarmCallback) (run_once : Bool)
      → ((n : ℕ) → env.timerfd_create t.history ≡ pos n → entries_of n t.sched ≡ 0)
      → IsWatched (alarm_set env ms cb run_once t).1
  unfolding add_entry
  alarm_set-IsWatched env ms cb run_once fresh = elim (alarm_set_cases env ms cb run_once t) [
    | inl (e, _) ↦ rw e (same _)
    | inr (inl (e, _)) ↦ rw e (same _)
    | inr (inr (e, _)) ↦ rw e (added _ (env.timerfd_create t.history) fresh)
  ]
    where
      same : (history : History) → IsWatched (record t { history = history })
      same history = record { one_entry = h.one_entry; exact = h.exact }

      added :
          (history : History) (fd : ℤ)
          → ((n : ℕ) → fd ≡ pos n → entries_of n t.sched ≡ 0)
          → IsWatched (with_alarm history fd cb run_once t)
      added history (pos n) fresh = record {
        one_entry = λ m.
            rw (entries_of-add n m alarm_trigger t.sched)
              (ground (arith, h.one_entry m, fresh n refl));
        exact = λ m. added_exact n m (alarm (pos n) cb run_once) refl (fresh n refl);
      }
      added history (negsuc k) fresh = record {
        one_entry = h.one_entry;
        exact = λ m.
            rw (alarms_of-add (pos m) (alarm (negsuc k) cb run_once) t.alarms)
              (ground (arith, h.exact m));
      }

  -- Cancelling an alarm keeps them in step.
  pub alarm_cancel-IsWatched : (n : ℕ) → IsWatched (alarm_cancel (pos n) t)
  alarm_cancel-IsWatched n = elim (alarm_cancel_cases (pos n) t) [
    | inl (e, _) ↦ rw e h
    | inr (p, _, e) ↦ rw e (record {
      one_entry = λ m. rw (entries_of-del n m t.sched) (h.one_entry m);
      exact = λ m. cancelled_exact n m;
    })
  ]
