-- ===== src/Scheduler/Entries.antt =====
-- What `add_entry` and `del_entry` change in what the next round watches.
use atlas_client.Prelude.{
  ℕ, ◌+◌, ◌≤◌, ◌≡◌, refl, true, false, ◌||◌, some, List, [], ◌∷◌, pos, arith, ◌==◌, if◌then◌else◌,
  contains,
}
use atlas_client.Scheduler.{Entry, add_entry, del_entry}
use atlas_client.Scheduler.Sweep.{live, fds}

module _ {C : Type 0} where
  -- The entries of a descriptor, dirty or not.
  abbrev pub entries_of : ℕ → List (Entry C) → ℕ
  entries_of fd [] = 0
  entries_of fd (e ∷ es) = let rest = entries_of fd es in if e.fd == fd then rest + 1 else rest

  -- An added descriptor is watched from the next round on, and the others as before.
  pub watched-add_entry :
      (n m : ℕ) (cb : C) (sched : List (Entry C))
      → contains m (fds (live (add_entry (pos n) (some cb) sched)))
        ≡ (contains m (fds (live sched)) || n == m)
  unfolding add_entry
  watched-add_entry n m cb [] = ground arith
  watched-add_entry n m cb (e ∷ es) = ground (arith, watched-add_entry n m cb es)

  none_of :
      (n : ℕ) (sched : List (Entry C))
      → entries_of n sched ≡ 0
      → contains n (fds (live sched)) ≡ false
  none_of n [] h = refl
  none_of n (e ∷ es) h = ground (arith, none_of n es)

  -- Where a descriptor has one entry at most, its deletion ends the watch on it and on no other.
  pub watched-del_entry :
      (n m : ℕ) (sched : List (Entry C))
      → entries_of n sched ≤ 1
      → contains m (fds (live (del_entry (pos n) sched)))
        ≡ (if n == m then false else contains m (fds (live sched)))
  unfolding del_entry
  watched-del_entry n m [] h = ground arith
  watched-del_entry n m (e ∷ es) h = ground (arith, watched-del_entry n m es, none_of n es)

  -- A descriptor that is deleted, opened and added again, and deleted again, all before the next
  -- round, is still watched: the second deletion marks the entry that is dirty already.
  pub watched-del-add-del :
      (n : ℕ) (cb : C) (sched : List (Entry C))
      → contains n (fds sched) ≡ true
      → contains n
          (fds (live (del_entry (pos n) (add_entry (pos n) (some cb) (del_entry (pos n) sched)))))
        ≡ true
  unfolding del_entry add_entry
  watched-del-add-del n cb [] h = cc
  watched-del-add-del n cb (e ∷ es) h =
      ground (arith, watched-del-add-del n cb es, watched-add_entry n n cb es)
