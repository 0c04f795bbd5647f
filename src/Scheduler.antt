-- ===== src/Scheduler.antt =====
-- The event loop: src/scheduler/atlas_scheduler.h and atlas_scheduler.c. A callback is a value of a
-- type `C` of names of functions. An entry's descriptor is not negative, as `add_entry` checks.
pub mod Sweep
pub mod Entries
pub mod Dispatch
mod Examples
use atlas_client.Prelude.{
  ℕ, zero, suc, ◌+◌, Bool, true, false, not, ◌&&◌, Option, none, some, List, [], ◌∷◌, ◌++◌, ℤ, pos,
  negsuc, ltb, ◌==◌, if◌then◌else◌, get_elem?, contains, erase,
}

pub record Entry (C : Type 0) : Type 0 where
  pub fd : ℕ
  pub callback : C
  pub dirty : Bool

-- What a round of the loop finds before it waits: the entries kept, the greatest descriptor and the
-- set of descriptors to read.
pub record Watch (C : Type 0) : Type 0 where
  pub kept : List (Entry C)
  pub max_fd : ℕ
  pub readfds : List ℕ

module _ {C : Type 0} where
  -- `none` is the null callback.
  unfoldable pub add_entry : ℤ → Option C → List (Entry C) → List (Entry C)
  add_entry (negsuc n) cb sched = sched
  add_entry (pos n) none sched = sched
  add_entry (pos n) (some cb) sched = sched ++ record { fd = n; callback = cb; dirty = false } ∷ []

  mark_first : ℕ → List (Entry C) → List (Entry C)
  mark_first fd [] = []
  mark_first fd (e ∷ es) =
      if e.fd == fd then record e { dirty = true } ∷ es else e ∷ mark_first fd es

  -- The first entry of the descriptor is marked, dirty or not. No entry has a negative one.
  unfoldable pub del_entry : ℤ → List (Entry C) → List (Entry C)
  unfolding mark_first
  del_entry (negsuc n) sched = sched
  del_entry (pos n) sched = mark_first n sched

  -- The first loop of a round, from the values that `max_fd` and `readfds` have so far.
  unfoldable pub sweep_from : ℕ → List ℕ → List (Entry C) → Watch C
  sweep_from max_fd readfds [] = record { kept = []; max_fd = max_fd; readfds = readfds }
  sweep_from max_fd readfds (e ∷ es) =
      let dropped = sweep_from max_fd readfds es in
      let rest = sweep_from (if ltb max_fd e.fd then e.fd else max_fd) (readfds ++ e.fd ∷ []) es in
      if e.dirty then dropped else record rest { kept = e ∷ rest.kept }

  unfoldable pub sweep : List (Entry C) → Watch C
  unfolding sweep_from
  sweep sched = sweep_from 0 [] sched

-- The second loop of a round, over the state `W` of the program, whose entries the callbacks may mark
-- and append to: the entry at place `i` is read when its turn comes. `none` is fuel that ran out.
module _ {C W : Type 0} (entries : W → List (Entry C)) (run : C → ℕ → W → W) where
  unfoldable pub dispatch : ℕ → ℕ → List ℕ → W → Option W
  dispatch zero i ready w = none
  dispatch (suc fuel) i ready w = elim (get_elem? (entries w) i) [
    | none ↦ some w
    | some e ↦
        let served = dispatch fuel (i + 1) (erase e.fd ready) (run e.callback e.fd w) in
        let skipped = dispatch fuel (i + 1) ready w in
        if not e.dirty && contains e.fd ready then served else skipped
  ]

-- One round of `while (1)`. `select` is told the greatest descriptor and the set, and returns its
-- result and the set of those that are ready.
module _ {C W : Type 0} (entries : W → List (Entry C)) (set_entries : List (Entry C) → W → W)
    (run : C → ℕ → W → W) where
  unfoldable pub loop_round : ℕ → (ℕ → List ℕ → W → ℤ × List ℕ × W) → W → Option W
  unfolding sweep dispatch
  loop_round fuel select w =
      let watch = sweep (entries w) in
      let (result, ready, w') =
        select (watch.max_fd + 1) watch.readfds (set_entries watch.kept w) in
      elim result [
        | pos zero ↦ some w'
        | pos (suc n) ↦ dispatch entries run fuel 0 ready w'
        | negsuc n ↦ some w'
      ]
