-- ===== src/Scheduler/Sweep.antt =====
-- The first loop of a round keeps the entries that are not dirty, and watches their descriptors.
use atlas_client.Prelude.{
  ℕ, ◌+◌, ◌≤◌, ◌<◌, contains, ◌≡◌, refl, sym, ap, ◌∙◌, true, List, [], ◌∷◌, ◌++◌, map, append_assoc,
  append-nil, arith, ltb, if◌then◌else◌, zero, suc, ℤ, pos, negsuc, Option, some,
}
use atlas_client.Scheduler.{Entry, sweep, sweep_from, dispatch, loop_round}

abbrev pub live : {C : Type 0} → List (Entry C) → List (Entry C)
live [] = []
live (e ∷ es) = let rest = live es in if e.dirty then rest else e ∷ rest

abbrev pub fds : {C : Type 0} → List (Entry C) → List ℕ
fds = map (λ e. e.fd)

module _ {C : Type 0} where
  -- What is reached with an entry that is kept.
  abbrev above : ℕ → Entry C → ℕ
  above max_fd e = if ltb max_fd e.fd then e.fd else max_fd

  sweep_from_kept :
      (max_fd : ℕ) (readfds : List ℕ) (sched : List (Entry C))
      → (sweep_from max_fd readfds sched).kept ≡ live sched
  unfolding sweep_from
  sweep_from_kept max_fd readfds [] = refl
  sweep_from_kept max_fd readfds (e ∷ es) = ground (
    arith,
    sweep_from_kept max_fd readfds es,
    sweep_from_kept (above max_fd e) (readfds ++ e.fd ∷ []) es,
  )

  sweep_from_readfds :
      (max_fd : ℕ) (readfds : List ℕ) (sched : List (Entry C))
      → (sweep_from max_fd readfds sched).readfds ≡ readfds ++ fds (live sched)
  unfolding sweep_from
  sweep_from_readfds max_fd readfds [] = sym (append-nil readfds)
  sweep_from_readfds max_fd readfds (e ∷ es) = ground (
    arith,
    sweep_from_readfds max_fd readfds es,
    sweep_from_readfds (above max_fd e) (readfds ++ e.fd ∷ []) es,
    append_assoc readfds (e.fd ∷ []) (fds (live es)),
  )

  sweep_from_grown :
      (max_fd : ℕ) (readfds : List ℕ) (sched : List (Entry C))
      → max_fd ≤ (sweep_from max_fd readfds sched).max_fd
  unfolding sweep_from
  sweep_from_grown max_fd readfds [] = omega arith
  sweep_from_grown max_fd readfds (e ∷ es) = ground (
    arith,
    sweep_from_grown max_fd readfds es,
    sweep_from_grown (above max_fd e) (readfds ++ e.fd ∷ []) es,
  )

  sweep_from_bound :
      (max_fd : ℕ) (readfds : List ℕ) (sched : List (Entry C)) (fd : ℕ)
      → contains fd (fds (live sched)) ≡ true
      → fd ≤ (sweep_from max_fd readfds sched).max_fd
  unfolding sweep_from
  sweep_from_bound max_fd readfds [] fd h = cc
  sweep_from_bound max_fd readfds (e ∷ es) fd h = ground (
    arith,
    sweep_from_bound max_fd readfds es fd,
    sweep_from_bound (above max_fd e) (readfds ++ e.fd ∷ []) es fd,
    sweep_from_grown (above max_fd e) (readfds ++ e.fd ∷ []) es,
  )

  -- A round frees exactly the dirty entries and keeps the order of the others; it watches the
  -- descriptors of these, in order, and what it has as the greatest is not below any of them.
  pub sweep_lem :
      (sched : List (Entry C))
      → ((sweep sched).kept ≡ live sched)
        × ((sweep sched).readfds ≡ fds (live sched))
        × ((fd : ℕ) → contains fd (fds (live sched)) ≡ true → fd ≤ (sweep sched).max_fd)
  unfolding sweep
  sweep_lem sched =
      (sweep_from_kept 0 [] sched, sweep_from_readfds 0 [] sched, sweep_from_bound 0 [] sched)

module _ {C W : Type 0} (entries : W → List (Entry C)) (set_entries : List (Entry C) → W → W)
    (run : C → ℕ → W → W) where
  -- A round with what `select` returned: the callbacks run if some descriptor is ready.
  abbrev pub after_select : ℕ → ℤ × List ℕ × W → Option W
  after_select fuel (pos zero, ready, w) = some w
  after_select fuel (pos (suc n), ready, w) = dispatch entries run fuel 0 ready w
  after_select fuel (negsuc n, ready, w) = some w

  -- Before a round waits it frees exactly the dirty entries and keeps the order of the others. `select` gets
  -- a number above the descriptor of each of these, and their descriptors, in order; the callbacks run
  -- if it returns a positive result, and otherwise the state behind it is that of the round.
  pub loop_round_lem :
      (fuel : ℕ) (w : W)
      → let kept = live (entries w) in
        (n : ℕ) × ((fd : ℕ) → contains fd (fds kept) ≡ true → fd < n)
        × ((select : ℕ → List ℕ → W → ℤ × List ℕ × W)
            → loop_round entries set_entries run fuel select w
              ≡ after_select fuel (select n (fds kept) (set_entries kept w)))
  unfolding loop_round
  loop_round_lem fuel w =
      let (kept, readfds, above) = sweep_lem (entries w) in
      (
        (sweep (entries w)).max_fd + 1,
        λ fd watched. omega (arith, above fd watched),
        λ select.
            let n = (sweep (entries w)).max_fd + 1 in
            after_select_lem fuel
              (select n (sweep (entries w)).readfds (set_entries (sweep (entries w)).kept w))
            ∙ ap (λ es. after_select fuel (select n (sweep (entries w)).readfds (set_entries es w)))
                kept
            ∙ ap (λ ready. after_select fuel (select n ready (set_entries (live (entries w)) w)))
                readfds,
      )
    where
      after_select_lem :
          (fuel : ℕ) (r : ℤ × List ℕ × W)
          → (elim r.0 [
            | pos zero ↦ some r.2
            | pos (suc n) ↦ dispatch entries run fuel 0 r.1 r.2
            | negsuc n ↦ some r.2
          ])
            ≡ after_select fuel r
      after_select_lem fuel (pos zero, ready, w) = refl
      after_select_lem fuel (pos (suc n), ready, w) = refl
      after_select_lem fuel (negsuc n, ready, w) = refl
