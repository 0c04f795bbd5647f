-- ===== src/Scheduler/Dispatch.antt =====
-- The second loop of a round ends, if each callback appends a bounded number of entries.
use atlas_client.Prelude.{
  ℕ, zero, suc, ◌+◌, ◌-◌, ◌*◌, ◌≤◌, ◌<◌, ◌≡◌, Bool, true, not, ◌&&◌, some, List, arith, length,
  get_elem?, get_elem?_lt, contains, erase, length-erase_lt, Bool-cases, Option-cases, inl, inr,
}
use atlas_client.Scheduler.{Entry, dispatch}

mul_below : (k a b : ℕ) → a < b → k * a + k ≤ k * b
mul_below k a b h = grind arith

and_right : (a b : Bool) → (a && b) ≡ true → b ≡ true
and_right a b h = ground arith

module _ {C W : Type 0} (entries : W → List (Entry C)) (run : C → ℕ → W → W) (k : ℕ)
    (appends : (c : C) (fd : ℕ) (w : W)
      → length (entries (run c fd w)) ≤ length (entries w) + k) where
  -- The turns left: each entry behind `i`, and `k` for each descriptor that is still to be served.
  abbrev turns : ℕ → List ℕ → W → ℕ
  turns i ready w = (length (entries w) - i) + k * length ready

  served_turns :
      (i : ℕ) (e : Entry C) (ready : List ℕ) (w : W)
      → i < length (entries w)
      → contains e.fd ready ≡ true
      → turns (i + 1) (erase e.fd ready) (run e.callback e.fd w) < turns i ready w
  served_turns i e ready w h c = omega (
    arith,
    appends e.callback e.fd w,
    mul_below k (length (erase e.fd ready)) (length ready) (length-erase_lt e.fd ready c),
  )

  skipped_turns :
      (i : ℕ) (ready : List ℕ) (w : W)
      → i < length (entries w)
      → turns (i + 1) ready w < turns i ready w
  skipped_turns i ready w h = omega arith

  -- Where a callback appends at most `k` entries, the loop over the entries ends after as many turns
  -- as there are entries, and `k` more for each descriptor that is ready.
  pub dispatch_total :
      (fuel i : ℕ) (ready : List ℕ) (w : W)
      → turns i ready w < fuel
      → (w' : W) × (dispatch entries run fuel i ready w ≡ some w')
  unfolding dispatch
  dispatch_total zero i ready w h = elim h [ ]
  dispatch_total (suc fuel) i ready w h = elim (Option-cases (get_elem? (entries w) i)) [
    | inl end ↦ (w, ground (arith, end))
    | inr (e, found) ↦ elim (Bool-cases (not e.dirty && contains e.fd ready)) [
      | inl turn ↦
          let (w', ends) = dispatch_total fuel (i + 1) (erase e.fd ready) (run e.callback e.fd w) (
            omega (
              arith,
              served_turns i e ready w (get_elem?_lt (entries w) i found)
                  (and_right (not e.dirty) (contains e.fd ready) turn),
            )) in
          (w', ground (arith, found, turn, ends))
      | inr pass ↦
          let (w', ends) =
            dispatch_total fuel (i + 1) ready w
              (omega (arith, skipped_turns i ready w (get_elem?_lt (entries w) i found))) in
          (w', ground (arith, found, pass, ends))
    ]
  ]
