-- ===== src/Scheduler/Examples.antt =====
-- Tests of the scheduler: entries of a server (descriptor 4) and two timers (5, 6).
use atlas_client.Prelude.{
  ℕ, ◌+◌, ◌≤◌, ◌<◌, ◌≡◌, ℤ, refl, Bool, true, false, ◌||◌, some, List, [], ◌∷◌, ◌++◌, pos, arith,
  length, length-append, contains,
}
use atlas_client.Scheduler.{Entry, add_entry, del_entry, dispatch, loop_round}
use atlas_client.Scheduler.Sweep.{live, fds, after_select, loop_round_lem}
use atlas_client.Scheduler.Entries.{watched-add_entry, watched-del_entry, watched-del-add-del}
use atlas_client.Scheduler.Dispatch.{dispatch_total}

abbrev entry : ℕ → Bool → Entry Bool
entry fd dirty = record { fd = fd; callback = true; dirty = dirty }

abbrev three : List (Entry Bool)
three = entry 4 false ∷ entry 5 true ∷ entry 6 false ∷ []

-- A state is the entries and the descriptors served so far; each callback sets a new timer, 9.
abbrev Log : Type 0
Log = List (Entry Bool) × List ℕ

abbrev entries : Log → List (Entry Bool)
entries w = w.0

abbrev set_entries : List (Entry Bool) → Log → Log
set_entries es w = (es, w.1)

abbrev serve : Bool → ℕ → Log → Log
serve c fd w = (w.0 ++ entry 9 false ∷ [], w.1 ++ fd ∷ [])

serve_appends :
    (c : Bool) (fd : ℕ) (w : Log) → length (entries (serve c fd w)) ≤ length (entries w) + 1
serve_appends c fd w = omega (arith, length-append w.0 (entry 9 false ∷ []))

-- The dirty timer 5 is freed, and the two others are served once.
round_three :
    loop_round entries set_entries serve 6 (λ n ns w. (pos 2, ns, w)) (three, [])
    ≡ some (entry 4 false ∷ entry 6 false ∷ entry 9 false ∷ entry 9 false ∷ [], 4 ∷ 6 ∷ [])
unfolding loop_round
round_three = refl

loop_round_lem_example :
    (n : ℕ) × ((fd : ℕ) → contains fd (fds (live three)) ≡ true → fd < n)
    × ((select : ℕ → List ℕ → Log → ℤ × List ℕ × Log)
        → loop_round entries set_entries serve 6 select (three, [])
          ≡ after_select entries set_entries serve 6
              (select n (fds (live three)) (set_entries (live three) (three, []))))
loop_round_lem_example = loop_round_lem entries set_entries serve 6 (three, [])

watched-add_entry_test :
    contains 9 (fds (live (add_entry (pos 9) (some true) three)))
    ≡ (contains 9 (fds (live three)) || true)
watched-add_entry_test = watched-add_entry 9 9 true three

watched-del_entry_test : contains 4 (fds (live (del_entry (pos 4) three))) ≡ false
watched-del_entry_test = watched-del_entry 4 4 three (omega arith)

watched-del-add-del_example :
    contains 4
      (fds (live (del_entry (pos 4) (add_entry (pos 4) (some true) (del_entry (pos 4) three)))))
    ≡ true
watched-del-add-del_example = watched-del-add-del 4 true three refl

dispatch_total_test : (w' : Log) × (dispatch entries serve 9 0 (4 ∷ 6 ∷ []) (three, []) ≡ some w')
dispatch_total_test =
    dispatch_total entries serve 1 serve_appends 9 0 (4 ∷ 6 ∷ []) (three, []) (omega arith)
