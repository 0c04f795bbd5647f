-- ===== src/Execute/Examples.antt =====
-- Tests of the gateway's orders.
use atlas_client.Prelude.{ℕ, ◌≡◌, ◌≢◌, All, ◌++◌, refl, true, false, List, [], ◌∷◌, arith}
use atlas_client.Status.{resp_ok, not_acceptable_here, unknown}
use atlas_client.Commands.{Cmd}
use atlas_client.Commands.Wire.{encode, IsCmd}
use atlas_client.Environment.Samples.{steady}
use atlas_client.World.Samples.{fresh}
use atlas_client.Execute.{execute_all, execute_command_cb}
use atlas_client.Execute.Orders.{
  set_callbacks, orders, HasTimers, execute_all-set_callbacks, execute_command_cb_total,
}

abbrev both : List Cmd
both = record { type = 0; value = [] } ∷ record { type = 1; value = [] } ∷ []

abbrev both_raw : List ℕ
both_raw = 0 ∷ 0 ∷ 0 ∷ 0 ∷ 0 ∷ 1 ∷ 0 ∷ 0 ∷ []

steady-HasTimers : HasTimers steady
steady-HasTimers = record { created = λ h. refl; armed = λ h. refl }

execute_all-set_callbacks_example :
    set_callbacks (execute_all steady both fresh) ≡ set_callbacks fresh ++ orders both
execute_all-set_callbacks_example = execute_all-set_callbacks steady both fresh steady-HasTimers

execute_command_cb_total_example :
    (fresh.cmd_in_progress ≡ true → execute_command_cb steady both_raw fresh ≡ (unknown, fresh))
    × (fresh.cmd_in_progress ≡ false
        → ((cs : List Cmd)
            → cs ≢ []
            → All IsCmd cs
            → both_raw ≡ encode cs
            → execute_command_cb steady both_raw fresh ≡ (resp_ok, execute_all steady cs fresh))
          × (((cs : List Cmd) → cs ≢ [] → All IsCmd cs → both_raw ≢ encode cs)
              → execute_command_cb steady both_raw fresh ≡ (not_acceptable_here, fresh)))
execute_command_cb_total_example = execute_command_cb_total steady both_raw fresh (omega arith)
