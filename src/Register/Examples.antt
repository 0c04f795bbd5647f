-- ===== src/Register/Examples.antt =====
-- Tests of registration and keep-alive.
use atlas_client.Prelude.{◌≡◌, ◌<◌, ◌+◌, refl, true, false, [], ◌∷◌, ◌++◌, arith}
use atlas_client.Status.{resp_ok, not_found, timeout}
use atlas_client.Environment.Samples.{online}
use atlas_client.World.{World}
use atlas_client.World.Samples.{fresh}
use atlas_client.Register.{token_bytes, handle_keepalive, handle_registration}
use atlas_client.Register.KeepAlive.{
  budget, missed, missed_lem, missed-budget, keepalive-echo, keepalive-stray, keepalive-not_found,
  registration_lem,
}

abbrev renewed : World
renewed = record fresh { registered = true; ka_count = 3; ka_token = 258 }

-- A first registration leaves a budget of 256 rounds.
budget-fresh : budget fresh ≡ 256
budget-fresh = refl

missed_lem_example :
    ((missed online 2 renewed).registered ≡ true)
    × ((missed online 2 renewed).ka_count < 256)
    × (budget (missed online 2 renewed) + 2 ≡ budget renewed)
missed_lem_example = missed_lem online 2 renewed (omega arith) (omega arith)

missed-budget_example : (missed online 3 renewed).registered ≡ false
missed-budget_example = missed-budget online 2 renewed (omega arith) refl

keepalive-echo_example :
    handle_keepalive online resp_ok (token_bytes 258 ++ 7 ∷ []) renewed
    ≡ record renewed { ka_count = 3 }
keepalive-echo_example = keepalive-echo online renewed (7 ∷ []) (omega arith)

keepalive-stray_test :
    handle_keepalive online resp_ok (token_bytes 257 ++ []) renewed
    ≡ handle_keepalive online timeout [] renewed
keepalive-stray_test =
    keepalive-stray online renewed 257 [] (omega arith) (omega arith) (omega arith)

registration_lem_test :
    ((resp_ok ≡ resp_ok → (handle_registration online resp_ok fresh).registered ≡ true)
      × (¬ (resp_ok ≡ resp_ok)
          → (handle_registration online resp_ok fresh).registered ≡ fresh.registered))
    × ((handle_registration online resp_ok fresh).ka_count ≡ fresh.ka_count)
registration_lem_test = registration_lem online resp_ok fresh

keepalive-not_found_test : (handle_keepalive online not_found [] renewed).registered ≡ false
keepalive-not_found_test = keepalive-not_found online renewed []
