-- ===== src/Events/Examples.antt =====
-- Tests of the events: a client that registers and is answered.
use atlas_client.Prelude.{refl, true, [], ◌∷◌, arith, pos}
use atlas_client.CoapClient.Receive.{ack, token_bytes}
use atlas_client.Environment.Samples.{online}
use atlas_client.World.{World}
use atlas_client.World.Samples.{fresh}
use atlas_client.World.Keeps.{IsSound, Keeps-IsSound}
use atlas_client.Register.{register_start}
use atlas_client.Register.Keeps.{send_register_command-Keeps}
use atlas_client.Events.{Message, coap_client_sched_callback}
use atlas_client.Events.Reach.{responses_came, here, further, Reach-IsSound}

abbrev accepted : Message
accepted = record {
  ctx = 1;
  session = 2;
  sent = true;
  received = record { type = ack; token = token_bytes 0; class = 2; payload = [] };
}

abbrev registered_world : World
registered_world =
    coap_client_sched_callback online (pos 9) (accepted ∷ []) (register_start online fresh)

fresh-IsSound : IsSound fresh
fresh-IsSound = record {
  balance = λ weight. refl;
  count_byte = omega arith;
  token_word = omega arith;
}

registered_world-IsSound : IsSound registered_world
unfolding register_start
registered_world-IsSound =
    Reach-IsSound online (further here (responses_came (pos 9) (accepted ∷ [])))
      (Keeps-IsSound (send_register_command-Keeps online fresh) fresh-IsSound)
