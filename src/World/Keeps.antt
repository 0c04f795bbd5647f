-- ===== src/World/Keeps.antt =====
-- What a send leaves as it was. A part of the program that only sends keeps the registration, and
-- keeps libcoap's contexts in balance.
use atlas_client.Prelude.{
  ◌<◌, ℕ, ◌≡◌, refl, ◌∙◌, Bool, true, false, if◌then◌else◌, Option, none, some, List, ℤ, arith,
}
use atlas_client.Status.{Method}
use atlas_client.Callbacks.{ClientCallback, AlarmCallback}
use atlas_client.Commands.{Cmd, build}
use atlas_client.Config.{get_uri}
use atlas_client.Environment.{Call, probed, Environment}
use atlas_client.Alarm.{alarm_set, alarm_cancel}
use atlas_client.CoapClient.Balance.{
  opens, frees, IsBalanced, client_request-IsBalanced, alarm_set_counts, alarm_cancel_counts,
}
use atlas_client.World.{World, recorded, set_timers, bytes_of, written, request}

pub record Keeps (w w' : World) : Type 0 where
  pub registered : w'.registered ≡ w.registered
  pub ka_count : w'.ka_count ≡ w.ka_count
  pub ka_token : w'.ka_token ≡ w.ka_token
  pub balance : IsBalanced w.client → IsBalanced w'.client

pub Keeps-same : (w : World) → Keeps w w
Keeps-same w = record { registered = refl; ka_count = refl; ka_token = refl; balance = λ b. b }

pub Keeps-then : {u v w : World} → Keeps u v → Keeps v w → Keeps u w
Keeps-then h k = record {
  registered = k.registered ∙ h.registered;
  ka_count = k.ka_count ∙ h.ka_count;
  ka_token = k.ka_token ∙ h.ka_token;
  balance = λ b. k.balance (h.balance b);
}

pub Keeps-if : (b : Bool) {w u v : World} → Keeps w u → Keeps w v → Keeps w (if b then u else v)
Keeps-if true h k = h
Keeps-if false h k = k

-- A choice between results with a world.
pub Keeps-choice :
    {S : Type 0} (b : Bool) {w : World} (p q : S × World)
    → Keeps w p.1
    → Keeps w q.1
    → Keeps w (if b then p else q).1
Keeps-choice true p q h k = h
Keeps-choice false p q h k = k

-- A call that neither gets nor frees a context of the client.
pub recorded-Keeps :
    (call : Call) (w : World)
    → ((weight : ℕ → ℕ) → opens weight call ≡ 0)
    → ((weight : ℕ → ℕ) → frees weight call ≡ 0)
    → Keeps w (recorded call w)
recorded-Keeps call w o f = record {
  registered = refl;
  ka_count = refl;
  ka_token = refl;
  balance = λ b weight. omega (arith, b weight, o weight, f weight);
}

pub recorded-probed : (w : World) → Keeps w (recorded probed w)
recorded-probed w = record {
  registered = refl;
  ka_count = refl;
  ka_token = refl;
  balance = λ b weight. omega (arith, b weight);
}

bytes_of-Keeps : (r : Option (List ℕ)) (w : World) → Keeps w (bytes_of r w).1
unfolding bytes_of
bytes_of-Keeps none w = record {
  registered = refl;
  ka_count = refl;
  ka_token = refl;
  balance = λ b weight. omega (arith, b weight);
}
bytes_of-Keeps (some bytes) w = Keeps-same w

pub written-Keeps : (cmds : List Cmd) (w : World) → Keeps w (written cmds w).1
unfolding written
written-Keeps cmds w = bytes_of-Keeps (build cmds) w

module _ (env : Environment) where
  pub request-Keeps :
      (path : List ℕ) (method : Method) (payload : List ℕ) (ms : ℕ) (cb : ClientCallback)
      (w : World)
      → Keeps w (request env path method payload ms cb w)
  unfolding request
  request-Keeps path method payload ms cb w = record {
    registered = refl;
    ka_count = refl;
    ka_token = refl;
    balance =
        client_request-IsBalanced env (some (get_uri w.config path)) method payload ms (some cb)
          w.client;
  }

  pub alarm_set-Keeps :
      (ms : ℕ) (cb : AlarmCallback) (run_once : Bool) (w : World)
      → Keeps w (set_timers (alarm_set env ms cb run_once w.client.timers).1 w)
  alarm_set-Keeps ms cb run_once w = record {
    registered = refl;
    ka_count = refl;
    ka_token = refl;
    balance = λ b weight.
        omega (arith, b weight, alarm_set_counts weight env ms cb run_once w.client.timers);
  }

pub alarm_cancel-Keeps :
    (id : ℤ) (w : World) → Keeps w (set_timers (alarm_cancel id w.client.timers) w)
alarm_cancel-Keeps id w = record {
  registered = refl;
  ka_count = refl;
  ka_token = refl;
  balance = λ b weight. omega (arith, b weight, alarm_cancel_counts weight id w.client.timers);
}

-- What every event preserves: libcoap's contexts are in balance, and the keep-alive variables fit
-- their machine words.
pub record IsSound (w : World) : Type 0 where
  pub balance : IsBalanced w.client
  pub count_byte : w.ka_count < 256
  pub token_word : w.ka_token < 65536

pub Keeps-IsSound : {w w' : World} → Keeps w w' → IsSound w → IsSound w'
Keeps-IsSound h s = record {
  balance = h.balance s.balance;
  count_byte = omega (arith, s, h.ka_count);
  token_word = omega (arith, s, h.ka_token);
}
