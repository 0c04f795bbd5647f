-- ===== src/Register/KeepAlive.antt =====
-- How many keep-alive rounds in a row may fail before the client registers again.
use atlas_client.Prelude.{
  ℕ, zero, suc, ◌+◌, ◌<◌, ◌≡◌, refl, true, false, List, [], ◌++◌, arith, if◌then◌else◌, ◌==◌, ◌∙◌,
  ap,
}
use atlas_client.Status.{Response, resp_ok, not_found, timeout}
use atlas_client.Environment.{Environment}
use atlas_client.World.{World, request}
use atlas_client.World.Keeps.{written-Keeps}
use atlas_client.Telemetry.Keeps.{push_all-Keeps}
use atlas_client.Register.Keeps.{if_policy, if_policy-Keeps}
use atlas_client.Register.{
  token_bytes, has_token, send_register_command, send_keepalive_command, lose_registration,
  keepalive_error, handle_keepalive, handle_registration,
}

-- The number of rounds that may fail: a count of zero wraps around.
abbrev pub budget : World → ℕ
budget w = if w.ka_count == 0 then 256 else w.ka_count

module _ (env : Environment) where
  send_keepalive-registered : (w : World) → (send_keepalive_command env w).registered ≡ w.registered
  unfolding send_keepalive_command request
  send_keepalive-registered w = (written-Keeps _ _).registered

  send_keepalive-ka_count : (w : World) → (send_keepalive_command env w).ka_count ≡ w.ka_count
  unfolding send_keepalive_command request
  send_keepalive-ka_count w = (written-Keeps _ _).ka_count

  lose_registration-registered : (w : World) → (lose_registration env w).registered ≡ false
  unfolding lose_registration send_register_command request
  lose_registration-registered w = (written-Keeps _ _).registered

  -- A round whose request is not answered,
  abbrev pub missed_round : World → World
  missed_round w = handle_keepalive env timeout [] (send_keepalive_command env w)

  -- and so many of them in a row.
  abbrev pub missed : ℕ → World → World
  missed zero w = w
  missed (suc n) w = missed n (missed_round w)

  missed_round-budget :
      (w : World)
      → w.ka_count < 256
      → 1 < budget w
      → ((missed_round w).registered ≡ w.registered)
        × ((missed_round w).ka_count < 256)
        × (budget (missed_round w) + 1 ≡ budget w)
  unfolding handle_keepalive keepalive_error
  missed_round-budget w byte more =
      ground (arith, send_keepalive-registered w, send_keepalive-ka_count w)

  missed_round-last : (w : World) → budget w ≡ 1 → (missed_round w).registered ≡ false
  unfolding handle_keepalive keepalive_error
  missed_round-last w last = ground (
    arith,
    send_keepalive-ka_count w,
    lose_registration-registered (record (send_keepalive_command env w) { ka_count = 0 }),
  )

  -- Fewer rounds without an answer than the budget leave the registration as it was, and each takes one
  -- from the budget.
  pub missed_lem :
      (n : ℕ) (w : World)
      → w.ka_count < 256
      → n < budget w
      → ((missed n w).registered ≡ w.registered)
        × ((missed n w).ka_count < 256)
        × (budget (missed n w) + n ≡ budget w)
  missed_lem zero w byte fewer = (refl, byte, omega arith)
  missed_lem (suc n) w byte fewer =
      let (same, byte', one) = missed_round-budget w byte (omega arith) in
      let (same', byte'', rest) = missed_lem n (missed_round w) byte' (omega arith) in
      (same' ∙ same, byte'', omega arith)

  missed-more : (n : ℕ) (w : World) → missed (suc n) w ≡ missed_round (missed n w)
  missed-more zero w = refl
  missed-more (suc n) w = missed-more n (missed_round w)

  -- The round that spends the budget ends the registration.
  pub missed-budget :
      (n : ℕ) (w : World)
      → w.ka_count < 256
      → budget w ≡ suc n
      → (missed (suc n) w).registered ≡ false
  missed-budget n w byte spent =
      let (same, byte', left) = missed_lem n w byte (omega arith) in
      ap (λ (w' : World). w'.registered) (missed-more n w)
      ∙ missed_round-last (missed n w) (omega arith)

  -- An answer that begins with the token of the last request, a 16-bit number, renews the count and changes nothing
  -- else.
  pub keepalive-echo :
      (w : World) (rest : List ℕ)
      → w.ka_token < 65536
      → handle_keepalive env resp_ok (token_bytes w.ka_token ++ rest) w ≡ record w { ka_count = 3 }
  unfolding handle_keepalive has_token
  keepalive-echo w rest word = ground arith

  -- An answer that begins with another 16-bit token than the last request's counts as no answer.
  pub keepalive-stray :
      (w : World) (token : ℕ) (rest : List ℕ)
      → w.ka_token < 65536
      → token < 65536
      → ¬ (token ≡ w.ka_token)
      → handle_keepalive env resp_ok (token_bytes token ++ rest) w
        ≡ handle_keepalive env timeout [] w
  unfolding handle_keepalive has_token
  keepalive-stray w token rest word word' other = ground arith

  -- After an answer that the gateway does not know the client, the client is not registered.
  pub keepalive-not_found :
      (w : World) (payload : List ℕ) → (handle_keepalive env not_found payload w).registered ≡ false
  unfolding handle_keepalive keepalive_error
  keepalive-not_found w payload = lose_registration-registered (record w { ka_count = 0 })

  -- The gateway's answer to a registration decides whether the client is registered. It leaves the
  -- keep-alive count as it was.
  pub registration_lem :
      (response : Response) (w : World)
      → ((response ≡ resp_ok → (handle_registration env response w).registered ≡ true)
          × (¬ (response ≡ resp_ok)
              → (handle_registration env response w).registered ≡ w.registered))
        × ((handle_registration env response w).ka_count ≡ w.ka_count)
  unfolding handle_registration
  registration_lem resp_ok w =
      let sent = if_policy-Keeps env w.registered w in
      let pushed =
        push_all-Keeps env (record (if_policy env w.registered w) { registered = true }) in
      ((λ e. pushed.registered, λ e. absurd (e refl)), pushed.ka_count ∙ sent.ka_count)
  registration_lem _ w = ((λ e. cc, λ e. refl), refl)
