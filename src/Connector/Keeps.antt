-- ===== src/Connector/Keeps.antt =====
-- The data plane's messages keep the registration and the balance of libcoap's contexts.
use atlas_client.Prelude.{
  ℕ, refl, Option, none, some, List, [], ◌∷◌, ℤ, minus_one, ◌==◌, ◌==ℤ◌, arith, codes,
}
use atlas_client.Status.{Status, ok, put, Response, resp_ok}
use atlas_client.Callbacks.{feature_reputation_callback, feedback_callback}
use atlas_client.Environment.{Environment, faulted}
use atlas_client.Commands.{Cmd}
use atlas_client.Commands.Types
use atlas_client.World.{World, recorded, written}
use atlas_client.World.Keeps.{Keeps, Keeps-same, Keeps-if, Keeps-then, written-Keeps, request-Keeps}
use atlas_client.Register.Keeps.{send_policy_command-Keeps}
use atlas_client.Connector
use atlas_client.Connector.{
  store, set_policy_qos, set_policy_packets_per_min, set_policy_packets_maxlen, set_packets_per_min,
  set_packets_avg, word_at, policy_one, policy_loop, send_to_data_plane, reputation_one,
  reputation_loop, reputation_parsed, reputation_resp_parse, handle_reputation, with_identity,
  feature_reputation_handle, feature_feedback_handle, policy_parsed, parse_policy, read_one,
  read_loop, read_parsed, read_cb, disconnect, connect, accept_cb,
}

-- The history does not count, but for the calls on contexts.
recorded-faulted : (w : World) → Keeps w (recorded faulted w)
recorded-faulted w = record {
  registered = refl;
  ka_count = refl;
  ka_token = refl;
  balance = λ b weight. omega (arith, b weight);
}

store-Keeps :
    (set : ℕ → World → World) (r : Option ℕ) (w : World)
    → ((n : ℕ) → Keeps w (set n w))
    → Keeps w (store set r w)
unfolding store
store-Keeps set none w h = recorded-faulted w
store-Keeps set (some n) w h = h n

policy_one-Keeps : (c : Cmd) (rest : List Cmd) (w : World) → Keeps w (policy_one c rest w)
unfolding policy_one
policy_one-Keeps c rest w =
    Keeps-if (c.type == Types.data_plane_policy_qos)
      (store-Keeps set_policy_qos _ w
        (λ n. record { registered = refl; ka_count = refl; ka_token = refl; balance = λ b. b }))
      (Keeps-if (c.type == Types.data_plane_policy_packets_per_minute)
        (store-Keeps set_policy_packets_per_min _ w
          (λ n. record { registered = refl; ka_count = refl; ka_token = refl; balance = λ b. b }))
        (Keeps-if (c.type == Types.data_plane_policy_packets_maxlen)
          (store-Keeps set_policy_packets_maxlen _ w
            (λ n. record { registered = refl; ka_count = refl; ka_token = refl; balance = λ b. b }))
          (Keeps-same w)))

policy_loop-Keeps : (cs : List Cmd) (w : World) → Keeps w (policy_loop cs w)
unfolding policy_loop
policy_loop-Keeps [] w = Keeps-same w
policy_loop-Keeps (c ∷ cs) w =
    Keeps-then (policy_one-Keeps c cs w) (policy_loop-Keeps cs (policy_one c cs w))

send_to_data_plane-Keeps : (cs : List Cmd) (w : World) → Keeps w (send_to_data_plane (written cs w))
unfolding send_to_data_plane
send_to_data_plane-Keeps cs w = Keeps-then (written-Keeps cs w) (record {
  registered = refl;
  ka_count = refl;
  ka_token = refl;
  balance = λ b weight. omega (arith, b weight);
})

reputation_one-Keeps : (c : Cmd) (w : World) → Keeps w (reputation_one c w)
unfolding reputation_one
reputation_one-Keeps c w =
    Keeps-if (c.type == Types.data_plane_feature_reputation) (send_to_data_plane-Keeps _ w)
      (Keeps-same w)

reputation_loop-Keeps : (cs : List Cmd) (w : World) → Keeps w (reputation_loop cs w)
unfolding reputation_loop
reputation_loop-Keeps [] w = Keeps-same w
reputation_loop-Keeps (c ∷ cs) w =
    Keeps-then (reputation_one-Keeps c w) (reputation_loop-Keeps cs (reputation_one c w))

reputation_parsed-Keeps :
    (r : Option (Status × List Cmd)) (w : World) → Keeps w (reputation_parsed r w)
unfolding reputation_parsed
reputation_parsed-Keeps none w = recorded-faulted w
reputation_parsed-Keeps (some (ok, cs)) w = reputation_loop-Keeps cs w
reputation_parsed-Keeps (some (_, cs)) w = Keeps-same w

reputation_resp_parse-Keeps : (raw : List ℕ) (w : World) → Keeps w (reputation_resp_parse raw w)
unfolding reputation_resp_parse
reputation_resp_parse-Keeps [] w = Keeps-same w
reputation_resp_parse-Keeps (b ∷ bs) w = reputation_parsed-Keeps _ w

pub handle_reputation-Keeps :
    (response : Response) (payload : List ℕ) (w : World)
    → Keeps w (handle_reputation response payload w)
unfolding handle_reputation
handle_reputation-Keeps resp_ok payload w = reputation_resp_parse-Keeps payload w
handle_reputation-Keeps _ payload w = send_to_data_plane-Keeps _ w

identity-Keeps : (w : World) → Keeps w (Connector.identity w)
unfolding Connector.identity
identity-Keeps w = send_to_data_plane-Keeps _ w

disconnect-Keeps : (w : World) → Keeps w (disconnect w)
unfolding disconnect
disconnect-Keeps w = Keeps-if (w.connected_socket ==ℤ minus_one) (Keeps-same w) (record {
  registered = refl;
  ka_count = refl;
  ka_token = refl;
  balance = λ b weight. omega (arith, b weight);
})

connect-Keeps : (fd : ℤ) (w : World) → Keeps w (connect fd w)
unfolding connect
connect-Keeps fd w =
    Keeps-if (fd ==ℤ minus_one)
      (record {
        registered = refl;
        ka_count = refl;
        ka_token = refl;
        balance = λ b weight. omega (arith, b weight);
      })
      (record {
        registered = refl;
        ka_count = refl;
        ka_token = refl;
        balance = λ b weight. omega (arith, b weight);
      })

module _ (env : Environment) where
  feature_reputation_handle-Keeps :
      (value : List ℕ) (w : World) → Keeps w (feature_reputation_handle env value w)
  unfolding feature_reputation_handle
  feature_reputation_handle-Keeps [] w = Keeps-same w
  feature_reputation_handle-Keeps (b ∷ bs) w =
      Keeps-then (written-Keeps (with_identity Types.data_plane_feature_reputation (b ∷ bs) w) w) (
        request-Keeps env (codes "gateway/reputation/feature") put _ 5000
          feature_reputation_callback _)

  feature_feedback_handle-Keeps :
      (value : List ℕ) (w : World) → Keeps w (feature_feedback_handle env value w)
  unfolding feature_feedback_handle
  feature_feedback_handle-Keeps [] w = Keeps-same w
  feature_feedback_handle-Keeps (b ∷ bs) w =
      Keeps-then (written-Keeps (with_identity Types.data_plane_feedback (b ∷ bs) w) w)
        (request-Keeps env (codes "gateway/reputation/feedback") put _ 5000 feedback_callback _)

  policy_parsed-Keeps :
      (r : Option (Status × List Cmd)) (w : World) → Keeps w (policy_parsed env r w)
  unfolding policy_parsed
  policy_parsed-Keeps none w = recorded-faulted w
  policy_parsed-Keeps (some (ok, cs)) w =
      let h = policy_loop-Keeps cs w in
      Keeps-then
        (record {
          registered = h.registered;
          ka_count = h.ka_count;
          ka_token = h.ka_token;
          balance = h.balance;
        })
        (send_policy_command-Keeps env _)
  policy_parsed-Keeps (some (_, cs)) w = Keeps-same w

  parse_policy-Keeps : (raw : List ℕ) (w : World) → Keeps w (parse_policy env raw w)
  unfolding parse_policy
  parse_policy-Keeps [] w = Keeps-same w
  parse_policy-Keeps (b ∷ bs) w = policy_parsed-Keeps _ w

  read_one-Keeps : (c : Cmd) (rest : List Cmd) (w : World) → Keeps w (read_one env c rest w)
  unfolding read_one
  read_one-Keeps c rest w =
      Keeps-if (c.type == Types.data_plane_policy) (parse_policy-Keeps c.value w) (
        Keeps-if (c.type == Types.data_plane_packets_per_minute)
          (store-Keeps set_packets_per_min _ w
            (λ n. record { registered = refl; ka_count = refl; ka_token = refl; balance = λ b. b }))
          (Keeps-if (c.type == Types.data_plane_packets_avg)
            (store-Keeps set_packets_avg _ w (λ n. record {
              registered = refl;
              ka_count = refl;
              ka_token = refl;
              balance = λ b. b;
            }))
            (Keeps-if (c.type == Types.data_plane_feature_reputation)
              (feature_reputation_handle-Keeps c.value w)
              (Keeps-if (c.type == Types.data_plane_feedback)
                (feature_feedback_handle-Keeps c.value w)
                (Keeps-if (c.type == Types.data_plane_get_identity) (identity-Keeps w)
                  (Keeps-same w))))))

  read_loop-Keeps : (cs : List Cmd) (w : World) → Keeps w (read_loop env cs w)
  unfolding read_loop
  read_loop-Keeps [] w = Keeps-same w
  read_loop-Keeps (c ∷ cs) w =
      Keeps-then (read_one-Keeps c cs w) (read_loop-Keeps cs (read_one env c cs w))

  read_parsed-Keeps : (r : Option (Status × List Cmd)) (w : World) → Keeps w (read_parsed env r w)
  unfolding read_parsed
  read_parsed-Keeps none w = recorded-faulted w
  read_parsed-Keeps (some (ok, cs)) w = read_loop-Keeps cs w
  read_parsed-Keeps (some (_, cs)) w = Keeps-same w

  pub read_cb-Keeps : (fd : ℤ) (raw : List ℕ) (w : World) → Keeps w (read_cb env fd raw w)
  unfolding read_cb
  read_cb-Keeps fd [] w = record {
    registered = refl;
    ka_count = refl;
    ka_token = refl;
    balance = λ b. b;
  }
  read_cb-Keeps fd (b ∷ bs) w = read_parsed-Keeps _ w

  pub accept_cb-Keeps : (w : World) → Keeps w (accept_cb env w)
  unfolding accept_cb
  accept_cb-Keeps w = Keeps-then (disconnect-Keeps w) (connect-Keeps _ (disconnect w))
