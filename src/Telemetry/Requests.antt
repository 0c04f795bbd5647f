-- ===== src/Telemetry/Requests.antt =====
-- Which push requests the alert end-points accept, and for which feature.
use atlas_client.Prelude.{
  ℕ, ◌<◌, ◌≡◌, ◌≢◌, ◌⊎◌, inl, inr, refl, ap, ◌∙◌, false, none, some, Option, List, [], ◌∷◌, ◌++◌,
  All, All-map, arith, codes, length, ◌==◌,
}
use atlas_client.Status.{Status, ok, resp_ok, not_acceptable_here}
use atlas_client.Environment.{Environment}
use atlas_client.Commands.{Cmd, htons_bytes}
use atlas_client.Commands.Types
use atlas_client.Commands.Wire.{encode, IsByte, IsCmd, ntohs-htons}
use atlas_client.Commands.Iterate.{read_all-encode, read_all_cases}
use atlas_client.Alert.{word_of, rate_of, first_rate, push_found, push_parsed, push_cmd_parse}
use atlas_client.World.{World}
use atlas_client.Telemetry.{push_set}
use atlas_client.Telemetry.Endpoints.{
  Alias, feature_of, sysinfo_alerts, packets_alerts, push_answer, push_alert_cb,
}

-- The command with a push rate.
abbrev pub push_rate : ℕ → Cmd
push_rate r = record { type = Types.telemetry_alert_ext_push_rate; value = htons_bytes r }

-- A command that is none: of another type, or without two bytes.
abbrev pub NoRate : Cmd → Type 0
NoRate c = ((c.type == Types.telemetry_alert_ext_push_rate) ≡ false) ⊎ (length c.value ≢ 2)

word_of-length : (value : List ℕ) → length value ≢ 2 → word_of value ≡ none
unfolding word_of
word_of-length [] h = refl
word_of-length (a ∷ []) h = refl
word_of-length (a ∷ b ∷ []) h = absurd (h refl)
word_of-length (a ∷ b ∷ c ∷ cs) h = refl

rate_of-NoRate : (c : Cmd) → NoRate c → rate_of Types.telemetry_alert_ext_push_rate c ≡ none
unfolding rate_of
rate_of-NoRate c (inl other) = ground (arith, other)
rate_of-NoRate c (inr longer) = ground (arith, word_of-length c.value longer)

rate_of-push_rate :
    (r : ℕ) → r < 65536 → rate_of Types.telemetry_alert_ext_push_rate (push_rate r) ≡ some r
unfolding rate_of word_of
rate_of-push_rate r small = ap (λ (n : ℕ). some n) (ntohs-htons r)

first_rate-skipped :
    (c : Cmd) (cs : List Cmd)
    → rate_of Types.telemetry_alert_ext_push_rate c ≡ none
    → first_rate (c ∷ cs) ≡ first_rate cs
unfolding first_rate
first_rate-skipped c cs h = ground (arith, h)

first_rate-found :
    (c : Cmd) (cs : List Cmd) (r : ℕ)
    → rate_of Types.telemetry_alert_ext_push_rate c ≡ some r
    → first_rate (c ∷ cs) ≡ some r
unfolding first_rate
first_rate-found c cs r h = ground (arith, h)

first_rate-append :
    (before after : List Cmd) (r : ℕ)
    → All NoRate before
    → r < 65536
    → first_rate (before ++ push_rate r ∷ after) ≡ some r
first_rate-append [] after r bare small =
    first_rate-found (push_rate r) after r (rate_of-push_rate r small)
first_rate-append (c ∷ cs) after r (h, hs) small =
    first_rate-skipped c (cs ++ push_rate r ∷ after) (rate_of-NoRate c h)
    ∙ first_rate-append cs after r hs small

first_rate-none : (cs : List Cmd) → All NoRate cs → first_rate cs ≡ none
unfolding first_rate
first_rate-none [] h = refl
first_rate-none (c ∷ cs) (h, hs) =
    first_rate-skipped c cs (rate_of-NoRate c h) ∙ first_rate-none cs hs

push_cmd_parse-encode :
    (cs : List Cmd)
    → cs ≢ []
    → All IsCmd cs
    → push_cmd_parse (encode cs) ≡ some (push_found (first_rate cs))
unfolding push_cmd_parse
push_cmd_parse-encode [] nonempty good = absurd (nonempty refl)
push_cmd_parse-encode (c ∷ cs) nonempty good = rw (read_all-encode (c ∷ cs) nonempty good)

-- The features that have an end-point for alerts, by their names.
abbrev pub sysinfo_names : List (List ℕ)
sysinfo_names =
    codes "procs"
    ∷ codes "uptime"
    ∷ codes "freeram"
    ∷ codes "sharedram"
    ∷ codes "bufferram"
    ∷ codes "totalswap"
    ∷ codes "freeswap"
    ∷ codes "load1"
    ∷ codes "load5"
    ∷ codes "load15"
    ∷ []

abbrev pub sysinfo_alert : List ℕ → List ℕ
sysinfo_alert name = codes "client/telemetry/sysinfo/" ++ name ++ codes "/alerts/push"

abbrev pub sysinfo_feature : List ℕ → List ℕ
sysinfo_feature name = codes "gateway/telemetry/sysinfo/" ++ name

sysinfo_routed :
    All
      (λ name. feature_of (sysinfo_alert name) sysinfo_alerts ≡ some (sysinfo_feature name))
      sysinfo_names
unfolding feature_of
sysinfo_routed = (refl, (refl, (refl, (refl, (refl, (refl, (refl, (refl, (refl, (refl, tt))))))))))

abbrev pub packets_alert : List ℕ → List ℕ
packets_alert name = codes "client/telemetry/packets_info/" ++ name ++ codes "/alerts/push"

packets_routed :
    (feature_of (packets_alert (codes "packets_per_min")) packets_alerts
      ≡ some (codes "gateway/telemetry/packets_per_minute"))
    × (feature_of (packets_alert (codes "packets_avg")) packets_alerts
        ≡ some (codes "gateway/telemetry/packets_avg"))
unfolding feature_of
packets_routed = (refl, refl)

append-nonempty : (before after : List Cmd) (c : Cmd) → before ++ c ∷ after ≢ []
append-nonempty [] after c e = cc
append-nonempty (b ∷ before) after c e = cc

push_parsed_err :
    (status : Status)
    → status ≢ ok
    → (e : Status) × (e ≢ ok) × (push_parsed (some (status, [])) ≡ some (e, none))
unfolding push_parsed
push_parsed_err ok h = absurd (h refl)
push_parsed_err _ h = (_, λ e. cc, refl)

push_parsed_lem : (cs : List Cmd) → push_parsed (some (ok, cs)) ≡ some (push_found (first_rate cs))
unfolding push_parsed
push_parsed_lem cs = refl

module _ (env : Environment) where
  push_alert_cb-rate :
      (aliases : List Alias) (uri path : List ℕ) (before after : List Cmd) (r : ℕ) (w : World)
      → feature_of uri aliases ≡ some path
      → All NoRate before
      → All IsCmd (before ++ push_rate r ∷ after)
      → r < 65536
      → push_alert_cb env aliases uri (encode (before ++ push_rate r ∷ after)) w
        ≡ (resp_ok, push_set env (some path) r w)
  unfolding push_alert_cb push_answer push_found
  push_alert_cb-rate aliases uri path before after r w route bare good small =
      rw
        (
          route,
          push_cmd_parse-encode (before ++ push_rate r ∷ after) (append-nonempty before after _)
              good,
          first_rate-append before after r bare small,
        )
        refl

  push_answer-refused :
      (path : Option (List ℕ)) (w : World) (status : Status)
      → status ≢ ok
      → push_answer env path (some (status, none)) w ≡ (not_acceptable_here, w)
  unfolding push_answer
  push_answer-refused path w ok bad = absurd (bad refl)
  push_answer-refused path w _ bad = refl

  push_alert_cb-refused :
      (aliases : List Alias) (uri raw : List ℕ) (w : World)
      → All IsByte raw
      → ((cs : List Cmd) → cs ≢ [] → All IsCmd cs → raw ≡ encode cs → All NoRate cs)
      → push_alert_cb env aliases uri raw w ≡ (not_acceptable_here, w)
  unfolding push_alert_cb push_cmd_parse push_found push_answer
  push_alert_cb-refused aliases uri [] w bytes bare = refl
  push_alert_cb-refused aliases uri (b ∷ bs) w bytes bare = elim (read_all_cases (b ∷ bs) bytes) [
    | inl (cs, nonempty, good, e, read) ↦
        rw (read, push_parsed_lem cs, first_rate-none cs (bare cs nonempty good e)) refl
    | inr (status, bad, read) ↦
        let (refused, other, parsed) = push_parsed_err status bad in
        rw (read, parsed) (push_answer-refused (feature_of uri aliases) w refused other)
  ]

  -- Commands of which the one with this push rate is the first with a rate, as bytes.
  abbrev pub rate_request : List Cmd → ℕ → List Cmd → List ℕ
  rate_request before r after = encode (before ++ push_rate r ∷ after)

  -- A push request whose commands have a rate sets the first one for the feature of its path: the ten features of
  -- the system information and the two of the packets, each by its own path. One that is no encoding of
  -- commands, or has no command with a rate of two bytes, is refused on every path and changes nothing.
  pub push_alert_cb_total :
      (before after : List Cmd) (r : ℕ) (raw : List ℕ) (w : World)
      → All NoRate before
      → All IsCmd (before ++ push_rate r ∷ after)
      → r < 65536
      → All IsByte raw
      → ((cs : List Cmd) → cs ≢ [] → All IsCmd cs → raw ≡ encode cs → All NoRate cs)
      → All
          (λ name.
            push_alert_cb env sysinfo_alerts (sysinfo_alert name) (rate_request before r after) w
            ≡ (resp_ok, push_set env (some (sysinfo_feature name)) r w))
          sysinfo_names
        × (push_alert_cb env packets_alerts
              (packets_alert (codes "packets_per_min"))
              (rate_request before r after)
              w
            ≡ (resp_ok, push_set env (some (codes "gateway/telemetry/packets_per_minute")) r w))
        × (push_alert_cb env packets_alerts
              (packets_alert (codes "packets_avg"))
              (rate_request before r after)
              w
            ≡ (resp_ok, push_set env (some (codes "gateway/telemetry/packets_avg")) r w))
        × ((aliases : List Alias) (uri : List ℕ)
            → push_alert_cb env aliases uri raw w ≡ (not_acceptable_here, w))
  push_alert_cb_total before after r raw w bare good small bytes rateless = (
    All-map
        (λ name route.
          push_alert_cb-rate sysinfo_alerts (sysinfo_alert name) (sysinfo_feature name) before after
            r w route bare good small)
        sysinfo_names sysinfo_routed,
    push_alert_cb-rate packets_alerts _ _ before after r w packets_routed.0 bare good small,
    push_alert_cb-rate packets_alerts _ _ before after r w packets_routed.1 bare good small,
    λ aliases uri. push_alert_cb-refused aliases uri raw w bytes rateless,
  )
