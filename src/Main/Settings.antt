-- ===== src/Main/Settings.antt =====
-- What the settings are once the command line is accepted.
use mathlib.Core.Option.{some-injective}
use atlas_client.Prelude.{
  ℕ, ◌<◌, ◌≤◌, ◌≡◌, refl, sym, true, Option, none, some, List, [], ◌∷◌, ℤ, pos, negsuc, ltb, ltb→lt,
  ltb→le, ◌∙◌, Option-cases, length, arith, Bool-cases, inl, inr,
}
use atlas_client.Status.{ok}
use atlas_client.Config.{
  Config, set_hostname, set_port, set_local_iface, set_local_port, port_value, overruns,
}
use atlas_client.Main.CommandLine.{
  Opt, opt_h, opt_p, opt_i, opt_l, opt_unknown, Arg, Options, configured, port_configured,
  take_option, and_then, take_options, all_given, parse_options,
}

-- A number that `set_port` and `set_local_port` accept.
abbrev pub IsPort : ℤ → Type 0
IsPort (pos n) = (0 < n) × (n ≤ 65535)
IsPort (negsuc n) = ⊥

module _ (atoi : List ℕ → ℤ) where
  -- Each option that was given has left its setting.
  pub record AreSet (o : Options) : Type 0 where
    pub hostname : o.hostname_opt ≡ true → length o.config.gw_hostname ≤ 128
    pub gw_port : o.gw_port_opt ≡ true → IsPort (atoi o.config.gw_port)
    pub local_port :
        o.local_port_opt ≡ true → (0 < o.config.local_port) × (o.config.local_port ≤ 65535)

  AllSet : Option Options → Type 0
  AllSet none = Unit
  AllSet (some o) = AreSet o

  port_value-IsPort : (v : ℤ) (n : ℕ) → port_value v ≡ some n → IsPort v × (0 < n) × (n ≤ 65535)
  unfolding port_value
  port_value-IsPort (negsuc m) n h = cc
  port_value-IsPort (pos m) n h = elim (Bool-cases (ltb 0 m)) [
    | inr zero ↦ cc (h, zero)
    | inl above ↦ elim (Bool-cases (ltb 65535 m)) [
      | inl big ↦ cc (h, above, big)
      | inr fits ↦
          let same : m ≡ n = some-injective m n (sym (rw (above, fits) refl) ∙ h) in
          (
            (ltb→lt 0 m above, ltb→le 65535 m fits),
            omega (arith, same, ltb→lt 0 m above),
            omega (arith, same, ltb→le 65535 m fits),
          )
    ]
  ]

  set_port-some :
      (text : List ℕ) (cfg : Config) (n : ℕ)
      → port_value (atoi text) ≡ some n
      → set_port atoi (some text) cfg
        ≡ (ok, record cfg { gw_port = text }, overruns (length text) text)
  unfolding set_port overruns
  set_port-some text cfg n e = rw (set_port, e) refl

  set_local_port-some :
      (text : List ℕ) (cfg : Config) (n : ℕ)
      → port_value (atoi text) ≡ some n
      → set_local_port atoi (some text) cfg ≡ (ok, record cfg { local_port = n })
  unfolding set_local_port
  set_local_port-some text cfg n e = rw (set_local_port, e) refl

  take_option-AllSet :
      (opt : Opt) (arg : Option (List ℕ)) (o : Options)
      → AreSet o
      → AllSet (take_option atoi opt arg o)
  unfolding take_option configured port_configured set_hostname set_local_iface set_port
      set_local_port AllSet
  take_option-AllSet opt_h none o s = tt
  take_option-AllSet opt_h (some text) o s = elim (Bool-cases (ltb 128 (length text))) [
    | inl long ↦ rw long tt
    | inr short ↦ rw short (record {
      hostname = λ g. ltb→le 128 (length text) short;
      gw_port = s.gw_port;
      local_port = s.local_port;
    })
  ]
  take_option-AllSet opt_p none o s = tt
  take_option-AllSet opt_p (some text) o s = elim (Option-cases (port_value (atoi text))) [
    | inl e ↦ rw (e, AllSet) tt
    | inr (n, e) ↦ rw (set_port-some text o.config n e) (record {
      hostname = s.hostname;
      gw_port = λ g. (port_value-IsPort (atoi text) n e).0;
      local_port = s.local_port;
    })
  ]
  take_option-AllSet opt_i none o s = tt
  take_option-AllSet opt_i (some text) o s = record {
    hostname = s.hostname;
    gw_port = s.gw_port;
    local_port = s.local_port;
  }
  take_option-AllSet opt_l none o s = tt
  take_option-AllSet opt_l (some text) o s = elim (Option-cases (port_value (atoi text))) [
    | inl e ↦ rw (e, AllSet) tt
    | inr (n, e) ↦ rw (set_local_port-some text o.config n e) (record {
      hostname = s.hostname;
      gw_port = s.gw_port;
      local_port = λ g. let p = port_value-IsPort (atoi text) n e in (p.1, p.2);
    })
  ]
  take_option-AllSet opt_unknown arg o s = tt

  and_then-AllSet :
      (next : Options → Option Options) (o : Option Options)
      → AllSet o
      → ((p : Options) → AreSet p → AllSet (next p))
      → AllSet (and_then next o)
  unfolding and_then AllSet
  and_then-AllSet next none s h = tt
  and_then-AllSet next (some o) s h = h o s

  take_options-AllSet :
      (args : List Arg) (o : Options) → AreSet o → AllSet (take_options atoi args o)
  unfolding take_options
  take_options-AllSet [] o s = unfold AllSet in s
  take_options-AllSet (a ∷ more) o s =
      and_then-AllSet (take_options atoi more) _ (take_option-AllSet a.opt a.optarg o s)
        (λ p s'. take_options-AllSet more p s')

  given :
      (p o : Options)
      → all_given (some p) ≡ some o
      → (p.hostname_opt ≡ true) × (p.gw_port_opt ≡ true) × (p.local_port_opt ≡ true) × (p ≡ o)
  unfolding all_given
  given p o h = ground arith

  -- What is accepted has every option.
  all_given_lem :
      (r : Option Options) (o : Options)
      → AllSet r
      → all_given r ≡ some o
      → (length o.config.gw_hostname ≤ 128)
        × IsPort (atoi o.config.gw_port)
        × (0 < o.config.local_port)
        × (o.config.local_port ≤ 65535)
  unfolding all_given AllSet
  all_given_lem none o s h = cc
  all_given_lem (some p) o s h =
      let (host, port, local, e) = given p o h in
      rw (sym e) (s.hostname host, s.gw_port port, (s.local_port local).0, (s.local_port local).1)

  -- Once the command line is accepted, whatever its options and their order, the gateway's name has at
  -- most 128 bytes, the gateway's port is a text for which `atoi` gives a port, and the local port is one.
  pub parse_options_lem :
      (args : List Arg) (cfg : Config) (o : Options)
      → parse_options atoi args cfg ≡ some o
      → (length o.config.gw_hostname ≤ 128)
        × IsPort (atoi o.config.gw_port)
        × (0 < o.config.local_port)
        × (o.config.local_port ≤ 65535)
  unfolding parse_options
  parse_options_lem args cfg o h =
      all_given_lem _ o
        (take_options-AllSet args _
          (record { hostname = λ g. cc; gw_port = λ g. cc; local_port = λ g. cc }))
        h
