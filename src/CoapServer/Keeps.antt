-- ===== src/CoapServer/Keeps.antt =====
-- The server's start and its end-points keep the balance of the client's contexts, and the registration.
use atlas_client.Prelude.{
  ℕ, refl, Bool, true, false, not, Option, none, some, List, [], ◌∷◌, ℤ, minus_one, ◌==ℤ◌, ◌==◌,
  arith,
}
use atlas_client.Status.{Status, ok, Method}
use atlas_client.Callbacks.{ServerCallback}
use atlas_client.Environment.{Protocol, udp, dtls, dtls_asked, endpoint_opened, Environment}
use atlas_client.World.{World}
use atlas_client.World.Keeps.{Keeps, Keeps-same, Keeps-then, Keeps-if, Keeps-choice, recorded-Keeps}
use atlas_client.CoapServer.{
  Mode, is_dtls, is_udp, install, add_resource, set_dtls_psk, open_endpoint, drop_context,
  open_dtls, context_opened, get_context, default_resource, init_default_resources, serve_fd,
  serve_context, start,
}
use atlas_client.CoapServer.EndPoints.{EndPoint, on_ok, add_end_points}

module _ (env : Environment) where
  install-Keeps :
      (uri : List ℕ) (method : Method) (cb : ServerCallback) (made : Option ℕ) (w : World)
      → Keeps w (install uri method cb made w).1
  unfolding install
  install-Keeps uri method cb none w = Keeps-same w
  install-Keeps uri method cb (some r) w = record {
    registered = refl;
    ka_count = refl;
    ka_token = refl;
    balance = λ b weight. omega (arith, b weight);
  }

  pub add_resource-Keeps :
      (uri : Option (List ℕ)) (method : Method) (cb : Option ServerCallback) (w : World)
      → Keeps w (add_resource env uri method cb w).1
  unfolding add_resource
  add_resource-Keeps none method cb w = Keeps-same w
  add_resource-Keeps (some uri) method none w = Keeps-same w
  add_resource-Keeps (some uri) method (some cb) w =
      Keeps-then (recorded-Keeps _ w (λ k. refl) (λ k. refl)) (install-Keeps uri method cb _ _)

  on_ok-Keeps :
      (next : World → Status × World) (s : Status) (u w : World)
      → Keeps u w
      → ((v : World) → Keeps v (next v).1)
      → Keeps u (on_ok next (s, w)).1
  unfolding on_ok
  on_ok-Keeps next ok u w h k = Keeps-then h (k w)
  on_ok-Keeps next _ u w h k = h

  pub add_end_points-Keeps : (es : List EndPoint) (w : World) → Keeps w (add_end_points env es w).1
  unfolding add_end_points
  add_end_points-Keeps [] w = Keeps-same w
  add_end_points-Keeps (e ∷ es) w =
      on_ok-Keeps (add_end_points env es) _ w _ (add_resource-Keeps _ _ _ w)
        (λ v. add_end_points-Keeps es v)

  set_dtls_psk-Keeps : (psk : List ℕ) (w : World) → Keeps w (set_dtls_psk env psk w).1
  unfolding set_dtls_psk
  set_dtls_psk-Keeps psk w =
      let asked = recorded-Keeps dtls_asked w (λ k. refl) (λ k. refl) in
      Keeps-choice (env.dtls_supported w.client.timers.history) _ _
        (Keeps-then asked (recorded-Keeps _ _ (λ k. refl) (λ k. refl))) asked

  drop_context-Keeps :
      (ep : Option Protocol) (ctx : ℕ) (w : World) → Keeps w (drop_context ep ctx w).1
  unfolding drop_context
  drop_context-Keeps ep ctx w = record {
    registered = refl;
    ka_count = refl;
    ka_token = refl;
    balance = λ b weight. omega (arith, b weight);
  }

  open_dtls-Keeps :
      (ep : Option Protocol) (mode : Mode) (port ctx : ℕ) (opened : Bool) (w : World)
      → Keeps w (open_dtls env ep mode port ctx (opened, w)).1
  unfolding open_dtls open_endpoint
  open_dtls-Keeps ep mode port ctx false w = drop_context-Keeps none ctx w
  open_dtls-Keeps ep mode port ctx true w =
      let opened = recorded-Keeps (endpoint_opened dtls port) w (λ k. refl) (λ k. refl) in
      Keeps-choice (not (is_dtls mode)) _ _ (Keeps-same w) (
        Keeps-choice (env.new_endpoint w.client.timers.history) _ _ opened
          (Keeps-then opened (drop_context-Keeps ep ctx _)))

  context_opened-Keeps :
      (port : ℕ) (mode : Mode) (psk : List ℕ) (ctx : Option ℕ) (w : World)
      → Keeps w (context_opened env port mode psk ctx w).1
  unfolding context_opened open_endpoint
  context_opened-Keeps port mode psk none w = Keeps-same w
  context_opened-Keeps port mode psk (some ctx) w =
      let keyed = Keeps-if (is_dtls mode) (set_dtls_psk-Keeps psk w) (Keeps-same w) in
      Keeps-choice (is_udp mode) _ _
        (Keeps-then keyed (
          Keeps-then (recorded-Keeps _ _ (λ k. refl) (λ k. refl))
            (open_dtls-Keeps (some udp) mode _ ctx _ _)))
        (Keeps-then keyed (open_dtls-Keeps none mode _ ctx true _))

  get_context-Keeps :
      (port : ℕ) (mode : Mode) (psk : List ℕ) (w : World)
      → Keeps w (get_context env port mode psk w).1
  unfolding get_context
  get_context-Keeps port mode psk w =
      Keeps-then (recorded-Keeps _ w (λ k. refl) (λ k. refl))
        (context_opened-Keeps port mode psk _ _)

  default_resource-Keeps : (made : Option ℕ) (w : World) → Keeps w (default_resource made w)
  unfolding default_resource
  default_resource-Keeps none w = recorded-Keeps _ w (λ k. refl) (λ k. refl)
  default_resource-Keeps (some r) w =
      Keeps-then (recorded-Keeps _ w (λ k. refl) (λ k. refl))
        (recorded-Keeps _ _ (λ k. refl) (λ k. refl))

  init_default_resources-Keeps : (w : World) → Keeps w (init_default_resources env w)
  unfolding init_default_resources
  init_default_resources-Keeps w =
      Keeps-then (recorded-Keeps _ w (λ k. refl) (λ k. refl)) (default_resource-Keeps _ _)

  serve_fd-Keeps : (fd : ℤ) (ctx : ℕ) (w : World) → Keeps w (serve_fd fd ctx w).1
  unfolding serve_fd
  serve_fd-Keeps fd ctx w =
      Keeps-choice (fd ==ℤ minus_one) _ _
        (record {
          registered = refl;
          ka_count = refl;
          ka_token = refl;
          balance = λ b weight. omega (arith, b weight);
        })
        (record { registered = refl; ka_count = refl; ka_token = refl; balance = λ b. b })

  serve_context-Keeps : (ctx : Option ℕ) (w : World) → Keeps w (serve_context env (ctx, w)).1
  unfolding serve_context
  serve_context-Keeps none w = record {
    registered = refl;
    ka_count = refl;
    ka_token = refl;
    balance = λ b. b;
  }
  serve_context-Keeps (some ctx) w =
      Keeps-then (init_default_resources-Keeps w)
        (Keeps-then (recorded-Keeps _ _ (λ k. refl) (λ k. refl)) (serve_fd-Keeps _ ctx _))

  -- Whatever libcoap answers, the start of the server leaves the client as it was.
  pub start-Keeps :
      (port : ℕ) (mode : Mode) (psk : List ℕ) (w : World) → Keeps w (start env port mode psk w).1
  unfolding start
  start-Keeps port mode psk w =
      Keeps-choice (port == 0) _ _ (Keeps-same w)
        (Keeps-then (get_context-Keeps port mode psk w) (serve_context-Keeps _ _))
