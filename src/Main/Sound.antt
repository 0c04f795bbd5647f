-- ===== src/Main/Sound.antt =====
-- The program from its start on: the start leaves a sound world, and so does every event after it.
use atlas_client.Prelude.{
  ℕ, sym, ◌≡◌, refl, Bool, true, false, Option, none, some, List, [], ◌∷◌, ℤ, minus_one, ◌==ℤ◌,
  ◌==◌, if◌then◌else◌,
}
use mathlib.Core.Option.{some-injective}
use atlas_client.Status.{Status, ok}
use atlas_client.Environment.{
  Environment, socket_unlinked, socket_created, socket_bound, socket_listened,
}
use atlas_client.Identity.{Files, Keys}
use atlas_client.World.{World}
use atlas_client.World.Keeps.{
  Keeps, Keeps-same, Keeps-then, Keeps-choice, recorded-Keeps, IsSound, Keeps-IsSound,
}
use atlas_client.CoapClient.Dtls.{DtlsInfo}
use atlas_client.CoapServer.Keeps.{add_resource-Keeps, add_end_points-Keeps, start-Keeps}
use atlas_client.Connector.Start.{listen_on, bind_socket, open_socket, connector_start}
use atlas_client.Register.{register_start}
use atlas_client.Register.Keeps.{send_register_command-Keeps}
use atlas_client.Telemetry.{add}
use atlas_client.Telemetry.Features.{
  Source, add_each, add_hostname, add_kern_info, add_sysinfo, add_packets_info, features_init,
}
use atlas_client.Execute.{installed, execute_init}
use atlas_client.Events.Reach.{Reach, Reach-IsSound}
use atlas_client.Main.CommandLine.{Arg, Options}
use atlas_client.Main.{
  Boot, with_keys, start_modules, start_connector, start_network, start_identity, start_as,
  with_options, main,
}

add_each-Keeps : (srcs : List Source) (w : World) → Keeps w (add_each srcs w)
unfolding add_each add
add_each-Keeps [] w = Keeps-same w
add_each-Keeps ((path, cb) ∷ more) w =
    Keeps-then (record { registered = refl; ka_count = refl; ka_token = refl; balance = λ b. b })
      (add_each-Keeps more _)

installed-Keeps : (s : Status) (u w : World) → Keeps u w → Keeps u (installed (s, w)).1
unfolding installed
installed-Keeps ok u w h = h
installed-Keeps _ u w h = h

module _ (env : Environment) where
  features_init-Keeps : (w : World) → Keeps w (features_init env w)
  unfolding features_init add_hostname add_kern_info add_sysinfo add_packets_info
  features_init-Keeps w = Keeps-then (add_each-Keeps _ w) (
      Keeps-then (add_each-Keeps _ _) (
        Keeps-then (Keeps-then (add_each-Keeps _ _) (add_end_points-Keeps env _ _))
          (Keeps-then (add_each-Keeps _ _) (add_end_points-Keeps env _ _))))

  execute_init-Keeps : (w : World) → Keeps w (execute_init env w).1
  unfolding execute_init
  execute_init-Keeps w = installed-Keeps _ w _ (add_resource-Keeps env _ _ _ w)

  listen_on-Keeps : (fd : ℤ) (w : World) → Keeps w (listen_on env fd w).1
  unfolding listen_on
  listen_on-Keeps fd w =
      let heard = recorded-Keeps socket_listened w (λ k. refl) (λ k. refl) in
      Keeps-choice (env.listen w.client.timers.history ==ℤ minus_one) _ _ heard
        (record { registered = refl; ka_count = refl; ka_token = refl; balance = heard.balance })

  bind_socket-Keeps : (fd : ℤ) (w : World) → Keeps w (bind_socket env fd w).1
  unfolding bind_socket
  bind_socket-Keeps fd w =
      let bound = recorded-Keeps socket_bound w (λ k. refl) (λ k. refl) in
      Keeps-choice (env.bind w.client.timers.history ==ℤ minus_one) _ _ bound
        (Keeps-then bound (listen_on-Keeps fd _))

  open_socket-Keeps : (fd : ℤ) (w : World) → Keeps w (open_socket env fd w).1
  unfolding open_socket
  open_socket-Keeps fd w =
      Keeps-choice (fd ==ℤ minus_one) _ _ (Keeps-same w) (bind_socket-Keeps fd w)

  connector_start-Keeps : (w : World) → Keeps w (connector_start env w).1
  unfolding connector_start
  connector_start-Keeps w =
      Keeps-then (recorded-Keeps socket_unlinked w (λ k. refl) (λ k. refl)) (
        Keeps-then (recorded-Keeps socket_created _ (λ k. refl) (λ k. refl))
          (open_socket-Keeps _ _))

  -- A start that gives a state gives a sound one.
  GivesSound : Option Boot → Type 0
  GivesSound r = (b : Boot) → r ≡ some b → IsSound b.world

  some-GivesSound : (b : Boot) → IsSound b.world → GivesSound (some b)
  unfolding GivesSound
  some-GivesSound b s c e = rw (sym (some-injective b c e)) s

  none-GivesSound : GivesSound none
  unfolding GivesSound
  none-GivesSound c e = cc

  if-GivesSound : (b : Bool) (r : Option Boot) → GivesSound r → GivesSound (if b then r else none)
  if-GivesSound true r h = h
  if-GivesSound false r h = none-GivesSound

  start_modules-GivesSound :
      (b : Boot) (s : Status) (w : World) → IsSound w → GivesSound (start_modules env b (s, w))
  unfolding start_modules
  start_modules-GivesSound b ok w s =
      some-GivesSound _
        (Keeps-IsSound (Keeps-then (features_init-Keeps w) (execute_init-Keeps _)) s)
  start_modules-GivesSound b _ w s = none-GivesSound

  start_connector-GivesSound :
      (b : Boot) (s : Status) (w : World) → IsSound w → GivesSound (start_connector env b (s, w))
  unfolding start_connector
  start_connector-GivesSound b ok w s =
      start_modules-GivesSound b _ _ (Keeps-IsSound (connector_start-Keeps w) s)
  start_connector-GivesSound b _ w s = none-GivesSound

  start_network-GivesSound :
      (b : Boot) (s : Status) (info : DtlsInfo)
      → IsSound b.world
      → GivesSound (start_network env b (s, info))
  unfolding start_network register_start
  start_network-GivesSound b ok info s = start_connector-GivesSound _ _ _ (
      Keeps-IsSound (Keeps-then (send_register_command-Keeps env b.world) (start-Keeps env _ _ _ _))
        s)
  start_network-GivesSound b _ info s = none-GivesSound

  start_identity-GivesSound :
      (b : Boot) (s : Status) (k : Keys)
      → IsSound b.world
      → GivesSound (start_identity env b (s, k))
  unfolding start_identity with_keys
  start_identity-GivesSound b ok k s =
      start_network-GivesSound _ _ _
        (record { balance = s.balance; count_byte = s.count_byte; token_word = s.token_word })
  start_identity-GivesSound b _ k s = none-GivesSound

  with_options-GivesSound :
      (euid : ℕ) (files : Files) (b : Boot) (o : Option Options)
      → IsSound b.world
      → GivesSound (with_options env euid files b o)
  unfolding with_options start_as
  with_options-GivesSound euid files b none s = none-GivesSound
  with_options-GivesSound euid files b (some o) s = if-GivesSound (euid == 0) _ (
      start_identity-GivesSound _ _ _
        (record { balance = s.balance; count_byte = s.count_byte; token_word = s.token_word }))

  -- Whatever the command line, the files, libcoap and the kernel answer: where the program starts from a
  -- sound world and reaches its loop, every world that its events lead to from there is sound.
  pub main-Reach-IsSound :
      (atoi : List ℕ → ℤ) (args : List Arg) (euid : ℕ) (files : Files) (b b' : Boot) {w : World}
      → IsSound b.world
      → main env atoi args euid files b ≡ some b'
      → Reach env b'.world w
      → IsSound w
  unfolding main GivesSound
  main-Reach-IsSound atoi args euid files b b' s e r =
      Reach-IsSound env r (with_options-GivesSound euid files b _ s b' e)
