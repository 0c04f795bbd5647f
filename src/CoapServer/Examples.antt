-- ===== src/CoapServer/Examples.antt =====
-- Tests of the server: two end-points, a request, and the start.
use atlas_client.Prelude.{◌≡◌, refl, arith, some, List, [], ◌∷◌, ℕ, codes}
use atlas_client.Status.{ok, general_err, put, Response, resp_ok}
use atlas_client.Callbacks.{ServerCallback, sysinfo_push_alert, execute_command}
use atlas_client.Environment.Samples.{last_resource, online, steady}
use atlas_client.World.{World}
use atlas_client.World.Samples.{fresh}
use atlas_client.CoapServer.{
  mode_both, start, get_context, context_opened, set_dtls_psk, open_endpoint, open_dtls,
  serve_context, init_default_resources, default_resource, serve_fd, add_resource, install,
}
use atlas_client.CoapServer.Requests.{handler}
use atlas_client.CoapServer.Samples.{online-IsRegistry, fresh-IsLive}
use atlas_client.CoapServer.EndPoints.{
  EndPoint, on_ok, add_end_points, Registered, add_end_points-Registered, distinct_lem, differs,
  distinct,
}
use atlas_client.CoapServer.Dispatch.{Listens, first, later, answer_by, handler-served}

abbrev two_end_points : List EndPoint
two_end_points =
    record { uri = codes "a"; callback = sysinfo_push_alert }
    ∷ record { uri = codes "b"; callback = execute_command }
    ∷ []

abbrev with_two : World
with_two = (add_end_points online two_end_points fresh).1

-- A callback that gives its payload back.
abbrev echo : ServerCallback → List ℕ → List ℕ → World → Response × List ℕ × World
echo cb uri payload w = (resp_ok, payload, w)

add_end_points-Registered_example :
    Registered online last_resource two_end_points fresh
      (add_end_points online two_end_points fresh)
unfolding distinct differs
add_end_points-Registered_example =
    add_end_points-Registered online last_resource online-IsRegistry two_end_points fresh
      (distinct_lem two_end_points refl) (refl, (refl, tt)) fresh-IsLive

two_listeners : Listens 1 with_two.server.put_listeners (some execute_command)
unfolding add_end_points on_ok add_resource install
two_listeners = later _ _ (λ e. omega (arith, e)) (first _ _ refl)

handler-served_example :
    handler echo put 1 (some (codes "b")) (7 ∷ []) with_two
    ≡ answer_by echo (some execute_command) (codes "b") (7 ∷ []) with_two
handler-served_example =
    handler-served echo put 1 (some execute_command) (codes "b") (7 ∷ []) with_two two_listeners

-- Both end-points of the server are open, and the scheduler watches its descriptor.
started : (start online 5684 mode_both (codes "key") fresh).0 ≡ ok
unfolding start get_context context_opened set_dtls_psk open_endpoint open_dtls serve_context
    init_default_resources default_resource serve_fd
started = refl

refused : (start steady 5684 mode_both (codes "key") fresh).0 ≡ general_err
unfolding start get_context context_opened serve_context
refused = refl
