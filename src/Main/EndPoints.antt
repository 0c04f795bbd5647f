-- ===== src/Main/EndPoints.antt =====
-- Which callback a path of the gateway leads to once the parts have added their end-points.
use atlas_client.Prelude.{
  ℕ, ◌≡◌, refl, ◌∙◌, ap, sym, Option, none, some, List, [], ◌∷◌, ◌++◌, ℤ, All-each, All-split,
  codes, Bool, true, false, bytes_eq, if◌then◌else◌,
}
use atlas_client.Status.{Status, ok, Method, put}
use atlas_client.Callbacks.{ServerCallback, execute_command}
use atlas_client.Environment.{History, Environment}
use atlas_client.World.{World}
use atlas_client.CoapServer.Table.{Table, register, IsRegistry, served, IsLive}
use atlas_client.CoapServer.EndPoints.{
  EndPoint, add_end_points, register_all, AreFree, distinct, distinct_lem, differs,
}
use atlas_client.CoapServer.AllAdded.{
  MakesAll, Adds, Adds-none, Adds-then, Adds-AreFree, add_end_points-Adds, add_end_points-first,
}
use atlas_client.CoapServer.Dispatch.{answer_by, handler-table}
use atlas_client.Telemetry.{add}
use atlas_client.Telemetry.Features.{
  Source, sysinfo_sources, packets_sources, add_each, sysinfo_end_points, packets_end_points,
  add_hostname, add_kern_info, add_sysinfo, add_packets_info, features_init,
}
use atlas_client.Execute.{installed, execute_init}
use atlas_client.Events.Requests.{run_server, handler_called, handle_request}

abbrev order_end_point : EndPoint
order_end_point = record { uri = codes "client/approved/command/push"; callback = execute_command }

abbrev pub gateway_end_points : List EndPoint
gateway_end_points = sysinfo_end_points ++ packets_end_points ++ order_end_point ∷ []

installed_lem : (s : Status) (w : World) → (installed (s, w)).1 ≡ w
unfolding installed
installed_lem ok w = refl
installed_lem _ w = refl

-- What the list of end-points has, a table with it has.
register_all-known :
    (es : List EndPoint) (t u : Table) (path : List ℕ) (m : Method) (cb : ServerCallback)
    → ((c : ServerCallback) → t path m ≡ some c → u path m ≡ some c)
    → register_all es t path m ≡ some cb
    → register_all es u path m ≡ some cb
register_all-known [] t u path m cb h known = h cb known
register_all-known (e ∷ es) t u path m cb h known =
    register_all-known es (register e.uri put e.callback t) (register e.uri put e.callback u) path m
      cb (if_known (bytes_eq e.uri path) _) known
  where
    if_known :
        (b : Bool) (o : Option ServerCallback) (c : ServerCallback)
        → (if b then o else t path m) ≡ some c
        → (if b then o else u path m) ≡ some c
    if_known true o c k = k
    if_known false o c k = h c k

add_each-client : (srcs : List Source) (w : World) → (add_each srcs w).client ≡ w.client
unfolding add_each add
add_each-client [] w = refl
add_each-client ((path, cb) ∷ more) w = add_each-client more _

add_each-server : (srcs : List Source) (w : World) → (add_each srcs w).server ≡ w.server
unfolding add_each add
add_each-server [] w = refl
add_each-server ((path, cb) ∷ more) w = add_each-server more _

module _ (env : Environment) (find : History → List ℕ → Option ℕ) (laws : IsRegistry env find)
    (all : MakesAll env) where
  add_each-Adds :
      (srcs : List Source) (w : World) → IsLive env find w → Adds env find [] w (add_each srcs w)
  add_each-Adds srcs w live =
      Adds-none env find w _ (add_each-client srcs w) (add_each-server srcs w) live

  free_parts :
      (w : World)
      → AreFree env find gateway_end_points w
      → AreFree env find sysinfo_end_points w
        × AreFree env find packets_end_points w
        × AreFree env find (order_end_point ∷ []) w
  free_parts w free =
      let is_free = λ (e : EndPoint). find w.client.timers.history e.uri ≡ none in
      let (s, rest) =
        All-split is_free sysinfo_end_points (packets_end_points ++ order_end_point ∷ []) free in
      let (p, o) = All-split is_free packets_end_points (order_end_point ∷ []) rest in (s, p, o)

  -- Features and then end-points.
  group-Adds :
      (srcs : List Source) (es : List EndPoint) (w : World)
      → distinct es ≡ true
      → AreFree env find es w
      → IsLive env find w
      → Adds env find es w (add_end_points env es (add_each srcs w)).1
  unfolding differs
  group-Adds srcs es w d free live =
      let first = add_each-Adds srcs w live in
      Adds-then env find first (
        add_end_points-Adds env find laws all es _ (distinct_lem es d)
          (Adds-AreFree env find first es (All-each (λ e. differs e.uri [] ≡ true) (λ e. refl) es)
            free)
          first.live)

  features_init-Adds :
      (w : World)
      → AreFree env find gateway_end_points w
      → IsLive env find w
      → Adds env find (sysinfo_end_points ++ packets_end_points) w (features_init env w)
  unfolding features_init add_hostname add_kern_info add_sysinfo add_packets_info differs distinct
  features_init-Adds w free live =
      let (free_s, free_p, _) = free_parts w free in
      let a =
        Adds-then env find (add_each-Adds _ w live)
          (add_each-Adds _ _ (add_each-Adds _ w live).live) in
      let b =
        group-Adds sysinfo_sources sysinfo_end_points _ refl
          (Adds-AreFree env find a sysinfo_end_points
            (All-each (λ e. differs e.uri [] ≡ true) (λ e. refl) sysinfo_end_points) free_s)
          a.live in
      let ab = Adds-then env find a b in
      let c =
        group-Adds packets_sources packets_end_points _ refl
          (Adds-AreFree env find ab packets_end_points (refl, (refl, tt)) free_p) ab.live in
      Adds-then env find ab c

  execute_init_lem :
      (w : World) → (execute_init env w).1 ≡ (add_end_points env (order_end_point ∷ []) w).1
  unfolding execute_init
  execute_init_lem w =
      installed_lem _ _
      ∙ sym (
          ap (λ r. r.1) (add_end_points-first env all order_end_point [] w)
          ∙ unfold add_end_points in refl)

  -- Where libcoap makes every resource, and no path of the gateway leads to one yet, the start of the
  -- telemetry and of the orders puts exactly their fourteen end-points into the server's table.
  pub init-served :
      (w : World)
      → AreFree env find gateway_end_points w
      → IsLive env find w
      → served env find (execute_init env (features_init env w)).1
        ≡ register_all gateway_end_points (served env find w)
  unfolding differs
  init-served w free live =
      let f = features_init-Adds w free live in
      let (_, _, free_o) = free_parts w free in
      let o =
        add_end_points-Adds env find laws all (order_end_point ∷ []) (features_init env w) (tt, tt)
          (Adds-AreFree env find f (order_end_point ∷ []) (refl, tt) free_o) f.live in
      rw (execute_init_lem (features_init env w)) (Adds-then env find f o).table

  -- Where libcoap keeps resources as the laws say and makes each that it is asked for, and no path of the
  -- gateway leads to a resource before, each listener being that of its path: in the world that the
  -- start of the telemetry and of the orders ends in, a PUT request to one of their paths is answered by
  -- the callback that the list of end-points has for the path, whatever its payload.
  pub init-answered :
      (strtol : List ℕ → ℤ × Bool) (w : World) (path payload : List ℕ) (cb : ServerCallback) (r : ℕ)
      → AreFree env find gateway_end_points w
      → IsLive env find w
      → register_all gateway_end_points (λ p m. none) path put ≡ some cb
      → (let v = (execute_init env (features_init env w)).1 in
          find v.client.timers.history path ≡ some r
          → handle_request env strtol (handler_called put r (some path) payload) v
            ≡ answer_by (run_server env strtol) (some cb) path payload v)
  unfolding handle_request
  init-answered strtol w path payload cb r free live known found =
      handler-table (run_server env strtol) env find put r path payload _ found
      ∙ ap
          (λ c.
            answer_by (run_server env strtol) c path payload
              (execute_init env (features_init env w)).1)
          (ap (λ t. t path put) (init-served w free live)
            ∙ register_all-known gateway_end_points (λ p m. none) (served env find w) path put cb
                (λ c k. cc) known)
