-- ===== src/CoapServer.antt =====
-- The end-points that the gateway calls: src/coap/atlas_coap_server.h and atlas_coap_server.c. A resource
-- is the address by which libcoap names it.
pub mod Requests
pub mod AllAdded
pub mod Dispatch
pub mod EndPoints
pub mod Keeps
pub mod Samples
pub mod Table
mod Examples
use atlas_client.Prelude.{
  ◌+◌, ◌%◌, ℕ, Bool, true, false, not, ◌&&◌, Option, none, some, List, [], ◌∷◌, ◌++◌, ℤ, minus_one,
  ◌==ℤ◌, ◌==◌, if◌then◌else◌, bytes_eq, take,
}
use atlas_client.Status.{
  Status, ok, general_err, invalid_port, coap_srv_dtls_not_supported, coap_invalid_uri,
  invalid_callback, Method, get, post, put, delete,
}
use atlas_client.Callbacks.{coap_server_sched, ServerCallback}
use atlas_client.Environment.{
  Protocol, udp, dtls, server_context_created, server_context_freed, dtls_asked, server_psk_set,
  endpoint_opened, endpoint_freed, resource_created, handler_registered, resource_added,
  resource_deleted, server_fd_asked, faulted, Environment,
}
use atlas_client.Scheduler.{add_entry}
use atlas_client.World.{World, Server, Listener, recorded, set_timers}

-- atlas_coap_server_mode_t.
pub data Mode : Type 0 where
  mode_udp mode_dtls_psk mode_both : Mode

abbrev pub is_udp : Mode → Bool
is_udp mode_dtls_psk = false
is_udp _ = true

abbrev pub is_dtls : Mode → Bool
is_dtls mode_udp = false
is_dtls _ = true

-- The list of `server_listeners` for a method.
abbrev pub listeners : Method → Server → List Listener
listeners get s = s.get_listeners
listeners post s = s.post_listeners
listeners put s = s.put_listeners
listeners delete s = s.delete_listeners

abbrev pub set_listeners : Method → List Listener → Server → Server
set_listeners get ls s = record s { get_listeners = ls }
set_listeners post ls s = record s { post_listeners = ls }
set_listeners put ls s = record s { put_listeners = ls }
set_listeners delete ls s = record s { delete_listeners = ls }

-- Without the first listener of the path, and that listener.
unfoldable pub unlink : List ℕ → List Listener → List Listener × Option Listener
unlink uri [] = ([], none)
unlink uri (l ∷ ls) =
    let (rest, found) = unlink uri ls in
    if bytes_eq l.uri_path uri then (ls, some l) else (l ∷ rest, found)

-- With the listener that was unlinked. The loop goes on from its freed memory, which is a fault.
unfoldable pub freed : Method → List Listener × Option Listener → World → World
freed method (ls, none) w = w
freed method (ls, some l) w =
    let deleted = record w { server = set_listeners method ls w.server } in
    recorded faulted (recorded (resource_deleted l.uri_path l.resource) deleted)

unfoldable pub del_resource : List ℕ → Method → World → World
del_resource uri method w = freed method (unlink uri (listeners method w.server)) w

-- The resource's handler is that of its method.
unfoldable pub install : List ℕ → Method → ServerCallback → Option ℕ → World → Status × World
install uri method cb none w = (general_err, w)
install uri method cb (some r) w =
    let w' = recorded (resource_added uri r) (recorded (handler_registered r method) w) in
    let l : Listener = record { resource = r; callback = cb; uri_path = uri } in
    (ok, record w' { server = set_listeners method (listeners method w.server ++ l ∷ []) w.server })

-- The label ERROR of `get_context`, with the end-point that is open, or the null pointer.
unfoldable pub drop_context : Option Protocol → ℕ → World → Option ℕ × World
drop_context ep ctx w = (
  none,
  recorded (server_context_freed ctx)
      (recorded (endpoint_freed none) (recorded (endpoint_freed ep) w)),
)

-- The resource of the empty path, whose handler answers with a text. A null resource is a fault.
unfoldable pub default_resource : Option ℕ → World → World
default_resource none w = recorded faulted w
default_resource (some r) w = recorded (resource_added [] r) (recorded (handler_registered r get) w)

-- With the descriptor of the context.
unfoldable pub serve_fd : ℤ → ℕ → World → Status × World
serve_fd fd ctx w =
    let t = w.client.timers in
    let kept = record w { server = record w.server { ctx = some ctx; fd = fd } } in
    if fd ==ℤ minus_one
    then (
      general_err,
      recorded (server_context_freed ctx)
          (record w { server = record w.server { ctx = none; fd = fd } }),
    )
    else (ok, set_timers (record t { sched = add_entry fd (some coap_server_sched) t.sched }) kept)

module _ (env : Environment) where
  -- `none` is a null pointer.
  unfoldable pub add_resource :
      Option (List ℕ) → Method → Option ServerCallback → World → Status × World
  add_resource none method cb w = (coap_invalid_uri, w)
  add_resource (some uri) method none w = (invalid_callback, w)
  add_resource (some uri) method (some cb) w =
      let made = env.new_resource w.client.timers.history in
      install uri method cb made (recorded (resource_created uri made) w)

  -- The static key has 65 bytes, of which 64 are copied.
  unfoldable pub set_dtls_psk : List ℕ → World → Status × World
  set_dtls_psk psk w =
      let supported = env.dtls_supported w.client.timers.history in
      let asked = recorded dtls_asked w in
      if supported
      then (ok, recorded (server_psk_set (take 64 psk)) asked)
      else (coap_srv_dtls_not_supported, asked)

  -- Whether the end-point was opened.
  unfoldable pub open_endpoint : Protocol → ℕ → World → Bool × World
  open_endpoint proto port w =
      (env.new_endpoint w.client.timers.history, recorded (endpoint_opened proto port) w)

  -- From the end-point for UDP on, if there is one.
  unfoldable pub open_dtls : Option Protocol → Mode → ℕ → ℕ → Bool × World → Option ℕ × World
  open_dtls ep mode secure_port ctx (false, w) = drop_context none ctx w
  open_dtls ep mode secure_port ctx (true, w) =
      let (opened, w') = open_endpoint dtls secure_port w in
      if not (is_dtls mode)
      then (some ctx, w)
      else if opened
      then (some ctx, w')
      else drop_context ep ctx w'

  unfoldable pub context_opened : ℕ → Mode → List ℕ → Option ℕ → World → Option ℕ × World
  context_opened port mode psk none w = (none, w)
  context_opened port mode psk (some ctx) w =
      let keyed = if is_dtls mode then (set_dtls_psk psk w).1 else w in
      let secure_port = if is_udp mode && is_dtls mode then (port + 1) % 65536 else port in
      if is_udp mode
      then open_dtls (some udp) mode secure_port ctx (open_endpoint udp port keyed)
      else open_dtls none mode secure_port ctx (true, keyed)

  unfoldable pub get_context : ℕ → Mode → List ℕ → World → Option ℕ × World
  get_context port mode psk w =
      let ctx = env.new_context w.client.timers.history in
      context_opened port mode psk ctx (recorded (server_context_created ctx) w)

  unfoldable pub init_default_resources : World → World
  init_default_resources w =
      let made = env.new_resource w.client.timers.history in
      default_resource made (recorded (resource_created [] made) w)

  -- With what `get_context` returned.
  unfoldable pub serve_context : Option ℕ × World → Status × World
  serve_context (none, w) = (general_err, record w { server = record w.server { ctx = none } })
  serve_context (some ctx, w) =
      let ready = init_default_resources w in
      serve_fd (env.context_fd ready.client.timers.history) ctx (recorded server_fd_asked ready)

  -- atlas_coap_server_start.
  unfoldable pub start : ℕ → Mode → List ℕ → World → Status × World
  start port mode psk w =
      if port == 0 then (invalid_port, w) else serve_context (get_context port mode psk w)
