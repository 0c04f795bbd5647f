-- ===== src/CoapServer/Requests.antt =====
-- What becomes of a request: the handlers of src/coap/atlas_coap_server.c. `run` is the call
-- of a callback: its response, the payload that it gives back, empty where it gives none, and the world.
use atlas_client.Prelude.{ℕ, Option, none, some, List, [], ◌∷◌, ◌==◌, codes, if◌then◌else◌}
use atlas_client.Status.{Method, get, post, put, delete, Response, resp_ok}
use atlas_client.Callbacks.{ServerCallback}
use atlas_client.World.{World, Listener}

-- What the gateway is told: the code, and a payload where there is one.
pub record Answer : Type 0 where
  pub code : Response
  pub payload : List ℕ

-- The first loop: the listener of the resource.
unfoldable pub listener_of : ℕ → List Listener → Option Listener
listener_of resource [] = none
listener_of resource (l ∷ ls) =
    let rest = listener_of resource ls in if l.resource == resource then some l else rest

-- A payload is sent with ATLAS_COAP_RESP_OK only.
unfoldable pub answer_with : Response → List ℕ → Answer
answer_with resp_ok payload = record { code = resp_ok; payload = payload }
answer_with code payload = record { code = code; payload = [] }

-- The resource of the empty path answers with a text, whose code libcoap sets.
abbrev pub get_default_index_handler : Answer
get_default_index_handler = record { code = resp_ok; payload = codes "ATLAS client CoAP server" }

module _ (run : ServerCallback → List ℕ → List ℕ → World → Response × List ℕ × World) where
  -- With the listener, if there is one.
  unfoldable pub call_listener : List ℕ → List ℕ → Option Listener → World → Option Answer × World
  call_listener uri payload none w = (none, w)
  call_listener uri payload (some l) w =
      let (code, back, w') = run l.callback uri payload w in (some (answer_with code back), w')

  -- `none` is a request without a path; the answer `none` is a request that was dropped.
  unfoldable pub process_request :
      List Listener → ℕ → Option (List ℕ) → List ℕ → World → Option Answer × World
  process_request ls resource none payload w = (none, w)
  process_request ls resource (some uri) payload w =
      call_listener uri payload (listener_of resource ls) w

  unfoldable pub get_handler : ℕ → Option (List ℕ) → List ℕ → World → Option Answer × World
  get_handler resource uri payload w = process_request w.server.get_listeners resource uri payload w

  unfoldable pub post_handler : ℕ → Option (List ℕ) → List ℕ → World → Option Answer × World
  post_handler resource uri payload w =
      process_request w.server.post_listeners resource uri payload w

  unfoldable pub put_handler : ℕ → Option (List ℕ) → List ℕ → World → Option Answer × World
  put_handler resource uri payload w = process_request w.server.put_listeners resource uri payload w

  unfoldable pub delete_handler : ℕ → Option (List ℕ) → List ℕ → World → Option Answer × World
  delete_handler resource uri payload w =
      process_request w.server.delete_listeners resource uri payload w

  -- The handler that `add_resource` registers for a method.
  unfoldable pub handler : Method → ℕ → Option (List ℕ) → List ℕ → World → Option Answer × World
  handler get = get_handler
  handler post = post_handler
  handler put = put_handler
  handler delete = delete_handler
