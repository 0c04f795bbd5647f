-- ===== src/CoapServer/Dispatch.antt =====
-- Which callback answers a request: process_request_handler of src/coap/atlas_coap_server.c.
use atlas_client.Prelude.{
  ℕ, ◌≡◌, ◌≢◌, refl, ap, ◌∙◌, Option, none, some, List, [], ◌∷◌, arith, ==_iff,
}
use atlas_client.Status.{Method, get, post, put, delete, Response, resp_ok}
use atlas_client.Callbacks.{ServerCallback}
use atlas_client.Environment.{History, Environment}
use atlas_client.World.{World, Listener}
use atlas_client.CoapServer.Requests.{
  Answer, listener_of, answer_with, call_listener, process_request, get_handler, post_handler,
  put_handler, delete_handler, handler,
}
use atlas_client.CoapServer.{listeners}
use atlas_client.CoapServer.Table.{callback_of, served}

-- The callback of the first listener of a resource, if one has it.
pub data Listens (r : ℕ) : List Listener → Option ServerCallback → Type 0 where
  nobody : Listens r [] none
  first :
      (l : Listener) (ls : List Listener) → l.resource ≡ r → Listens r (l ∷ ls) (some l.callback)
  later :
      {cb : Option ServerCallback} (l : Listener) (ls : List Listener)
      → l.resource ≢ r
      → Listens r ls cb
      → Listens r (l ∷ ls) cb

listener_of-Listens :
    (r : ℕ) (ls : List Listener) (cb : Option ServerCallback)
    → Listens r ls cb
    → callback_of (listener_of r ls) ≡ cb
unfolding listener_of
listener_of-Listens r [] _ nobody = refl
listener_of-Listens r (l ∷ ls) _ (first _ _ e) = rw ((==_iff l.resource r).1 e) refl
listener_of-Listens r (l ∷ ls) cb (later _ _ other h) =
    ground (arith, listener_of-Listens r ls cb h)

-- The answer to the gateway.
abbrev pub reply : Response → List ℕ → Answer
reply resp_ok payload = record { code = resp_ok; payload = payload }
reply code payload = record { code = code; payload = [] }

answer_with_lem :
    (code : Response) (payload : List ℕ) → answer_with code payload ≡ reply code payload
unfolding answer_with
answer_with_lem resp_ok payload = refl
answer_with_lem _ payload = refl

module _ (run : ServerCallback → List ℕ → List ℕ → World → Response × List ℕ × World) where
  -- What becomes of a request that has this callback: the callback is called, and what it gives back is
  -- sent with ATLAS_COAP_RESP_OK only. Without a callback nothing is done.
  abbrev pub answer_by : Option ServerCallback → List ℕ → List ℕ → World → Option Answer × World
  answer_by none uri payload w = (none, w)
  answer_by (some cb) uri payload w =
      (some (reply (run cb uri payload w).0 (run cb uri payload w).1), (run cb uri payload w).2)

  call_listener_lem :
      (uri payload : List ℕ) (l : Option Listener) (w : World)
      → call_listener run uri payload l w ≡ answer_by (callback_of l) uri payload w
  unfolding call_listener
  call_listener_lem uri payload none w = refl
  call_listener_lem uri payload (some l) w =
      ap (λ a. (some a, (run l.callback uri payload w).2)) (answer_with_lem _ _)

  -- The handler of a method with the listener that it finds.
  handler_lem :
      (method : Method) (r : ℕ) (path payload : List ℕ) (w : World)
      → handler run method r (some path) payload w
        ≡ answer_by (callback_of (listener_of r (listeners method w.server))) path payload w
  unfolding handler get_handler post_handler put_handler delete_handler process_request
  handler_lem get r path payload w = call_listener_lem path payload _ w
  handler_lem post r path payload w = call_listener_lem path payload _ w
  handler_lem put r path payload w = call_listener_lem path payload _ w
  handler_lem delete r path payload w = call_listener_lem path payload _ w

  -- The handler that a request's method and resource lead to calls the callback of the first listener of that
  -- resource among the listeners of that method, with the request's path and payload, and answers with
  -- what it gives back; where no listener has the resource it does nothing.
  pub handler-served :
      (method : Method) (r : ℕ) (cb : Option ServerCallback) (path payload : List ℕ) (w : World)
      → Listens r (listeners method w.server) cb
      → handler run method r (some path) payload w ≡ answer_by cb path payload w
  handler-served method r cb path payload w h =
      handler_lem method r path payload w
      ∙ ap (λ c. answer_by c path payload w)
          (listener_of-Listens r (listeners method w.server) cb h)

  -- The same of the server's table, for a path that leads to the resource.
  pub handler-table :
      (env : Environment) (find : History → List ℕ → Option ℕ) (method : Method) (r : ℕ)
      (path payload : List ℕ) (w : World)
      → find w.client.timers.history path ≡ some r
      → handler run method r (some path) payload w
        ≡ answer_by (served env find w path method) path payload w
  handler-table env find method r path payload w h = rw h (handler_lem method r path payload w)
