-- ===== src/CoapClient.antt =====
-- Requests to the gateway: src/coap/atlas_coap_client.h and atlas_coap_client.c. A context and a
-- session are the numbers by which libcoap names them. An application callback is the last thing that
-- a handler does, or is done before the rest of it: the handler returns it as an `Upcall`, which
-- `Events` runs.
pub mod Balance
pub mod Dtls
pub mod Ends
pub mod Receive
pub mod Handle
mod Examples
use atlas_client.Prelude.{
  ℕ, ◌+◌, ◌/◌, ◌%◌, Bool, true, false, not, ◌&&◌, ◌||◌, Option, none, some, List, [], ◌∷◌, ◌++◌, ℤ,
  pos, minus_one, is_neg, ◌==ℤ◌, ◌==◌, if◌then◌else◌, bytes_eq,
}
use atlas_client.Status.{
  Status, ok, general_err, coap_invalid_uri, invalid_callback, Response, resp_ok, not_found,
  timeout, reset, unknown, Method,
}
use atlas_client.Callbacks.{coap_client_sched, request_alarm, ClientCallback}
use atlas_client.Environment.{
  Family, inet, inet6, other_family, CoapUri, Pdu, Call, uri_split, host_resolved, context_created,
  session_created, pdu_created, token_added, fd_asked, request_sent, reset_sent, session_released,
  context_freed, Environment,
}
use atlas_client.Scheduler.{add_entry, del_entry}
use atlas_client.Alarm
use atlas_client.Alarm.{Timers, alarm_set, alarm_cancel}

-- atlas_coap_client_req_t.
pub record Request : Type 0 where
  pub coap_fd : ℤ
  pub alarm_id : ℤ
  pub ctx : ℕ
  pub session : ℕ
  pub uri : List ℕ
  pub token : ℕ
  pub callback : ClientCallback
  pub dirty : Bool

pub record Client : Type 0 where
  pub timers : Timers
  -- The list that `req_entry` heads.
  pub reqs : List Request
  -- The static counter of `get_new_token`, a uint32_t.
  pub next_token : ℕ

-- A call of an application callback. The null payload is the empty one.
pub record Upcall : Type 0 where
  pub callback : ClientCallback
  pub uri : List ℕ
  pub response : Response
  pub payload : List ℕ

abbrev pub called : Call → Client → Client
called call c = record c { timers = Alarm.called call c.timers }

unfoldable pub get_new_token : Client → ℕ × Client
get_new_token c = (c.next_token, record c { next_token = (c.next_token + 1) % 4294967296 })

unfoldable pub first_inet : List (Family × ℕ) → Option ℕ
first_inet [] = none
first_inet ((inet, len) ∷ infos) = some len
first_inet ((inet6, len) ∷ infos) = some len
first_inet ((other_family, len) ∷ infos) = first_inet infos

-- The alarm is set, or not: `id` is what `alarm_set` returned.
unfoldable pub chain_request : Request → ℤ × Timers → Client → Status × Client
chain_request entry (id, t) c = if is_neg id then (general_err, record c { timers = t }) else (
  ok,
  record c {
    timers = record t { sched = add_entry entry.coap_fd (some coap_client_sched) t.sched };
    reqs = c.reqs ++ record entry { alarm_id = id } ∷ [];
  },
)

-- The label ERR, with the session or the null pointer.
unfoldable pub release : Option ℕ → ℕ → Client → Status × Client
release session ctx c =
    (general_err, called (context_freed ctx) (called (session_released session) c))

-- From the request's chaining on; its only error is the general one.
unfoldable pub chain_and_send : ℕ → ℕ → Pdu → Status × Client → Status × Client
chain_and_send ctx session pdu (ok, c) = (ok, called (request_sent session pdu) c)
chain_and_send ctx session pdu (_, c) = release (some session) ctx c

module _ (env : Environment) where
  -- The length of the first internet address, or -1. Without one `len` is returned unassigned.
  unfoldable pub resolve_address : List ℕ → Client → ℤ × Client
  unfolding first_inet
  resolve_address host c =
      let history = c.timers.history in
      (
        elim (env.getaddrinfo history host) [
          | none ↦ minus_one
          | some infos ↦ elim (first_inet infos) [
            | none ↦ env.uninitialised history
            | some len ↦ pos len
          ]
        ],
        called (host_resolved host) c,
      )

  unfoldable pub add_request : ℕ → ℕ → List ℕ → ℕ → ℕ → ClientCallback → Client → Status × Client
  add_request ctx session uri token ms cb c =
      let fd = env.context_fd c.timers.history in
      let c' = called (fd_asked ctx) c in
      let entry : Request = record {
        coap_fd = fd;
        alarm_id = minus_one;
        ctx = ctx;
        session = session;
        uri = uri;
        token = token;
        callback = cb;
        dirty = false;
      } in
      if fd ==ℤ minus_one
      then (general_err, c')
      else chain_request entry (alarm_set env ms request_alarm true c'.timers) c'

  unfoldable pub request_in_session :
      ℕ → ℕ → List ℕ → Method → List ℕ → ℕ → ClientCallback → Client → Status × Client
  request_in_session ctx session uri method payload ms cb c =
      let made = env.new_pdu c.timers.history in
      let (token, c') = get_new_token (called pdu_created c) in
      let added = env.add_token c'.timers.history in
      let pdu : Pdu = record { method = method; token = token; uri = uri; payload = payload } in
      if not made
      then release (some session) ctx (called pdu_created c)
      else if not added
      then release (some session) ctx (called (token_added token) c')
      else chain_and_send ctx session pdu
          (add_request ctx session uri token ms cb (called (token_added token) c'))

  -- With the session that libcoap gave, or none.
  unfoldable pub request_with_session :
      ℕ → List ℕ → Method → List ℕ → ℕ → ClientCallback → Option ℕ → Client → Status × Client
  request_with_session ctx uri method payload ms cb none c = release none ctx c
  request_with_session ctx uri method payload ms cb (some s) c =
      request_in_session ctx s uri method payload ms cb c

  -- With the context that libcoap gave, or none.
  unfoldable pub request_with_context :
      Bool → List ℕ → Method → List ℕ → ℕ → ClientCallback → Option ℕ → Client → Status × Client
  request_with_context is_coaps uri method payload ms cb none c = (general_err, c)
  request_with_context is_coaps uri method payload ms cb (some ctx) c =
      let session = env.new_session c.timers.history in
      request_with_session ctx uri method payload ms cb session
        (called (session_created is_coaps session) c)

  -- From the resolved address on.
  unfoldable pub request_resolved :
      Bool → List ℕ → Method → List ℕ → ℕ → ClientCallback → ℤ × Client → Status × Client
  request_resolved is_coaps uri method payload ms cb (res, c) =
      let ctx = env.new_context c.timers.history in
      let rest =
        request_with_context is_coaps uri method payload ms cb ctx
          (called (context_created ctx) c) in
      if is_neg res then (general_err, c) else rest

  -- With the parts of the URI, or none.
  unfoldable pub request_split :
      List ℕ → Method → List ℕ → ℕ → ClientCallback → Option CoapUri → Client → Status × Client
  request_split uri method payload ms cb none c = (general_err, c)
  request_split uri method payload ms cb (some u) c =
      request_resolved u.is_coaps uri method payload ms cb (resolve_address u.host c)

  -- `none` is a null pointer.
  unfoldable pub client_request :
      Option (List ℕ) → Method → List ℕ → ℕ → Option ClientCallback → Client → Status × Client
  client_request none method payload ms cb c = (coap_invalid_uri, c)
  client_request (some uri) method payload ms none c = (invalid_callback, c)
  client_request (some uri) method payload ms (some cb) c =
      request_split uri method payload ms cb (env.split_uri uri) (called (uri_split uri) c)
