-- ===== src/CoapClient/Receive.antt =====
-- Responses and timeouts: the other half of src/coap/atlas_coap_client.c.
use atlas_client.Prelude.{
  ℕ, ◌/◌, ◌%◌, Bool, true, false, not, ◌&&◌, Option, none, some, List, [], ◌∷◌, ℤ, ◌==ℤ◌, ◌==◌,
  if◌then◌else◌, bytes_eq,
}
use atlas_client.Status.{Response, resp_ok, not_found, timeout, reset, unknown}
use atlas_client.Environment.{reset_sent, session_released, context_freed}
use atlas_client.Scheduler.{del_entry}
use atlas_client.Alarm
use atlas_client.Alarm.{Timers, alarm_set, alarm_cancel}
use atlas_client.CoapClient.{Request, Client, Upcall, called}

-- The message types of CoAP.
pub data MessageType : Type 0 where
  con non ack rst : MessageType

pub record Received : Type 0 where
  pub type : MessageType
  pub token : List ℕ
  -- The class of the response code.
  pub class : ℕ
  pub payload : List ℕ

-- The bytes of a uint32_t in the host's order.
abbrev pub token_bytes : ℕ → List ℕ
token_bytes n = (n % 256) ∷ (n / 256 % 256) ∷ (n / 65536 % 256) ∷ (n / 16777216 % 256) ∷ []

unfoldable pub validate_token : Received → ℕ → Bool
validate_token received token = bytes_eq received.token (token_bytes token)

-- The first request of a context and a session.
unfoldable pub find_request : ℕ → ℕ → List Request → Option Request
find_request ctx session [] = none
find_request ctx session (r ∷ rs) =
    if r.ctx == ctx && r.session == session then some r else find_request ctx session rs

unfoldable pub mark_request : ℕ → ℕ → List Request → List Request
mark_request ctx session [] = []
mark_request ctx session (r ∷ rs) =
    if r.ctx == ctx && r.session == session
    then record r { dirty = true } ∷ rs
    else r ∷ mark_request ctx session rs

-- What a response with the right token is to the application.
unfoldable pub response_of : Received → Response × List ℕ
response_of received =
    let by_class : Response × List ℕ =
      if received.class == 2
      then (resp_ok, received.payload)
      else if received.class == 4
      then (not_found, [])
      else (unknown, []) in
    elim received.type [ rst ↦ (reset, []) | _ ↦ by_class ]

abbrev pub is_con_or_non : MessageType → Bool
is_con_or_non con = true
is_con_or_non non = true
is_con_or_non _ = false

-- `sent` tells whether libcoap knows the request that is answered.
unfoldable pub message_handler : ℕ → ℕ → Bool → Received → Client → Client × Option Upcall
message_handler ctx session sent received c = elim (find_request ctx session c.reqs) [
  | none ↦ (c, none)
  | some ent ↦
      let (response, payload) = response_of received in
      let stray =
        if is_con_or_non received.type && not sent then called (reset_sent session) c else c in
      if not (validate_token received ent.token) then (stray, none) else (
        record c { reqs = mark_request ctx session c.reqs },
        some (record {
          callback = ent.callback;
          uri = ent.uri;
          response = response;
          payload = payload;
        }),
      )
]

unfoldable pub find_by_fd : ℤ → List Request → Option Request
find_by_fd fd [] = none
find_by_fd fd (r ∷ rs) = if r.coap_fd ==ℤ fd then some r else find_by_fd fd rs

unfoldable pub remove_by_fd : ℤ → List Request → List Request
remove_by_fd fd [] = []
remove_by_fd fd (r ∷ rs) = if r.coap_fd ==ℤ fd then rs else r ∷ remove_by_fd fd rs

-- `coap_client_sched_callback` behind `coap_io_process`.
unfoldable pub finish_request : ℤ → Client → Client
finish_request fd c = elim (find_by_fd fd c.reqs) [
  | none ↦ c
  | some p ↦
      let t = record c.timers { sched = del_entry fd c.timers.sched } in
      let freed = record c {
        timers =
            Alarm.called (context_freed p.ctx)
              (Alarm.called (session_released (some p.session)) (alarm_cancel p.alarm_id t));
        reqs = remove_by_fd fd c.reqs;
      } in
      if p.dirty then freed else c
]

unfoldable pub find_by_alarm : ℤ → List Request → Option Request
find_by_alarm id [] = none
find_by_alarm id (r ∷ rs) = if r.alarm_id ==ℤ id then some r else find_by_alarm id rs

unfoldable pub remove_by_alarm : ℤ → List Request → List Request
remove_by_alarm id [] = []
remove_by_alarm id (r ∷ rs) = if r.alarm_id ==ℤ id then rs else r ∷ remove_by_alarm id rs

-- `request_alarm_cb`: what it calls first,
unfoldable pub timeout_upcall : ℤ → Client → Option Upcall
timeout_upcall id c = elim (find_by_alarm id c.reqs) [
  | none ↦ none
  | some p ↦ some (record { callback = p.callback; uri = p.uri; response = timeout; payload = [] })
]

-- and what it does then.
unfoldable pub drop_timed_out : ℤ → Client → Client
drop_timed_out id c = elim (find_by_alarm id c.reqs) [
  | none ↦ c
  | some p ↦ record c {
    timers = Alarm.called (context_freed p.ctx) (
        Alarm.called (session_released (some p.session))
          (record c.timers { sched = del_entry p.coap_fd c.timers.sched }));
    reqs = remove_by_alarm id c.reqs;
  }
]
