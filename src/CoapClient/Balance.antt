-- ===== src/CoapClient/Balance.antt =====
-- Every context that libcoap gave is freed, or belongs to a request in the list.
use atlas_client.Prelude.{
  ℕ, ◌+◌, ◌≡◌, refl, Bool, true, Option, none, some, List, [], ◌∷◌, ℤ, pos, negsuc, minus_one,
  arith, ◌++◌, inl, inr, is_neg, Bool-cases, ◌==ℤ◌,
}
use atlas_client.Status.{Status, ok, Method}
use atlas_client.Callbacks.{ClientCallback, AlarmCallback, request_alarm}
use atlas_client.Environment.{
  fd_asked, pdu_created, token_added, host_resolved, uri_split, CoapUri, Pdu, Call, context_created,
  context_freed, History, Environment,
}
use atlas_client.Alarm.{Timers, alarm_set, alarm_cancel}
use atlas_client.Alarm.Cases.{alarm_set_cases, alarm_cancel_cases}
use atlas_client.CoapClient.{
  called, Request, Client, get_new_token, chain_request, add_request, release, chain_and_send,
  request_in_session, request_with_session, request_with_context, request_resolved, request_split,
  resolve_address, client_request,
}

-- Sums over contexts of a number that each has, for any such numbers: with 1 for one context and 0 for the
-- others they count that context.
abbrev pub opens : (ℕ → ℕ) → Call → ℕ
opens weight (context_created (some ctx)) = weight ctx
opens weight _ = 0

abbrev pub frees : (ℕ → ℕ) → Call → ℕ
frees weight (context_freed ctx) = weight ctx
frees weight _ = 0

abbrev pub opened : (ℕ → ℕ) → History → ℕ
opened weight [] = 0
opened weight (c ∷ h) = opens weight c + opened weight h

abbrev pub freed : (ℕ → ℕ) → History → ℕ
freed weight [] = 0
freed weight (c ∷ h) = frees weight c + freed weight h

abbrev pub owned : (ℕ → ℕ) → List Request → ℕ
owned weight [] = 0
owned weight (r ∷ rs) = weight r.ctx + owned weight rs

-- What was opened was freed, belongs to the requests, or is `k`.
abbrev Owes : (ℕ → ℕ) → ℕ → Client → Type 0
Owes weight k c =
    opened weight c.timers.history ≡ freed weight c.timers.history + owned weight c.reqs + k

abbrev pub IsBalanced : Client → Type 0
IsBalanced c = (weight : ℕ → ℕ) → Owes weight 0 c

pub owned-append :
    (weight : ℕ → ℕ) (rs : List Request) (r : Request)
    → owned weight (rs ++ r ∷ []) ≡ owned weight rs + weight r.ctx
owned-append weight [] r = omega arith
owned-append weight (x ∷ rs) r = omega (arith, owned-append weight rs r)

-- An alarm changes neither sum.
pub alarm_set_counts :
    (weight : ℕ → ℕ) (env : Environment) (ms : ℕ) (cb : AlarmCallback) (run_once : Bool)
    (t : Timers)
    → (opened weight (alarm_set env ms cb run_once t).1.history ≡ opened weight t.history)
      × (freed weight (alarm_set env ms cb run_once t).1.history ≡ freed weight t.history)
alarm_set_counts weight env ms cb run_once t = elim (alarm_set_cases env ms cb run_once t) [
  | inl (e, _) ↦ rw e (omega arith, omega arith)
  | inr (inl (e, _)) ↦ rw e (omega arith, omega arith)
  | inr (inr (e, _)) ↦ rw e (omega arith, omega arith)
]

pub alarm_cancel_counts :
    (weight : ℕ → ℕ) (id : ℤ) (t : Timers)
    → (opened weight (alarm_cancel id t).history ≡ opened weight t.history)
      × (freed weight (alarm_cancel id t).history ≡ freed weight t.history)
alarm_cancel_counts weight id t = elim (alarm_cancel_cases id t) [
  | inl (e, _) ↦ rw e (refl, refl)
  | inr (_, _, e) ↦ rw e (omega arith, omega arith)
]

release-Owes :
    (weight : ℕ → ℕ) (session : Option ℕ) (ctx : ℕ) (c : Client)
    → Owes weight (weight ctx) c
    → Owes weight 0 (release session ctx c).1
unfolding release
release-Owes weight session ctx c h = omega (arith, h)

-- A request in the list answers for its context; without one the context is still to be freed.
Chained : (ℕ → ℕ) → ℕ → Status × Client → Type 0
Chained weight ctx (ok, c) = Owes weight 0 c
Chained weight ctx (_, c) = Owes weight (weight ctx) c

chain_and_send-Chained :
    (weight : ℕ → ℕ) (ctx session : ℕ) (pdu : Pdu) (status : Status) (c : Client)
    → Chained weight ctx (status, c)
    → Owes weight 0 (chain_and_send ctx session pdu (status, c)).1
unfolding Chained chain_and_send release
chain_and_send-Chained weight ctx session pdu ok c h = omega (arith, h)
chain_and_send-Chained weight ctx session pdu _ c h = omega (arith, h)

chain_request-Chained :
    (weight : ℕ → ℕ) (entry : Request) (id : ℤ) (t : Timers) (c : Client)
    → opened weight t.history ≡ opened weight c.timers.history
    → freed weight t.history ≡ freed weight c.timers.history
    → Owes weight (weight entry.ctx) c
    → Chained weight entry.ctx (chain_request entry (id, t) c)
unfolding chain_request Chained
chain_request-Chained weight entry id t c o f h = elim (Bool-cases (is_neg id)) [
  | inl failed ↦ rw failed (omega (arith, o, f, h))
  | inr set ↦
      rw set (omega (arith, o, f, h, owned-append weight c.reqs (record entry { alarm_id = id })))
]

module _ (weight : ℕ → ℕ) (env : Environment) where
  add_request-Chained :
      (ctx session : ℕ) (uri : List ℕ) (token ms : ℕ) (cb : ClientCallback) (c : Client)
      → Owes weight (weight ctx) c
      → Chained weight ctx (add_request env ctx session uri token ms cb c)
  unfolding add_request
  add_request-Chained ctx session uri token ms cb c h =
      elim (Bool-cases (env.context_fd c.timers.history ==ℤ minus_one)) [
        | inl failed ↦ rw failed (unfold Chained in omega (arith, h))
        | inr fine ↦
            let asked : Client = called (fd_asked ctx) c in
            let (o, f) = alarm_set_counts weight env ms request_alarm true asked.timers in
            let (id, t) = alarm_set env ms request_alarm true asked.timers in
            rw fine (chain_request-Chained weight _ id t asked o f (omega (arith, h)))
      ]

  request_in_session-IsBalanced :
      (ctx session : ℕ) (uri : List ℕ) (method : Method) (payload : List ℕ) (ms : ℕ)
      (cb : ClientCallback) (c : Client)
      → Owes weight (weight ctx) c
      → Owes weight 0 (request_in_session env ctx session uri method payload ms cb c).1
  unfolding request_in_session get_new_token
  request_in_session-IsBalanced ctx session uri method payload ms cb c h =
      elim (Bool-cases (env.new_pdu c.timers.history)) [
        | inr failed ↦
            rw failed
              (release-Owes weight (some session) ctx (called pdu_created c) (omega (arith, h)))
        | inl made ↦ elim (Bool-cases (env.add_token (pdu_created ∷ c.timers.history))) [
          | inr failed ↦
              rw (made, failed)
                (release-Owes weight (some session) ctx with_token (omega (arith, h)))
          | inl added ↦
              rw (made, added)
                (chain_and_send-Chained weight ctx session pdu _ _ (
                  add_request-Chained ctx session uri c.next_token ms cb with_token
                    (omega (arith, h))))
        ]
      ]
    where
      with_token : Client
      with_token = called (token_added c.next_token) (called pdu_created (get_new_token c).1)

      pdu : Pdu
      pdu = record { method = method; token = c.next_token; uri = uri; payload = payload }

  request_with_session-IsBalanced :
      (ctx : ℕ) (uri : List ℕ) (method : Method) (payload : List ℕ) (ms : ℕ) (cb : ClientCallback)
      (session : Option ℕ) (c : Client)
      → Owes weight (weight ctx) c
      → Owes weight 0 (request_with_session env ctx uri method payload ms cb session c).1
  unfolding request_with_session
  request_with_session-IsBalanced ctx uri method payload ms cb none c h =
      release-Owes weight none ctx c h
  request_with_session-IsBalanced ctx uri method payload ms cb (some s) c h =
      request_in_session-IsBalanced ctx s uri method payload ms cb c h

  -- `before` is the client before libcoap gave the context, or none.
  request_with_context-IsBalanced :
      (is_coaps : Bool) (uri : List ℕ) (method : Method) (payload : List ℕ) (ms : ℕ)
      (cb : ClientCallback) (ctx : Option ℕ) (before : Client)
      → Owes weight 0 before
      → Owes weight 0
          (request_with_context env is_coaps uri method payload ms cb ctx
            (called (context_created ctx) before)).1
  unfolding request_with_context
  request_with_context-IsBalanced is_coaps uri method payload ms cb none before h = omega (arith, h)
  request_with_context-IsBalanced is_coaps uri method payload ms cb (some ctx) before h =
      request_with_session-IsBalanced ctx uri method payload ms cb _ _ (omega (arith, h))

  request_resolved-IsBalanced :
      (is_coaps : Bool) (uri : List ℕ) (method : Method) (payload : List ℕ) (ms : ℕ)
      (cb : ClientCallback) (res : ℤ) (c : Client)
      → Owes weight 0 c
      → Owes weight 0 (request_resolved env is_coaps uri method payload ms cb (res, c)).1
  unfolding request_resolved
  request_resolved-IsBalanced is_coaps uri method payload ms cb (negsuc n) c h = h
  request_resolved-IsBalanced is_coaps uri method payload ms cb (pos n) c h =
      request_with_context-IsBalanced is_coaps uri method payload ms cb
        (env.new_context c.timers.history) c h

  request_split-IsBalanced :
      (uri : List ℕ) (method : Method) (payload : List ℕ) (ms : ℕ) (cb : ClientCallback)
      (u : Option CoapUri) (c : Client)
      → Owes weight 0 c
      → Owes weight 0 (request_split env uri method payload ms cb u c).1
  unfolding request_split resolve_address
  request_split-IsBalanced uri method payload ms cb none c h = h
  request_split-IsBalanced uri method payload ms cb (some u) c h =
      request_resolved-IsBalanced u.is_coaps uri method payload ms cb _
        (called (host_resolved u.host) c) (omega (arith, h))

module _ (env : Environment) where
  pub client_request-IsBalanced :
      (uri : Option (List ℕ)) (method : Method) (payload : List ℕ) (ms : ℕ)
      (cb : Option ClientCallback) (c : Client)
      → IsBalanced c
      → IsBalanced (client_request env uri method payload ms cb c).1
  unfolding client_request
  client_request-IsBalanced none method payload ms cb c h weight = h weight
  client_request-IsBalanced (some uri) method payload ms none c h weight = h weight
  client_request-IsBalanced (some uri) method payload ms (some cb) c h weight =
      request_split-IsBalanced weight env uri method payload ms cb (env.split_uri uri)
        (called (uri_split uri) c) (omega (arith, h weight))
