-- ===== src/CoapClient/Handle.antt =====
-- Which request a response is for: the message handler, and the scheduler's callback behind it.
use atlas_client.Prelude.{
  ◌↔◌, ℕ, ◌≡◌, ◌≢◌, refl, Bool, true, false, none, some, List, [], ◌∷◌, arith, bytes_eq_iff,
  Bool-cases, inl, inr,
}
use atlas_client.CoapClient.{Request, Client, Upcall}
use atlas_client.CoapClient.Receive.{
  Received, token_bytes, validate_token, find_request, mark_request, response_of, message_handler,
}

-- The first request of the context and the session after it is marked is that request, dirty.
find_request-mark_request :
    (ctx session : ℕ) (rs : List Request) (r : Request)
    → find_request ctx session rs ≡ some r
    → find_request ctx session (mark_request ctx session rs) ≡ some (record r { dirty = true })
unfolding find_request mark_request
find_request-mark_request ctx session [] r h = cc
find_request-mark_request ctx session (r' ∷ rs) r h =
    ground (arith, find_request-mark_request ctx session rs r)

-- What the application is called with.
abbrev pub upcall_of : Request → Received → Upcall
upcall_of r received = record {
  callback = r.callback;
  uri = r.uri;
  response = (response_of received).0;
  payload = (response_of received).1;
}

message_handler-accepts :
    (ctx session : ℕ) (sent : Bool) (received : Received) (c : Client) (r : Request)
    → find_request ctx session c.reqs ≡ some r
    → validate_token received r.token ≡ true
    → message_handler ctx session sent received c
      ≡ (record c { reqs = mark_request ctx session c.reqs }, some (upcall_of r received))
unfolding message_handler
message_handler-accepts ctx session sent received c r found valid = ground (arith, found, valid)

message_handler-refuses :
    (ctx session : ℕ) (sent : Bool) (received : Received) (c : Client) (r : Request)
    → find_request ctx session c.reqs ≡ some r
    → validate_token received r.token ≡ false
    → ((message_handler ctx session sent received c).1 ≡ none)
      × ((message_handler ctx session sent received c).0.reqs ≡ c.reqs)
unfolding message_handler
message_handler-refuses ctx session sent received c r found invalid = ground (arith, found, invalid)

message_handler-stray :
    (ctx session : ℕ) (sent : Bool) (received : Received) (c : Client)
    → find_request ctx session c.reqs ≡ none
    → ((message_handler ctx session sent received c).1 ≡ none)
      × ((message_handler ctx session sent received c).0.reqs ≡ c.reqs)
unfolding message_handler
message_handler-stray ctx session sent received c lost = ground (arith, lost)

-- Whose a response is: the request's whose token it brings, byte for byte.
validate_token-token_bytes :
    (received : Received) (n : ℕ)
    → (validate_token received n ≡ true) ↔ (received.token ≡ token_bytes n)
unfolding validate_token
validate_token-token_bytes received n = bytes_eq_iff received.token (token_bytes n)

-- A response is given to the application exactly if its context and its session have a request and it brings the
-- four bytes of the token of the first such request: then that request's callback gets the request's
-- URI, and the request is dirty behind it. A response with other bytes or another number of them, and one
-- for which there is no request, reaches no callback and changes no request.
pub message_handler_lem :
    (ctx session : ℕ) (sent : Bool) (received : Received) (c : Client)
    → let (c', up) = message_handler ctx session sent received c in
      ((r : Request)
        → find_request ctx session c.reqs ≡ some r
        → (received.token ≡ token_bytes r.token
            → (up ≡ some (upcall_of r received))
              × (find_request ctx session c'.reqs ≡ some (record r { dirty = true })))
          × (received.token ≢ token_bytes r.token → (up ≡ none) × (c'.reqs ≡ c.reqs)))
      × (find_request ctx session c.reqs ≡ none → (up ≡ none) × (c'.reqs ≡ c.reqs))
message_handler_lem ctx session sent received c = (
  λ r found.
      let iff = validate_token-token_bytes received r.token in
      (
        λ same.
            rw (message_handler-accepts ctx session sent received c r found (iff.1 same))
              (refl, find_request-mark_request ctx session c.reqs r found),
        λ other. elim (Bool-cases (validate_token received r.token)) [
          | inl valid ↦ absurd (other (iff.0 valid))
          | inr invalid ↦ message_handler-refuses ctx session sent received c r found invalid
        ],
      ),
  λ lost. message_handler-stray ctx session sent received c lost,
)
