-- ===== src/Library/Reconnect.antt =====
-- A message that the client's socket did not take: write_to_socket_retry and socket_connect of
-- src/data_plane/atlas_client.c.
use atlas_client.Prelude.{
  ℕ, suc, ◌≡◌, refl, ap, ◌∙◌, Bool, true, false, Option, some, List, [], ◌∷◌, pos, minus_one, ◌==ℤ◌,
  ==ℤ_refl, length, arith,
}
use atlas_client.Commands.Types
use atlas_client.Commands.Wire.{encode}
use atlas_client.Library.{
  LibHistory, lib_closed, socket_made, connect_tried, message_written, Kernel, Library, called,
  batch_bytes, nested, policy_cmds, registration, write_to_socket, connect_loop, open_socket,
  and_then, socket_connect, write_to_socket_retry,
}
use atlas_client.Library.Messages.{build-fits}

-- Nothing but messages since the last connection.
abbrev pub reconnected : LibHistory → Bool
reconnected [] = false
reconnected (connect_tried ∷ h) = true
reconnected (message_written buf ∷ h) = reconnected h
reconnected (_ ∷ h) = false

-- A client that accepts connections and then takes every message whole.
pub record IsUp (kernel : Kernel) : Type 0 where
  pub opens : (h : LibHistory) → (kernel.socket h ==ℤ minus_one) ≡ false
  pub accepts : (h : LibHistory) → kernel.connect h ≡ pos 0
  pub takes :
      (h : LibHistory) (buf : List ℕ) → reconnected h ≡ true → kernel.write h buf ≡ pos (length buf)

abbrev pub registration_message : Library → List ℕ
registration_message s =
    encode (record { type = Types.data_plane_policy; value = encode (policy_cmds s) } ∷ [])

registration_lem : (s : Library) → registration s ≡ (registration_message s, s)
unfolding registration nested batch_bytes policy_cmds
registration_lem s =
    rw
      (
        build-fits (policy_cmds s) (omega arith),
        build-fits (record { type = Types.data_plane_policy; value = encode (policy_cmds s) } ∷ [])
            (omega arith),
      )
      refl

and_then-some : (next : Library → Option Library) (s : Library) → and_then next (some s) ≡ next s
unfolding and_then
and_then-some next s = refl

-- The library on its new connection.
abbrev pub on_new_connection : Kernel → Library → Library
on_new_connection kernel s =
    let fd = kernel.socket (lib_closed s.fd ∷ s.calls) in
    record s { calls = connect_tried ∷ socket_made fd ∷ lib_closed s.fd ∷ s.calls; fd = fd }

module _ (kernel : Kernel) (up : IsUp kernel) where
  write-taken :
      (fuel : ℕ) (buf : List ℕ) (s : Library)
      → reconnected s.calls ≡ true
      → write_to_socket_retry kernel (suc fuel) (buf, s) ≡ some (called (message_written buf) s)
  unfolding write_to_socket_retry write_to_socket
  write-taken fuel buf s h = rw (up.takes s.calls buf h, ==ℤ_refl (pos (length buf))) refl

  socket_connect-up :
      (send : List ℕ × Library → Option Library) (fuel : ℕ) (s : Library)
      → socket_connect kernel send (suc fuel) s ≡ send (registration (on_new_connection kernel s))
  unfolding socket_connect open_socket connect_loop and_then
  socket_connect-up send fuel s = rw (up.opens (lib_closed s.fd ∷ s.calls), up.accepts _) refl

  write-failed :
      (fuel : ℕ) (buf : List ℕ) (s : Library)
      → (kernel.write s.calls buf ==ℤ pos (length buf)) ≡ false
      → write_to_socket_retry kernel (suc fuel) (buf, s)
        ≡ and_then
            (λ c. write_to_socket_retry kernel fuel (buf, c))
            (socket_connect kernel
              (write_to_socket_retry kernel fuel)
              fuel
              (called (message_written buf) s))
  unfolding write_to_socket_retry write_to_socket
  write-failed fuel buf s failed = rw failed refl

  -- Where the client is up again, a message that was not taken is sent after all: the library connects
  -- anew, registers its policy first, and then sends the message once more.
  pub write-resent :
      (fuel : ℕ) (buf : List ℕ) (s : Library)
      → (kernel.write s.calls buf ==ℤ pos (length buf)) ≡ false
      → write_to_socket_retry kernel (suc (suc fuel)) (buf, s)
        ≡ some (
            called (message_written buf) (
              called
                (message_written (registration_message s))
                (on_new_connection kernel (called (message_written buf) s))))
  unfolding policy_cmds
  write-resent fuel buf s failed =
      let s' = called (message_written buf) s in
      let message = registration_message s in
      let registered = called (message_written message) (on_new_connection kernel s') in
      write-failed (suc fuel) buf s failed
      ∙ ap (and_then (λ c. write_to_socket_retry kernel (suc fuel) (buf, c))) (
          socket_connect-up (write_to_socket_retry kernel (suc fuel)) fuel s'
          ∙ ap (write_to_socket_retry kernel (suc fuel))
              (registration_lem (on_new_connection kernel s'))
          ∙ write-taken fuel message (on_new_connection kernel s') refl)
      ∙ and_then-some (λ c. write_to_socket_retry kernel (suc fuel) (buf, c)) registered
      ∙ write-taken fuel buf registered refl
