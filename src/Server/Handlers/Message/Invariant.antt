-- ===== src/Server/Handlers/Message/Invariant.antt =====
-- The message handler keeps the server's invariant: what it sends fits a receiver's buffer.
use cpp_socket_chat.Prelude.{
  ℕ, pos, not, Bytes, inl, inr, ltb, length, Bool-cases, not-ltb→le, is_empty, Option-cases,
}
use cpp_socket_chat.Json.{Json}
use cpp_socket_chat.Protocol.{Packet, message_chat, reply}
use cpp_socket_chat.Protocol.Wire.{reply-IsSendable}
use cpp_socket_chat.Server.Clients
use cpp_socket_chat.Server.Clients.{ClientInfo}
use cpp_socket_chat.Server.State.{Server}
use cpp_socket_chat.Server.State.Ensures.{
  Ensures, Ensures-if, Ensures-lift, Ensures-pure, Ensures-modify-pure, Ensures-state,
}
use cpp_socket_chat.Server.State.Invariant.{Inv, broadcast-Inv}
use cpp_socket_chat.Server.Handlers.Message.{message_body, message_from, handle_message}

module _ (json : Json) where
  message_body-Ensures :
      (timestamp : Bytes) (fd : ℕ) (sender : ClientInfo) (packet : Packet)
      → Ensures Inv (λ _. Unit {0}) (message_body json timestamp fd sender packet)
  unfolding message_body
  message_body-Ensures timestamp fd sender packet = Ensures-lift _ _ λ request _.
      Ensures-lift _ _ λ message _. Ensures-lift _ _ λ text _.
        Ensures-if (ltb 1024 (length text)) _ _ (λ _. Ensures-pure tt tt)
          λ fits. Ensures-modify-pure _ λ s i.
            broadcast-Inv (reply message_chat text) sender.room_code (pos fd) s
              (reply-IsSendable message_chat text (λ n e. cc) (not-ltb→le _ _ fits)) i

  -- Whatever the packet, the invariant holds behind the handler.
  pub handle_message-Inv :
      (timestamp : Bytes) (fd : ℕ) (packet : Packet) (s : Server)
      → Inv s
      → Inv (handle_message json timestamp fd packet s)
  unfolding handle_message
  handle_message-Inv timestamp fd packet s i =
      elim (Option-cases (Clients.get_client fd s.client_manager)) [
        | inl e ↦ rw (e, message_from) i
        | inr (c, e) ↦ elim (Bool-cases (not c.is_authenticated)) [
          | inl anonymous ↦ rw (e, message_from, anonymous) i
          | inr known ↦ elim (Bool-cases (is_empty c.room_code)) [
            | inl roomless ↦ rw (e, message_from, known, roomless) i
            | inr housed ↦
                rw (e, message_from, known, housed)
                  (Ensures-state (message_body-Ensures timestamp fd c packet) s i)
          ]
        ]
      ]
