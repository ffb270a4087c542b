-- ===== src/Server/Handlers/Nickname/Invariant.antt =====
-- The nickname handler keeps the server's invariant: nicknames stay distinct.
use cpp_socket_chat.Prelude.{ℕ, not, some, Bytes, bytes, inl, inr, arith, Bool-cases, if◌then◌else◌}
use cpp_socket_chat.Json.{Json}
use cpp_socket_chat.Protocol.{
  Packet, nickname_response_ok, nickname_response_fail, reply, empty_reply,
}
use cpp_socket_chat.Protocol.Wire.{
  reply-IsSendable, clipped_reply-IsSendable, empty_reply-IsSendable,
}
use cpp_socket_chat.Server.Clients
use cpp_socket_chat.Server.State
use cpp_socket_chat.Server.State.{Server, Act, pure, gets, ◌>>=◌, ◌>>◌}
use cpp_socket_chat.Server.State.Ensures.{Post, Ensures-gets, Ensures-if, Ensures-lift}
use cpp_socket_chat.Server.State.Invariant.{Inv}
use cpp_socket_chat.Server.State.Steps.{set_nickname-Inv}
use cpp_socket_chat.Server.Handlers.Rules.{Fits, IsBody, refuse-IsBody, conclude-Inv}
use cpp_socket_chat.Server.Handlers.Nickname.{nickname_body, handle_nickname}

-- A nickname is set only if it is not taken.
claim-Post :
    (fd : ℕ) (nickname : Bytes) (s : Server)
    → Inv s
    → Post Inv Fits (
        (if Clients.is_nickname_taken nickname s.client_manager
            then pure (some (reply nickname_response_fail (bytes "Duplicated nickname.")))
            else (State.set_nickname fd nickname >> pure (some (empty_reply nickname_response_ok))))
          s)
unfolding ◌>>=◌ State.set_nickname bytes
claim-Post fd nickname s i =
    elim (Bool-cases (Clients.is_nickname_taken nickname s.client_manager)) [
      | inl taken ↦
          rw taken (i, reply-IsSendable nickname_response_fail _ (λ n e. cc) (omega arith))
      | inr free ↦ rw free (
        set_nickname-Inv fd nickname s free i,
        empty_reply-IsSendable nickname_response_ok (λ n e. cc),
      )
    ]

module _ (json : Json) where
  nickname_body-IsBody : (fd : ℕ) (packet : Packet) → IsBody (nickname_body json fd packet)
  unfolding nickname_body bytes
  nickname_body-IsBody fd packet = Ensures-lift _ _ λ request _. Ensures-lift _ _ λ valid _.
      Ensures-if (not valid) _ _
        (λ _. refuse-IsBody fd nickname_response_fail _ (λ n e. cc) (omega arith))
        (λ _. Ensures-lift _ _ λ nickname _. Ensures-gets _ _ λ s i. claim-Post fd nickname s i)

  -- Whatever the packet, the invariant holds behind the handler.
  pub handle_nickname-Inv :
      (fd : ℕ) (packet : Packet) (s : Server) → Inv s → Inv (handle_nickname json fd packet s)
  unfolding handle_nickname
  handle_nickname-Inv fd packet s i =
      conclude-Inv fd _ (nickname_body json fd packet s)
        (λ e. clipped_reply-IsSendable nickname_response_fail _ (λ n x. cc))
        ((nickname_body-IsBody fd packet).at s i)
