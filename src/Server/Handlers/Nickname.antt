-- ===== src/Server/Handlers/Nickname.antt =====
-- NicknameHandler::handle (server/src/domain/handler/NicknameHandler.cpp).
pub mod Invariant
use cpp_socket_chat.Prelude.{ℕ, not, Option, some, Bytes, bytes, if◌then◌else◌}
use cpp_socket_chat.Protocol.{
  Packet, nickname_response_ok, nickname_response_fail, reply, empty_reply, payload_text,
}
use cpp_socket_chat.Server.Handlers.{conclude, refuse, json_failure, has_field, string_field}
use cpp_socket_chat.Json.{Json}
use cpp_socket_chat.Server.Clients
use cpp_socket_chat.Server.State
use cpp_socket_chat.Server.State.{
  Server, Act, pure, lift, gets, modify, ◌>>=◌, ◌>>◌, broadcast_packet_for_room,
}

module _ (json : Json) where
  unfoldable pub nickname_body : ℕ → Packet → Act (Option Packet)
  nickname_body fd packet = do
    request ← lift (json.parse (payload_text packet))
    valid ← lift (has_field json json.is_string request (bytes "nickname"))
    if not valid
        then refuse fd nickname_response_fail
            (bytes "Invalid JSON format: missing 'nickname' field.")
        else do
          nickname ← lift (string_field json request (bytes "nickname"))
          taken ← gets (λ s. Clients.is_nickname_taken nickname s.client_manager)
          if taken
              then pure (some (reply nickname_response_fail (bytes "Duplicated nickname.")))
              else do State.set_nickname fd nickname; pure (some (empty_reply nickname_response_ok))

  unfoldable pub handle_nickname : ℕ → Packet → Server → Server
  handle_nickname fd packet s =
      conclude fd (json_failure nickname_response_fail) (nickname_body fd packet s)
