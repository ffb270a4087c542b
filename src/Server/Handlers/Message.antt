-- ===== src/Server/Handlers/Message.antt =====
-- MessageHandler::handle (server/src/domain/handler/MessageHandler.cpp). The time at which a message
-- is handled, as the source formats it, is an argument.
pub mod Invariant
pub mod Delivery
pub mod Silent
use cpp_socket_chat.Prelude.{
  ℕ, pos, not, ◌||◌, Option, none, some, [], ◌∷◌, Bytes, bytes, is_empty, ltb, length,
  if◌then◌else◌,
}
use cpp_socket_chat.Protocol.{Packet, message_chat, max_payload_size, reply, payload_text}
use cpp_socket_chat.Json.{Json}
use cpp_socket_chat.Server.Clients
use cpp_socket_chat.Server.State
use cpp_socket_chat.Server.State.{
  Server, Act, pure, lift, gets, modify, ◌>>=◌, ◌>>◌, broadcast_packet_for_room,
}
use cpp_socket_chat.Server.Clients.{ClientInfo}

module _ (json : Json) where
  -- The text of the chat message that goes to the others.
  unfoldable pub chat_json : ℕ → ClientInfo → json.Value → Bytes → json.Value
  chat_json fd sender message timestamp = json.object (
      (bytes "sender_fd", json.of_int (pos fd))
      ∷ (bytes "sender_ip", json.of_string sender.ip)
      ∷ (bytes "sender_nickname", json.of_string sender.nickname)
      ∷ (bytes "message", message)
      ∷ (bytes "timestamp", json.of_string timestamp)
      ∷ [])

  -- The `try` block.
  unfoldable pub message_body : Bytes → ℕ → ClientInfo → Packet → Act (Unit {0})
  message_body timestamp fd sender packet = do
    request ← lift (json.parse (payload_text packet))
    message ← lift (json.index request (bytes "message"))
    text ← lift (json.dump (chat_json fd sender message timestamp))
    if ltb max_payload_size (length text)
        then pure tt
        else modify (broadcast_packet_for_room (reply message_chat text) sender.room_code (pos fd))

  unfoldable pub message_from : Bytes → ℕ → Option ClientInfo → Packet → Server → Server
  message_from timestamp fd none packet s = s
  message_from timestamp fd (some sender) packet s =
      if not sender.is_authenticated
      then s
      else if is_empty sender.room_code
      then s
      else (message_body timestamp fd sender packet s).1

  -- Both `catch` clauses only log.
  unfoldable pub handle_message : Bytes → ℕ → Packet → Server → Server
  unfolding message_from
  handle_message timestamp fd packet s =
      message_from timestamp fd (Clients.get_client fd s.client_manager) packet s
