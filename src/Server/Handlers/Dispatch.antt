-- ===== src/Server/Handlers/Dispatch.antt =====
-- PacketHandler (server/src/domain/handler/PacketHandler.cpp): the handler of each packet type.
pub mod Invariant
pub mod Answers
use cpp_socket_chat.Prelude.{ℕ, Option, none, some, Bytes}
use cpp_socket_chat.Json.{Json}
use cpp_socket_chat.Protocol.{
  PacketType, Packet, nickname_request, message_send, create_room, exit_room, join_room,
}
use cpp_socket_chat.Server.State.{Server}
use cpp_socket_chat.Server.Handlers.Nickname.{handle_nickname}
use cpp_socket_chat.Server.Handlers.Message.{handle_message}
use cpp_socket_chat.Server.Handlers.Rooms.{handle_room}

-- The classes that implement IPacketHandler.
pub data Handler : Type 0 where
  nickname_handler message_handler room_handler : Handler

-- m_handlers, which the constructor fills
unfoldable pub find_handler : PacketType → Option Handler
find_handler nickname_request = some nickname_handler
find_handler message_send = some message_handler
find_handler create_room = some room_handler
find_handler join_room = some room_handler
find_handler exit_room = some room_handler
find_handler _ = none

module _ (json : Json) where
  -- The call of IPacketHandler::handle
  unfoldable pub run_handler : (ℕ → ℕ) → Bytes → ℕ → Packet → Option Handler → Server → Server
  run_handler dis timestamp fd packet (some nickname_handler) s = handle_nickname json fd packet s
  run_handler dis timestamp fd packet (some message_handler) s =
      handle_message json timestamp fd packet s
  run_handler dis timestamp fd packet (some room_handler) s = handle_room json dis fd packet s
  run_handler dis timestamp fd packet none s = s

  -- An unknown type is only logged.
  unfoldable pub handle : (ℕ → ℕ) → Bytes → ℕ → Packet → Server → Server
  unfolding run_handler
  handle dis timestamp fd packet s =
      run_handler dis timestamp fd packet (find_handler packet.type) s
