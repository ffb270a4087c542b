-- ===== src/Server/Handlers/Dispatch/Invariant.antt =====
-- Handling a packet keeps the server's invariant, whatever the packet.
use cpp_socket_chat.Prelude.{ℕ, Option, none, some, Bytes}
use cpp_socket_chat.Json.{Json}
use cpp_socket_chat.Protocol.{Packet}
use cpp_socket_chat.Server.State.{Server}
use cpp_socket_chat.Server.State.Invariant.{Inv}
use cpp_socket_chat.Server.Handlers.Nickname.Invariant.{handle_nickname-Inv}
use cpp_socket_chat.Server.Handlers.Message.Invariant.{handle_message-Inv}
use cpp_socket_chat.Server.Handlers.Rooms.Invariant.{handle_room-Inv}
use cpp_socket_chat.Server.Handlers.Dispatch.{
  Handler, nickname_handler, message_handler, room_handler, find_handler, run_handler, handle,
}

module _ (json : Json) (dis : ℕ → ℕ) (timestamp : Bytes) (fd : ℕ) (packet : Packet) where
  run_handler-Inv :
      (h : Option Handler) (s : Server) → Inv s → Inv (run_handler json dis timestamp fd packet h s)
  unfolding run_handler
  run_handler-Inv (some nickname_handler) s i = handle_nickname-Inv json fd packet s i
  run_handler-Inv (some message_handler) s i = handle_message-Inv json timestamp fd packet s i
  run_handler-Inv (some room_handler) s i = handle_room-Inv json dis fd packet s i
  run_handler-Inv none s i = i

  pub handle-Inv : (s : Server) → Inv s → Inv (handle json dis timestamp fd packet s)
  unfolding handle
  handle-Inv s i = run_handler-Inv (find_handler packet.type) s i
