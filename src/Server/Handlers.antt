-- ===== src/Server/Handlers.antt =====
-- The packet handlers (server/src/domain/handler). Each `try` block is an action that returns the
-- packet to be sent behind it, or `none` after an early return; `Logger` calls have no effect here.
pub mod Rules
pub mod Leads
pub mod Nickname
pub mod Message
pub mod Rooms
pub mod Dispatch
pub mod Answers
use cpp_socket_chat.Prelude.{
  ℕ, ℤ, pos, Bool, true, false, not, ◌||◌, Option, none, some, [], ◌∷◌, ◌++◌, Bytes, bytes,
  is_empty, ltb, length, if◌then◌else◌,
}
use cpp_socket_chat.Json.{Json, JsonError, Result, ok, throw, what}
use cpp_socket_chat.Protocol.{
  PacketType, Packet, nickname_request, message_send, create_room, exit_room, join_room,
  nickname_response_ok, nickname_response_fail, room_create_ok, room_create_fail, room_exit_ok,
  room_exit_fail, room_join_ok, room_join_fail, room_user_join, room_user_exit, message_chat,
  max_payload_size, reply, clipped_reply, empty_reply, payload_text,
}
use cpp_socket_chat.Server.Clients
use cpp_socket_chat.Server.Clients.{ClientInfo}
use cpp_socket_chat.Server.State
use cpp_socket_chat.Server.State.{
  Server, Act, pure, lift, modify, ◌>>=◌, ◌>>◌, send_packet, broadcast_packet_for_room,
}

-- What follows a `try` block: the `catch` clause, and the last `sendPacket`.
unfoldable pub conclude : ℕ → (JsonError → Packet) → Result (Option Packet) × Server → Server
conclude fd handler (ok none, s) = s
conclude fd handler (ok (some p), s) = send_packet fd p s
conclude fd handler (throw e, s) = send_packet fd (handler e) s

-- response.header.type = type; …; server.sendPacket(client_fd, response); return;
unfoldable pub refuse : ℕ → PacketType → Bytes → Act (Option Packet)
refuse fd t reason s = (ok none, send_packet fd (reply t reason) s)

abbrev pub json_failure : PacketType → JsonError → Packet
json_failure t e = clipped_reply t (bytes "JSON parse error: " ++ what e)

abbrev pub std_failure : PacketType → JsonError → Packet
std_failure t e = clipped_reply t (bytes "Error: " ++ what e)

module _ (json : Json) where
  -- j.contains(key) && j[key].is_…()
  unfoldable pub has_field : (json.Value → Bool) → json.Value → Bytes → Result Bool
  has_field test j key = elim (json.contains j key) [
    | false ↦ ok false
    | true ↦ elim (json.index j key) [ ok v ↦ ok (test v) | throw e ↦ throw e ]
  ]

  -- std::string s = j[key];
  unfoldable pub string_field : json.Value → Bytes → Result Bytes
  string_field j key = elim (json.index j key) [ ok v ↦ json.get_string v | throw e ↦ throw e ]

  -- int n = j[key];
  unfoldable pub int_field : json.Value → Bytes → Result ℤ
  int_field j key = elim (json.index j key) [ ok v ↦ json.get_int v | throw e ↦ throw e ]

  -- The text of { "roomCode": code }.
  unfoldable pub room_code_json : Bytes → Result Bytes
  room_code_json code = json.dump (json.object ((bytes "roomCode", json.of_string code) ∷ []))

  -- The text of { "clientFd": fd, "nickname": nickname }, for a user who enters or leaves.
  unfoldable pub user_json : ℕ → ClientInfo → Result Bytes
  user_json fd c = json.dump (
      json.object (
        (bytes "clientFd", json.of_int (pos fd))
        ∷ (
          bytes "nickname",
          json.of_string (if is_empty c.nickname then bytes "Anonymous" else c.nickname),
        )
        ∷ []))
