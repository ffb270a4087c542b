-- ===== src/Client/Packets.antt =====
-- PacketHandler of the client (client/src/network/PacketHandler.cpp) and Message
-- (client/include/core/Message.h, client/src/core/Message.cpp). A packet is built by a copy of the text
-- into its payload, with no test of the length: `overflow` is a copy past the end of the `Packet`.
use cpp_socket_chat.Prelude.{
  ℤ, negsuc, Bool, [], ◌∷◌, ◌++◌, Bytes, bytes, length, ltb, nat_beq, if◌then◌else◌,
}
use cpp_socket_chat.Json.{Json, JsonError, parse_error, other_error, Result, ok, throw, ◌>>=◌}
use cpp_socket_chat.Protocol.{
  PacketType, Packet, nickname_request, message_send, create_room, exit_room, join_room,
  room_user_join, room_user_exit, message_system, max_payload_size, reply, empty_reply,
  payload_text,
}

pub data MessageType : Type 0 where
  chat system user_join user_exit : MessageType

pub record Message : Type 0 where
  pub content : Bytes
  pub sender_nickname : Bytes
  pub sender_ip : Bytes
  pub timestamp : Bytes
  pub sender_fd : ℤ
  pub type : MessageType

-- Message::Message()
abbrev pub no_message : Message
no_message = record {
  content = [];
  sender_nickname = [];
  sender_ip = [];
  timestamp = [];
  sender_fd = negsuc 0;
  type = chat;
}

-- Message::FormatForDisplay
unfoldable pub format_for_display : Bool → Message → Bytes
unfolding bytes
format_for_display is_mine m = elim m.type [
  | user_join ↦ bytes "[시스템] " ++ m.sender_nickname ++ bytes "님이 입장하셨습니다."
  | user_exit ↦ bytes "[시스템] " ++ m.sender_nickname ++ bytes "님이 퇴장하셨습니다."
  | system ↦ bytes "[시스템] " ++ m.content
  | chat ↦
      bytes "["
      ++ m.timestamp
      ++ bytes "]"
      ++ (if is_mine
          then bytes "[나] > " ++ m.content
          else (bytes "["
              ++ m.sender_nickname
              ++ bytes "("
              ++ m.sender_ip
              ++ bytes ")] > "
              ++ m.content))
]

pub data Built : Type 0 where
  built : Packet → Built
  overflow : Built
  thrown : JsonError → Built

-- packet.header.size = payload.length(), and the memcpy
unfoldable pub build : PacketType → Result Bytes → Built
build t (ok payload) =
    if ltb max_payload_size (length payload) then overflow else built (reply t payload)
build t (throw e) = thrown e

-- The types of the packets that are no chat message.
abbrev pub message_type : PacketType → MessageType
message_type room_user_join = user_join
message_type room_user_exit = user_exit
message_type message_system = system
message_type _ = chat

-- PacketHandler::CreateRoomExitPacket
unfoldable pub create_room_exit_packet : Packet
create_room_exit_packet = empty_reply exit_room

module _ (json : Json) where
  unfoldable pub create_nickname_request_packet : Bytes → Built
  unfolding build
  create_nickname_request_packet nickname =
      build nickname_request
        (json.dump (json.object ((bytes "nickname", json.of_string nickname) ∷ [])))

  unfoldable pub create_message_send_packet : Bytes → Built
  unfolding build
  create_message_send_packet message =
      build message_send (json.dump (json.object ((bytes "message", json.of_string message) ∷ [])))

  unfoldable pub create_room_create_packet : Bytes → ℤ → Built
  unfolding build
  create_room_create_packet room_name max_users = build create_room (
      json.dump (
        json.object (
          (bytes "roomName", json.of_string room_name)
          ∷ (bytes "maxUsers", json.of_int max_users)
          ∷ [])))

  unfoldable pub create_room_join_packet : Bytes → Built
  unfolding build
  create_room_join_packet room_code =
      build join_room (json.dump (json.object ((bytes "roomCode", json.of_string room_code) ∷ [])))

  -- Only a parse error is caught.
  caught : {A : Type 0} → A → Result A → Result A
  caught d (ok a) = ok a
  caught d (throw (parse_error e)) = ok d
  caught d (throw (other_error e)) = throw (other_error e)

  -- An entry and an exit name the user in other fields.
  renamed : json.Value → MessageType → Message → Result Message
  renamed entries user_join m = do
    nickname ← json.value_string entries (bytes "nickname") []
    client_fd ← json.value_int entries (bytes "clientFd") (negsuc 0)
    ok (record m { sender_nickname = nickname; sender_fd = client_fd })
  renamed entries user_exit m = do
    nickname ← json.value_string entries (bytes "nickname") []
    client_fd ← json.value_int entries (bytes "clientFd") (negsuc 0)
    ok (record m { sender_nickname = nickname; sender_fd = client_fd })
  renamed entries _ m = ok m

  -- The `try` block of ParseMessagePacket.
  read_message : Packet → Result Message
  unfolding renamed
  read_message p = do
    entries ← json.parse (payload_text p)
    timestamp ← json.value_string entries (bytes "timestamp") []
    nickname ← json.value_string entries (bytes "sender_nickname") []
    ip ← json.value_string entries (bytes "sender_ip") []
    content ← json.value_string entries (bytes "message") []
    sender_fd ← json.value_int entries (bytes "sender_fd") (negsuc 0)
    renamed entries (message_type p.type) (record {
      content = content;
      sender_nickname = nickname;
      sender_ip = ip;
      timestamp = timestamp;
      sender_fd = sender_fd;
      type = message_type p.type;
    })

  -- PacketHandler::ParseMessagePacket
  unfoldable pub parse_message_packet : Packet → Result Message
  unfolding caught read_message
  parse_message_packet p = caught no_message (read_message p)

  -- PacketHandler::ParseRoomResponsePacket
  unfoldable pub parse_room_response_packet : Packet → Result Bytes
  unfolding caught
  parse_room_response_packet p =
      if nat_beq p.size 0
      then ok []
      else caught [] (do
        entries ← json.parse (payload_text p)
        json.value_string entries (bytes "roomCode") [])
