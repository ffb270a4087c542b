-- ===== src/Server/Handlers/Rooms.antt =====
-- RoomHandler (server/src/domain/handler/RoomHandler.cpp).
pub mod Invariant
pub mod Creator
pub mod Effect
pub mod Joins
pub mod Creates
pub mod Twice
use cpp_socket_chat.Prelude.{
  ℕ, pos, Bool, true, false, not, Option, none, some, [], Bytes, bytes, is_empty, if◌then◌else◌,
}
use cpp_socket_chat.Protocol.{
  PacketType, Packet, create_room, exit_room, join_room, room_create_ok, room_create_fail,
  room_exit_ok, room_exit_fail, room_join_ok, room_join_fail, room_user_join, room_user_exit, reply,
  clipped_reply, empty_reply, payload_text,
}
use cpp_socket_chat.Server.Handlers.{
  conclude, refuse, json_failure, std_failure, has_field, string_field, int_field, room_code_json,
  user_json,
}
use cpp_socket_chat.Json.{Json}
use cpp_socket_chat.Server.Clients
use cpp_socket_chat.Server.State
use cpp_socket_chat.Server.State.{
  Server, Act, pure, lift, gets, modify, ◌>>=◌, ◌>>◌, broadcast_packet_for_room,
}
use cpp_socket_chat.Server.Clients.{ClientInfo}

-- if (joined) client->roomCode = roomCode;
unfoldable pub enter_if : ℕ → Bytes → Bool → Act (Unit {0})
enter_if fd code true = State.set_room_code fd code
enter_if fd code false = pure tt

-- The creator of a room is put into it, if the client is known.
unfoldable pub enter_created : ℕ → Bytes → Option ClientInfo → Act (Unit {0})
unfolding enter_if
enter_created fd code none = pure tt
enter_created fd code (some client) = do joined ← State.join_room fd code; enter_if fd code joined

module _ (json : Json) where
  -- The end of handleCreateRoom's `try` block, from the code that addRoom returns.
  unfoldable pub created : ℕ → Bytes → Act (Option Packet)
  created fd code =
      if is_empty code
      then pure (
          some
            (reply room_create_fail (bytes "Failed to create room. Maximum room count reached.")))
      else do
        client ← State.get_client fd
        enter_created fd code client
        text ← lift (room_code_json json code)
        pure (some (clipped_reply room_create_ok text))

  unfoldable pub create_body : (ℕ → ℕ) → ℕ → Packet → Act (Option Packet)
  create_body dis fd packet = do
    request ← lift (json.parse (payload_text packet))
    has_name ← lift (has_field json json.is_string request (bytes "roomName"))
    if not has_name
        then refuse fd room_create_fail (bytes "Invalid JSON format: missing 'roomName' field.")
        else do
          has_limit ← lift (has_field json json.is_number request (bytes "maxUsers"))
          if not has_limit
              then refuse fd room_create_fail
                  (bytes "Invalid JSON format: missing 'maxUsers' field.")
              else do
                room_name ← lift (string_field json request (bytes "roomName"))
                max_users ← lift (int_field json request (bytes "maxUsers"))
                code ← State.add_room dis room_name max_users
                created fd code

  unfoldable pub handle_create_room : (ℕ → ℕ) → ℕ → Packet → Server → Server
  handle_create_room dis fd packet s =
      conclude fd (json_failure room_create_fail) (create_body dis fd packet s)

  -- The end of handleJoinRoom's `try` block, from the result of joinRoom.
  unfoldable pub admitted : ℕ → Bytes → ClientInfo → Bool → Act (Option Packet)
  admitted fd code client false =
      pure (some (reply room_join_fail (bytes "Failed to join room. Room not found or full.")))
  admitted fd code client true = do
    State.set_room_code fd code
    text ← lift (room_code_json json code)
    user ← lift (user_json json fd client)
    modify (broadcast_packet_for_room (clipped_reply room_user_join user) code (pos fd))
    pure (some (clipped_reply room_join_ok text))

  -- From the result of getClient.
  unfoldable pub join_as : ℕ → Bytes → Option ClientInfo → Act (Option Packet)
  join_as fd code none = refuse fd room_join_fail (bytes "Client not found.")
  join_as fd code (some client) =
      if not (is_empty client.room_code)
      then refuse fd room_join_fail (bytes "Already in another room. Please exit first.")
      else do success ← State.join_room fd code; admitted fd code client success

  unfoldable pub join_body : ℕ → Packet → Act (Option Packet)
  join_body fd packet = do
    request ← lift (json.parse (payload_text packet))
    has_code ← lift (has_field json json.is_string request (bytes "roomCode"))
    if not has_code
        then refuse fd room_join_fail (bytes "Invalid JSON format: missing 'roomCode' field.")
        else do
          code ← lift (string_field json request (bytes "roomCode"))
          client ← State.get_client fd
          join_as fd code client

  unfoldable pub handle_join_room : ℕ → Packet → Server → Server
  handle_join_room fd packet s = conclude fd (json_failure room_join_fail) (join_body fd packet s)

  -- From the result of getClient.
  unfoldable pub exit_as : ℕ → Option ClientInfo → Act (Option Packet)
  exit_as fd none = refuse fd room_exit_fail (bytes "Client not found.")
  exit_as fd (some client) =
      if is_empty client.room_code then refuse fd room_exit_fail (bytes "Not in any room.") else do
        user ← lift (user_json json fd client)
        modify (
            broadcast_packet_for_room (clipped_reply room_user_exit user) client.room_code (pos fd))
        State.leave_room fd client.room_code
        State.set_room_code fd []
        pure (some (empty_reply room_exit_ok))

  unfoldable pub exit_body : ℕ → Act (Option Packet)
  exit_body fd = do client ← State.get_client fd; exit_as fd client

  unfoldable pub handle_exit_room : ℕ → Packet → Server → Server
  handle_exit_room fd packet s = conclude fd (std_failure room_exit_fail) (exit_body fd s)

  -- The `switch` of RoomHandler::handle; another type is only logged.
  unfoldable pub room_by_type : PacketType → (ℕ → ℕ) → ℕ → Packet → Server → Server
  room_by_type create_room dis fd packet s = handle_create_room dis fd packet s
  room_by_type exit_room dis fd packet s = handle_exit_room fd packet s
  room_by_type join_room dis fd packet s = handle_join_room fd packet s
  room_by_type _ dis fd packet s = s

  -- RoomHandler::handle
  unfoldable pub handle_room : (ℕ → ℕ) → ℕ → Packet → Server → Server
  handle_room dis fd packet s = room_by_type packet.type dis fd packet s
