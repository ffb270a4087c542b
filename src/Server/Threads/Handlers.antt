-- ===== src/Server/Threads/Handlers.antt =====
-- NicknameHandler, MessageHandler and RoomHandler (server/src/domain/handler), step by step.
use cpp_socket_chat.Prelude.{
  ℕ, pos, Bool, true, false, not, Option, none, some, [], Bytes, bytes, is_empty, ltb, length,
  if◌then◌else◌,
}
use cpp_socket_chat.Json.{Json}
use cpp_socket_chat.Protocol.{
  PacketType, Packet, nickname_request, message_send, create_room, exit_room, join_room,
  nickname_response_ok, nickname_response_fail, room_create_ok, room_create_fail, room_exit_ok,
  room_exit_fail, room_join_ok, room_join_fail, room_user_join, room_user_exit, message_chat,
  max_payload_size, reply, clipped_reply, empty_reply, payload_text,
}
use cpp_socket_chat.Server.Clients
use cpp_socket_chat.Server.Clients.{ClientInfo}
use cpp_socket_chat.Server.Handlers.{
  json_failure, std_failure, has_field, string_field, int_field, room_code_json, user_json,
}
use cpp_socket_chat.Server.Handlers.Message.{chat_json}
use cpp_socket_chat.Server.Threads
use cpp_socket_chat.Server.Threads.{
  Task, finished, call, Part, pure, lift, reads, writes, ◌>>=◌, ◌>>◌, add_room, enter_room, refuse,
  broadcast_packet_for_room, conclude,
}

-- if (joined) client->roomCode = roomCode;
unfoldable pub enter_if : ℕ → Bytes → Bool → Part (Unit {0})
enter_if fd code true = Threads.set_room_code fd code
enter_if fd code false = pure tt

unfoldable pub enter_created : ℕ → Bytes → Option ClientInfo → Part (Unit {0})
unfolding enter_if
enter_created fd code none = pure tt
enter_created fd code (some client) = do joined ← enter_room fd code; enter_if fd code joined

module _ (json : Json) where
  unfoldable pub nickname_body : ℕ → Packet → Part (Option Packet)
  nickname_body fd packet = do
    request ← lift (json.parse (payload_text packet))
    valid ← lift (has_field json json.is_string request (bytes "nickname"))
    if not valid
        then refuse fd nickname_response_fail
            (bytes "Invalid JSON format: missing 'nickname' field.")
        else do
          nickname ← lift (string_field json request (bytes "nickname"))
          taken ← reads (λ s. Clients.is_nickname_taken nickname s.client_manager)
          if taken
              then pure (some (reply nickname_response_fail (bytes "Duplicated nickname.")))
              else do
                Threads.set_nickname fd nickname
                pure (some (empty_reply nickname_response_ok))

  -- The end of handleCreateRoom's `try` block.
  unfoldable pub created : ℕ → Bytes → Part (Option Packet)
  created fd code =
      if is_empty code
      then pure (
          some
            (reply room_create_fail (bytes "Failed to create room. Maximum room count reached.")))
      else do
        client ← Threads.get_client fd
        enter_created fd code client
        text ← lift (room_code_json json code)
        pure (some (clipped_reply room_create_ok text))

  unfoldable pub create_body : (ℕ → ℕ) → ℕ → Packet → Part (Option Packet)
  create_body dis fd packet = do
    request ← lift (json.parse (payload_text packet))
    has_name ← lift (has_field json json.is_string request (bytes "roomName"))
    if not has_name
        then refuse fd room_create_fail (bytes "Invalid JSON format: missing 'roomName' field.")
        else do
          has_limit ← lift (has_field json json.is_number request (bytes "maxUsers"))
          if not has_limit
              then refuse fd room_create_fail
                  (bytes "Invalid JSON format: missing 'maxUsers' field.")
              else do
                room_name ← lift (string_field json request (bytes "roomName"))
                max_users ← lift (int_field json request (bytes "maxUsers"))
                code ← add_room dis room_name max_users
                created fd code

  -- The end of handleJoinRoom's `try` block.
  unfoldable pub admitted : ℕ → Bytes → ClientInfo → Bool → Part (Option Packet)
  admitted fd code client false =
      pure (some (reply room_join_fail (bytes "Failed to join room. Room not found or full.")))
  admitted fd code client true = do
    Threads.set_room_code fd code
    text ← lift (room_code_json json code)
    user ← lift (user_json json fd client)
    broadcast_packet_for_room (clipped_reply room_user_join user) code (pos fd)
    pure (some (clipped_reply room_join_ok text))

  unfoldable pub join_as : ℕ → Bytes → Option ClientInfo → Part (Option Packet)
  join_as fd code none = refuse fd room_join_fail (bytes "Client not found.")
  join_as fd code (some client) =
      if not (is_empty client.room_code)
      then refuse fd room_join_fail (bytes "Already in another room. Please exit first.")
      else do success ← enter_room fd code; admitted fd code client success

  unfoldable pub join_body : ℕ → Packet → Part (Option Packet)
  join_body fd packet = do
    request ← lift (json.parse (payload_text packet))
    has_code ← lift (has_field json json.is_string request (bytes "roomCode"))
    if not has_code
        then refuse fd room_join_fail (bytes "Invalid JSON format: missing 'roomCode' field.")
        else do
          code ← lift (string_field json request (bytes "roomCode"))
          client ← Threads.get_client fd
          join_as fd code client

  unfoldable pub exit_as : ℕ → Option ClientInfo → Part (Option Packet)
  exit_as fd none = refuse fd room_exit_fail (bytes "Client not found.")
  exit_as fd (some client) =
      if is_empty client.room_code then refuse fd room_exit_fail (bytes "Not in any room.") else do
        user ← lift (user_json json fd client)
        broadcast_packet_for_room (clipped_reply room_user_exit user) client.room_code (pos fd)
        Threads.leave_room fd client.room_code
        Threads.set_room_code fd []
        pure (some (empty_reply room_exit_ok))

  unfoldable pub exit_body : ℕ → Part (Option Packet)
  exit_body fd = do client ← Threads.get_client fd; exit_as fd client

  -- The `try` block of MessageHandler.
  unfoldable pub message_body : Bytes → ℕ → ClientInfo → Packet → Part (Unit {0})
  message_body timestamp fd sender packet = do
    request ← lift (json.parse (payload_text packet))
    message ← lift (json.index request (bytes "message"))
    text ← lift (json.dump (chat_json json fd sender message timestamp))
    if ltb max_payload_size (length text)
        then pure tt
        else broadcast_packet_for_room (reply message_chat text) sender.room_code (pos fd)

  unfoldable pub message_from : Bytes → ℕ → Packet → Option ClientInfo → Task
  message_from timestamp fd packet none = finished
  message_from timestamp fd packet (some sender) =
      if not sender.is_authenticated
      then finished
      else if is_empty sender.room_code
      then finished
      else message_body timestamp fd sender packet (λ u. finished) λ e. finished

  -- The task of a packet.
  unfoldable pub task_of : PacketType → (ℕ → ℕ) → Bytes → ℕ → Packet → Task
  unfolding message_from
  task_of nickname_request dis timestamp fd packet =
      conclude fd (json_failure nickname_response_fail) (nickname_body fd packet)
  task_of message_send dis timestamp fd packet =
      Threads.get_client fd (message_from timestamp fd packet) λ e. finished
  task_of create_room dis timestamp fd packet =
      conclude fd (json_failure room_create_fail) (create_body dis fd packet)
  task_of join_room dis timestamp fd packet =
      conclude fd (json_failure room_join_fail) (join_body fd packet)
  task_of exit_room dis timestamp fd packet =
      conclude fd (std_failure room_exit_fail) (exit_body fd)
  task_of _ dis timestamp fd packet = finished
