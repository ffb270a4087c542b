-- ===== src/Server/Threads/Safe/Handled.antt =====
-- The handlers' tasks keep the rooms as they should be, and send what fits.
use cpp_socket_chat.Prelude.{
  arith, ℕ, pos, Bool, true, false, not, Option, none, some, [], Bytes, bytes, is_empty, ltb,
  length, not-ltb→le,
}
use cpp_socket_chat.Json.{Json}
use cpp_socket_chat.Protocol.{
  PacketType, Packet, nickname_request, message_send, create_room, join_room, exit_room,
  nickname_response_ok, nickname_response_fail, room_create_ok, room_create_fail, room_exit_ok,
  room_exit_fail, room_join_ok, room_join_fail, room_user_join, room_user_exit, message_chat,
  max_payload_size,
}
use cpp_socket_chat.Protocol.Wire.{
  reply-IsSendable, clipped_reply-IsSendable, empty_reply-IsSendable,
}
use cpp_socket_chat.Server.Clients.{ClientInfo}
use cpp_socket_chat.Server.Handlers.Message.{chat_json}
use cpp_socket_chat.Server.Handlers.Rules.{Fits}
use cpp_socket_chat.Server.Threads.Handlers as Steps
use cpp_socket_chat.Server.Threads.Safe.{
  IsSafe, at_end, Keeps, Any, pure-Keeps, lift-Keeps, reads-Keeps, bind-Keeps, if-Keeps,
  broadcast-Keeps, conclude-IsSafe,
}
use cpp_socket_chat.Server.Threads.Safe.Calls.{
  get_client-Keeps, set_room_code-Keeps, set_nickname-Keeps, leave_room-Keeps, enter_room-Keeps,
  add_room-Keeps, refuse-Keeps, enter_created-Keeps, if-IsSafe, answer-Keeps,
}

module _ (json : Json) where
  nickname_body-Keeps : (fd : ℕ) (packet : Packet) → Keeps Fits (Steps.nickname_body json fd packet)
  unfolding Steps.nickname_body bytes
  nickname_body-Keeps fd packet = bind-Keeps _ (lift-Keeps _) λ request _.
      bind-Keeps _ (lift-Keeps _) λ valid _.
        if-Keeps (not valid)
          (λ _. refuse-Keeps fd nickname_response_fail _ (λ n e. cc) (omega arith))
          λ _. bind-Keeps _ (lift-Keeps _) λ nickname _. bind-Keeps _ (reads-Keeps _) λ taken _.
            if-Keeps taken (λ _. answer-Keeps nickname_response_fail _ (λ n e. cc) (omega arith))
              λ _.
                bind-Keeps _ (set_nickname-Keeps fd nickname)
                  λ u _. pure-Keeps _ (empty_reply-IsSendable nickname_response_ok (λ n e. cc))

  admitted-Keeps :
      (fd : ℕ) (code : Bytes) (c : ClientInfo) (b : Bool)
      → Keeps Fits (Steps.admitted json fd code c b)
  unfolding Steps.admitted bytes
  admitted-Keeps fd code c false = answer-Keeps room_join_fail _ (λ n e. cc) (omega arith)
  admitted-Keeps fd code c true = bind-Keeps _ (set_room_code-Keeps fd code) λ u _.
      bind-Keeps _ (lift-Keeps _) λ text _. bind-Keeps _ (lift-Keeps _) λ user _.
        bind-Keeps _
          (broadcast-Keeps _ code (pos fd)
            (clipped_reply-IsSendable room_user_join user (λ n e. cc)))
          λ v _. pure-Keeps _ (clipped_reply-IsSendable room_join_ok text (λ n e. cc))

  join_as-Keeps :
      (fd : ℕ) (code : Bytes) (c : Option ClientInfo) → Keeps Fits (Steps.join_as json fd code c)
  unfolding Steps.join_as bytes
  join_as-Keeps fd code none = refuse-Keeps fd room_join_fail _ (λ n e. cc) (omega arith)
  join_as-Keeps fd code (some c) =
      if-Keeps (not (is_empty c.room_code))
        (λ _. refuse-Keeps fd room_join_fail _ (λ n e. cc) (omega arith))
        λ _. bind-Keeps _ (enter_room-Keeps fd code) λ b _. admitted-Keeps fd code c b

  join_body-Keeps : (fd : ℕ) (packet : Packet) → Keeps Fits (Steps.join_body json fd packet)
  unfolding Steps.join_body bytes
  join_body-Keeps fd packet = bind-Keeps _ (lift-Keeps _) λ request _.
      bind-Keeps _ (lift-Keeps _) λ valid _.
        if-Keeps (not valid) (λ _. refuse-Keeps fd room_join_fail _ (λ n e. cc) (omega arith))
          λ _.
            bind-Keeps _ (lift-Keeps _)
              λ code _. bind-Keeps _ (get_client-Keeps fd) λ client _. join_as-Keeps fd code client

  exit_as-Keeps : (fd : ℕ) (c : Option ClientInfo) → Keeps Fits (Steps.exit_as json fd c)
  unfolding Steps.exit_as bytes
  exit_as-Keeps fd none = refuse-Keeps fd room_exit_fail _ (λ n e. cc) (omega arith)
  exit_as-Keeps fd (some c) =
      if-Keeps (is_empty c.room_code)
        (λ _. refuse-Keeps fd room_exit_fail _ (λ n e. cc) (omega arith))
        λ _. bind-Keeps _ (lift-Keeps _) λ user _.
          bind-Keeps _
            (broadcast-Keeps _ c.room_code (pos fd)
              (clipped_reply-IsSendable room_user_exit user (λ n e. cc)))
            λ u _. bind-Keeps _ (leave_room-Keeps fd c.room_code) λ v _.
              bind-Keeps _ (set_room_code-Keeps fd [])
                λ w _. pure-Keeps _ (empty_reply-IsSendable room_exit_ok (λ n e. cc))

  exit_body-Keeps : (fd : ℕ) → Keeps Fits (Steps.exit_body json fd)
  unfolding Steps.exit_body
  exit_body-Keeps fd = bind-Keeps _ (get_client-Keeps fd) λ c _. exit_as-Keeps fd c

  created-Keeps : (fd : ℕ) (code : Bytes) → Keeps Fits (Steps.created json fd code)
  unfolding Steps.created bytes
  created-Keeps fd code =
      if-Keeps (is_empty code) (λ _. answer-Keeps room_create_fail _ (λ n e. cc) (omega arith))
        λ _. bind-Keeps _ (get_client-Keeps fd) λ client _.
          bind-Keeps _ (enter_created-Keeps fd code client) λ u _.
            bind-Keeps _ (lift-Keeps _)
              λ text _. pure-Keeps _ (clipped_reply-IsSendable room_create_ok text (λ n e. cc))

  create_body-Keeps :
      (dis : ℕ → ℕ) (fd : ℕ) (packet : Packet) → Keeps Fits (Steps.create_body json dis fd packet)
  unfolding Steps.create_body bytes
  create_body-Keeps dis fd packet = bind-Keeps _ (lift-Keeps _) λ request _.
      bind-Keeps _ (lift-Keeps _) λ has_name _.
        if-Keeps (not has_name) (λ _. refuse-Keeps fd room_create_fail _ (λ n e. cc) (omega arith))
          λ _. bind-Keeps _ (lift-Keeps _) λ has_limit _.
            if-Keeps (not has_limit)
              (λ _. refuse-Keeps fd room_create_fail _ (λ n e. cc) (omega arith))
              λ _. bind-Keeps _ (lift-Keeps _) λ name _.
                bind-Keeps _ (lift-Keeps _)
                  λ n _. bind-Keeps _ (add_room-Keeps dis name n) λ code _. created-Keeps fd code

  message_body-Keeps :
      (timestamp : Bytes) (fd : ℕ) (sender : ClientInfo) (packet : Packet)
      → Keeps Any (Steps.message_body json timestamp fd sender packet)
  unfolding Steps.message_body
  message_body-Keeps timestamp fd sender packet = bind-Keeps _ (lift-Keeps _) λ request _.
      bind-Keeps _ (lift-Keeps _) λ message _.
        bind-Keeps _ (lift-Keeps (json.dump (chat_json json fd sender message timestamp))) λ text _.
          if-Keeps (ltb max_payload_size (length text)) (λ _. pure-Keeps tt tt)
            λ fits.
              broadcast-Keeps _ sender.room_code (pos fd)
                (reply-IsSendable message_chat text (λ n e. cc) (not-ltb→le _ _ fits))

  message_from-IsSafe :
      (timestamp : Bytes) (fd : ℕ) (packet : Packet) (c : Option ClientInfo)
      → IsSafe (Steps.message_from json timestamp fd packet c)
  unfolding Steps.message_from
  message_from-IsSafe timestamp fd packet none = at_end
  message_from-IsSafe timestamp fd packet (some c) =
      if-IsSafe (not c.is_authenticated) _ _ at_end λ _.
        if-IsSafe (is_empty c.room_code) _ _ at_end
          λ _. (message_body-Keeps timestamp fd c packet).keeps _ _ (λ u _. at_end) (λ e. at_end)

  pub task_of-IsSafe :
      (t : PacketType) (dis : ℕ → ℕ) (timestamp : Bytes) (fd : ℕ) (packet : Packet)
      → IsSafe (Steps.task_of json t dis timestamp fd packet)
  unfolding Steps.task_of
  task_of-IsSafe nickname_request dis timestamp fd packet =
      conclude-IsSafe fd _ (λ e. clipped_reply-IsSendable nickname_response_fail _ (λ n x. cc))
        (nickname_body-Keeps fd packet)
  task_of-IsSafe message_send dis timestamp fd packet =
      (get_client-Keeps fd).keeps _ _ (λ c _. message_from-IsSafe timestamp fd packet c)
        (λ e. at_end)
  task_of-IsSafe create_room dis timestamp fd packet =
      conclude-IsSafe fd _ (λ e. clipped_reply-IsSendable room_create_fail _ (λ n x. cc))
        (create_body-Keeps dis fd packet)
  task_of-IsSafe join_room dis timestamp fd packet =
      conclude-IsSafe fd _ (λ e. clipped_reply-IsSendable room_join_fail _ (λ n x. cc))
        (join_body-Keeps fd packet)
  task_of-IsSafe exit_room dis timestamp fd packet =
      conclude-IsSafe fd _ (λ e. clipped_reply-IsSendable room_exit_fail _ (λ n x. cc))
        (exit_body-Keeps fd)
  task_of-IsSafe _ dis timestamp fd packet = at_end
