-- ===== src/Server/Threads/Alone/Whole.antt =====
-- The handlers' tasks, one by one.
use cpp_socket_chat.Prelude.{
  ℕ, pos, ◌≡◌, refl, ◌∙◌, Bool, true, false, not, Option, none, some, [], Bytes, is_empty, ltb,
  length,
}
use cpp_socket_chat.Json.{Json, JsonError, Result, ok, throw}
use cpp_socket_chat.Protocol.{
  PacketType, Packet, nickname_request, message_send, create_room, join_room, exit_room,
  max_payload_size,
}
use cpp_socket_chat.Server.Clients
use cpp_socket_chat.Server.Clients.{ClientInfo}
use cpp_socket_chat.Server.State.{Server, Act}
use cpp_socket_chat.Server.Handlers
use cpp_socket_chat.Server.Handlers.Rooms as Whole
use cpp_socket_chat.Server.Handlers.Nickname as WholeNickname
use cpp_socket_chat.Server.Handlers.Message as WholeMessage
use cpp_socket_chat.Server.Handlers.Message.{chat_json}
use cpp_socket_chat.Server.Handlers.Dispatch.{handle, run_handler, find_handler}
use cpp_socket_chat.Server.Threads
use cpp_socket_chat.Server.Threads.{Task, finished, call, Part, ◌>>=◌}
use cpp_socket_chat.Server.Threads.Handlers as Steps
use cpp_socket_chat.Server.Threads.Alone.{
  alone, handed, Does, pure-Does, lift-Does, reads-Does, bind-Does, if-Does, broadcast-Does,
  get_client-Does, set_room_code-Does, set_nickname-Does, leave_room-Does, enter_room-Does,
  add_room-Does, refuse-Does, enter_created-Does, alone-if,
}

module _ (json : Json) where
  nickname_body-Does :
      (fd : ℕ) (packet : Packet)
      → Does (Steps.nickname_body json fd packet) (WholeNickname.nickname_body json fd packet)
  unfolding Steps.nickname_body WholeNickname.nickname_body
  nickname_body-Does fd packet = bind-Does _ _ (lift-Does _) λ request.
      bind-Does _ _ (lift-Does _) λ valid. if-Does (not valid) (refuse-Does fd _ _) (
        bind-Does _ _ (lift-Does _) λ nickname. bind-Does _ _ (reads-Does _) λ taken.
          if-Does taken (pure-Does _)
            (bind-Does _ _ (set_nickname-Does fd nickname) λ u. pure-Does _))

  join_as-Does :
      (fd : ℕ) (code : Bytes) (c : Option ClientInfo)
      → Does (Steps.join_as json fd code c) (Whole.join_as json fd code c)
  unfolding Steps.join_as Whole.join_as Steps.admitted Whole.admitted
  join_as-Does fd code none = refuse-Does fd _ _
  join_as-Does fd code (some c) =
      if-Does (not (is_empty c.room_code)) (refuse-Does fd _ _)
        (bind-Does _ _ (enter_room-Does fd code) admitted)
    where
      admitted :
          (b : Bool) → Does (Steps.admitted json fd code c b) (Whole.admitted json fd code c b)
      admitted false = pure-Does _
      admitted true = bind-Does _ _ (set_room_code-Does fd code) λ u.
          bind-Does _ _ (lift-Does _) λ text.
            bind-Does _ _ (lift-Does _)
              λ user. bind-Does _ _ (broadcast-Does _ code (pos fd)) λ v. pure-Does _

  join_body-Does :
      (fd : ℕ) (packet : Packet)
      → Does (Steps.join_body json fd packet) (Whole.join_body json fd packet)
  unfolding Steps.join_body Whole.join_body
  join_body-Does fd packet = bind-Does _ _ (lift-Does _) λ request.
      bind-Does _ _ (lift-Does _) λ valid. if-Does (not valid) (refuse-Does fd _ _) (
        bind-Does _ _ (lift-Does _)
          λ code. bind-Does _ _ (get_client-Does fd) λ client. join_as-Does fd code client)

  exit_body-Does : (fd : ℕ) → Does (Steps.exit_body json fd) (Whole.exit_body json fd)
  unfolding Steps.exit_body Whole.exit_body Steps.exit_as Whole.exit_as
  exit_body-Does fd = bind-Does _ _ (get_client-Does fd) exited
    where
      exited : (c : Option ClientInfo) → Does (Steps.exit_as json fd c) (Whole.exit_as json fd c)
      exited none = refuse-Does fd _ _
      exited (some c) = if-Does (is_empty c.room_code) (refuse-Does fd _ _) (
          bind-Does _ _ (lift-Does _) λ user.
            bind-Does _ _ (broadcast-Does _ c.room_code (pos fd)) λ u.
              bind-Does _ _ (leave_room-Does fd c.room_code)
                λ v. bind-Does _ _ (set_room_code-Does fd []) λ w. pure-Does _)

  created-Does :
      (fd : ℕ) (code : Bytes) → Does (Steps.created json fd code) (Whole.created json fd code)
  unfolding Steps.created Whole.created
  created-Does fd code = if-Does (is_empty code) (pure-Does _) (
      bind-Does _ _ (get_client-Does fd) λ client.
        bind-Does _ _ (enter_created-Does fd code client)
          λ u. bind-Does _ _ (lift-Does _) λ text. pure-Does _)

  create_body-Does :
      (dis : ℕ → ℕ) (fd : ℕ) (packet : Packet)
      → Does (Steps.create_body json dis fd packet) (Whole.create_body json dis fd packet)
  unfolding Steps.create_body Whole.create_body
  create_body-Does dis fd packet = bind-Does _ _ (lift-Does _) λ request.
      bind-Does _ _ (lift-Does _) λ has_name. if-Does (not has_name) (refuse-Does fd _ _) (
        bind-Does _ _ (lift-Does _) λ has_limit. if-Does (not has_limit) (refuse-Does fd _ _) (
          bind-Does _ _ (lift-Does _) λ name.
            bind-Does _ _ (lift-Does _)
              λ n. bind-Does _ _ (add_room-Does dis name n) λ code. created-Does fd code))

  message_body-Does :
      (timestamp : Bytes) (fd : ℕ) (sender : ClientInfo) (packet : Packet)
      → Does
          (Steps.message_body json timestamp fd sender packet)
          (WholeMessage.message_body json timestamp fd sender packet)
  unfolding Steps.message_body WholeMessage.message_body
  message_body-Does timestamp fd sender packet = bind-Does _ _ (lift-Does _) λ request.
      bind-Does _ _ (lift-Does _) λ message.
        bind-Does _ _ (lift-Does (json.dump (chat_json json fd sender message timestamp))) λ text.
          if-Does (ltb max_payload_size (length text)) (pure-Does tt)
            (broadcast-Does _ sender.room_code (pos fd))

  handed-both : (r : Result (Unit {0}) × Server) → handed r (λ u. finished) (λ e. finished) ≡ r.1
  unfolding alone
  handed-both (ok u, s) = refl
  handed-both (throw e, s) = refl

  message_from-alone :
      (timestamp : Bytes) (fd : ℕ) (packet : Packet) (c : Option ClientInfo) (s : Server)
      → alone (Steps.message_from json timestamp fd packet c) s
        ≡ WholeMessage.message_from json timestamp fd c packet s
  unfolding Steps.message_from WholeMessage.message_from alone
  message_from-alone timestamp fd packet none s = refl
  message_from-alone timestamp fd packet (some c) s =
      alone-if (not c.is_authenticated) _ _ _ _ s refl (
        alone-if (is_empty c.room_code) _ _ _ _ s refl (
          (message_body-Does timestamp fd c packet).does s (λ u. finished) (λ e. finished)
          ∙ handed-both (WholeMessage.message_body json timestamp fd c packet s)))

  concluded-as :
      (fd : ℕ) (handler : JsonError → Packet) (r : Result (Option Packet) × Server)
      → handed r
          (Threads.conclude_with fd)
          (λ e. Threads.send fd (handler e) (λ u. finished) λ x. finished)
        ≡ Handlers.conclude fd handler r
  unfolding Threads.conclude_with Handlers.conclude Threads.send Threads.writes alone
  concluded-as fd handler (ok none, s) = refl
  concluded-as fd handler (ok (some p), s) = refl
  concluded-as fd handler (throw e, s) = refl

  -- A whole action with what follows it.
  concluded :
      (fd : ℕ) (handler : JsonError → Packet) {p : Part (Option Packet)} {m : Act (Option Packet)}
      (s : Server)
      → Does p m
      → alone (Threads.conclude fd handler p) s ≡ Handlers.conclude fd handler (m s)
  unfolding Threads.conclude
  concluded fd handler {p} {m} s d = d.does s _ _ ∙ concluded-as fd handler (m s)

  by_type :
      (t : PacketType) (dis : ℕ → ℕ) (timestamp : Bytes) (fd size : ℕ) (payload : Bytes)
      (s : Server)
      → alone
          (Steps.task_of json t dis timestamp fd
            (record { type = t; size = size; payload = payload }))
          s
        ≡ handle json dis timestamp fd (record { type = t; size = size; payload = payload }) s
  unfolding Steps.task_of handle run_handler find_handler Whole.handle_room Whole.room_by_type
      WholeNickname.handle_nickname WholeMessage.handle_message Whole.handle_create_room
      Whole.handle_join_room Whole.handle_exit_room Threads.get_client alone
  by_type nickname_request dis timestamp fd size payload s =
      concluded fd _ s (nickname_body-Does fd _)
  by_type message_send dis timestamp fd size payload s =
      message_from-alone timestamp fd _ (Clients.get_client fd s.client_manager) s
  by_type create_room dis timestamp fd size payload s = concluded fd _ s (create_body-Does dis fd _)
  by_type join_room dis timestamp fd size payload s = concluded fd _ s (join_body-Does fd _)
  by_type exit_room dis timestamp fd size payload s = concluded fd _ s (exit_body-Does fd)
  by_type _ dis timestamp fd size payload s = refl

  -- When no other thread comes between, the steps of a packet's task do what PacketHandler::handle does
  -- as a whole.
  pub alone-handle :
      (dis : ℕ → ℕ) (timestamp : Bytes) (fd : ℕ) (packet : Packet) (s : Server)
      → alone (Steps.task_of json packet.type dis timestamp fd packet) s
        ≡ handle json dis timestamp fd packet s
  alone-handle dis timestamp fd packet s =
      by_type packet.type dis timestamp fd packet.size packet.payload s
