-- ===== src/Server/Handlers/Rooms/Invariant.antt =====
-- The room handlers keep the server's invariant: whoever has a room code is in that room.
use cpp_socket_chat.Prelude.{
  ℕ, ℤ, pos, not, Bool, true, false, none, some, Option, [], Bytes, bytes, ◌≡◌, sym, arith,
  is_empty,
}
use cpp_socket_chat.Json.{Json}
use cpp_socket_chat.Protocol.{
  PacketType, Packet, create_room, exit_room, join_room, room_create_ok, room_create_fail,
  room_exit_ok, room_exit_fail, room_join_ok, room_join_fail, room_user_join, room_user_exit,
  clipped_reply, empty_reply,
}
use cpp_socket_chat.Protocol.Wire.{clipped_reply-IsSendable, empty_reply-IsSendable}
use cpp_socket_chat.Server.Clients.{ClientInfo}
use cpp_socket_chat.Server.Rooms.Membership.{can_join, join_room-can_join}
use cpp_socket_chat.Server.State
use cpp_socket_chat.Server.State.{
  Server, Act, pure, lift, modify, ◌>>=◌, ◌>>◌, broadcast_packet_for_room,
}
use cpp_socket_chat.Server.State.Ensures.{
  Post, Ensures, Ensures-gets, Ensures-if, Ensures-lift, Ensures-pure, Ensures-bind, Ensures-modify,
}
use cpp_socket_chat.Server.State.Invariant.{Inv, broadcast-Inv}
use cpp_socket_chat.Server.State.Steps.{add_room-Inv, join_room-Inv, entered-Inv, left-Inv}
use cpp_socket_chat.Server.Handlers.{room_code_json, user_json}
use cpp_socket_chat.Server.Handlers.Rules.{Fits, IsBody, refuse-IsBody, answer-IsBody, conclude-Inv}
use cpp_socket_chat.Server.Handlers.Rooms.{
  enter_if, enter_created, created, create_body, handle_create_room, admitted, join_as, join_body,
  handle_join_room, exit_as, exit_body, handle_exit_room, room_by_type, handle_room,
}

enter_if-Post :
    (fd : ℕ) (code : Bytes) (s : Server) (joined : Bool)
    → joined ≡ can_join fd code s.room_manager
    → Inv s
    → Post Inv (λ _. Unit {0}) (enter_if fd code joined (State.join_room fd code s).1)
unfolding enter_if pure State.set_room_code
enter_if-Post fd code s true h i = (entered-Inv fd code s (sym h) i, tt)
enter_if-Post fd code s false h i = (join_room-Inv fd code s i, tt)

-- joinRoom, and the room code if it lets the client in.
enter-Post :
    (fd : ℕ) (code : Bytes) (s : Server)
    → Inv s
    → Post Inv (λ _. Unit {0}) ((State.join_room fd code >>= enter_if fd code) s)
unfolding ◌>>=◌ State.join_room
enter-Post fd code s i = enter_if-Post fd code s _ (join_room-can_join fd code s.room_manager) i

enter_created-Ensures :
    (fd : ℕ) (code : Bytes) (client : Option ClientInfo)
    → Ensures Inv (λ _. Unit {0}) (enter_created fd code client)
unfolding enter_created
enter_created-Ensures fd code none = Ensures-pure tt tt
enter_created-Ensures fd code (some client) = record { at = enter-Post fd code }

add_room-Ensures :
    (dis : ℕ → ℕ) (name : Bytes) (max_users : ℤ)
    → Ensures Inv (λ _. Unit {0}) (State.add_room dis name max_users)
unfolding State.add_room
add_room-Ensures dis name max_users = record {
  at = λ s i. (add_room-Inv dis name max_users s i, tt);
}

module _ (json : Json) where
  created-IsBody : (fd : ℕ) (code : Bytes) → IsBody (created json fd code)
  unfolding created State.get_client bytes
  created-IsBody fd code =
      Ensures-if (is_empty code) _ _
        (λ _. answer-IsBody room_create_fail _ (λ n e. cc) (omega arith))
        λ _. Ensures-gets _ _ λ s i.
          (Ensures-bind _ _ (enter_created-Ensures fd code _) λ _ _. Ensures-lift _ _ λ text _.
              Ensures-pure _ (clipped_reply-IsSendable room_create_ok text (λ n e. cc))).at
            s i

  create_body-IsBody :
      (dis : ℕ → ℕ) (fd : ℕ) (packet : Packet) → IsBody (create_body json dis fd packet)
  unfolding create_body bytes
  create_body-IsBody dis fd packet = Ensures-lift _ _ λ request _. Ensures-lift _ _ λ has_name _.
      Ensures-if (not has_name) _ _
        (λ _. refuse-IsBody fd room_create_fail _ (λ n e. cc) (omega arith))
        λ _. Ensures-lift _ _ λ has_limit _.
          Ensures-if (not has_limit) _ _
            (λ _. refuse-IsBody fd room_create_fail _ (λ n e. cc) (omega arith))
            λ _. Ensures-lift _ _ λ room_name _. Ensures-lift _ _ λ max_users _.
              Ensures-bind _ _ (add_room-Ensures dis room_name max_users)
                λ code _. created-IsBody fd code

  pub handle_create_room-Inv :
      (dis : ℕ → ℕ) (fd : ℕ) (packet : Packet) (s : Server)
      → Inv s
      → Inv (handle_create_room json dis fd packet s)
  unfolding handle_create_room
  handle_create_room-Inv dis fd packet s i =
      conclude-Inv fd _ (create_body json dis fd packet s)
        (λ e. clipped_reply-IsSendable room_create_fail _ (λ n x. cc))
        ((create_body-IsBody dis fd packet).at s i)

  -- What follows the room code of a client who was let in.
  welcome-IsBody :
      (fd : ℕ) (code : Bytes) (client : ClientInfo)
      → IsBody (
          lift (room_code_json json code) >>= λ text. lift (user_json json fd client) >>= λ user.
          modify (broadcast_packet_for_room (clipped_reply room_user_join user) code (pos fd))
          >> pure (some (clipped_reply room_join_ok text)))
  welcome-IsBody fd code client = Ensures-lift _ _ λ text _. Ensures-lift _ _ λ user _.
      Ensures-modify _ _
        (λ s i.
          broadcast-Inv _ code (pos fd) s (clipped_reply-IsSendable room_user_join user (λ n e. cc))
            i)
        (Ensures-pure _ (clipped_reply-IsSendable room_join_ok text (λ n e. cc)))

  admitted-Post :
      (fd : ℕ) (code : Bytes) (client : ClientInfo) (s : Server) (joined : Bool)
      → joined ≡ can_join fd code s.room_manager
      → Inv s
      → Post Inv Fits (admitted json fd code client joined (State.join_room fd code s).1)
  unfolding admitted bytes ◌>>=◌ State.set_room_code
  admitted-Post fd code client s true h i =
      (welcome-IsBody fd code client).at _ (entered-Inv fd code s (sym h) i)
  admitted-Post fd code client s false h i =
      (answer-IsBody room_join_fail _ (λ n e. cc) (omega arith)).at _ (join_room-Inv fd code s i)

  let_in-IsBody :
      (fd : ℕ) (code : Bytes) (client : ClientInfo)
      → IsBody (State.join_room fd code >>= admitted json fd code client)
  unfolding ◌>>=◌ State.join_room
  let_in-IsBody fd code client = record {
    at = λ s i. admitted-Post fd code client s _ (join_room-can_join fd code s.room_manager) i;
  }

  join_as-IsBody :
      (fd : ℕ) (code : Bytes) (client : Option ClientInfo) → IsBody (join_as json fd code client)
  unfolding join_as bytes
  join_as-IsBody fd code none = refuse-IsBody fd room_join_fail _ (λ n e. cc) (omega arith)
  join_as-IsBody fd code (some client) =
      Ensures-if (not (is_empty client.room_code)) _ _
        (λ _. refuse-IsBody fd room_join_fail _ (λ n e. cc) (omega arith))
        (λ _. let_in-IsBody fd code client)

  join_body-IsBody : (fd : ℕ) (packet : Packet) → IsBody (join_body json fd packet)
  unfolding join_body bytes State.get_client
  join_body-IsBody fd packet = Ensures-lift _ _ λ request _. Ensures-lift _ _ λ has_code _.
      Ensures-if (not has_code) _ _
        (λ _. refuse-IsBody fd room_join_fail _ (λ n e. cc) (omega arith))
        λ _. Ensures-lift _ _ λ code _. Ensures-gets _ _ λ s i. (join_as-IsBody fd code _).at s i

  pub handle_join_room-Inv :
      (fd : ℕ) (packet : Packet) (s : Server) → Inv s → Inv (handle_join_room json fd packet s)
  unfolding handle_join_room
  handle_join_room-Inv fd packet s i =
      conclude-Inv fd _ (join_body json fd packet s)
        (λ e. clipped_reply-IsSendable room_join_fail _ (λ n x. cc))
        ((join_body-IsBody fd packet).at s i)

  -- leaveRoom, the empty room code, and the answer.
  farewell-IsBody :
      (fd : ℕ) (code : Bytes)
      → IsBody (
          State.leave_room fd code
          >> (State.set_room_code fd [] >> pure (some (empty_reply room_exit_ok))))
  unfolding ◌>>=◌ State.leave_room State.set_room_code
  farewell-IsBody fd code = record {
    at = λ s i. (left-Inv fd code s i, empty_reply-IsSendable room_exit_ok (λ n e. cc));
  }

  exit_as-IsBody : (fd : ℕ) (client : Option ClientInfo) → IsBody (exit_as json fd client)
  unfolding exit_as bytes
  exit_as-IsBody fd none = refuse-IsBody fd room_exit_fail _ (λ n e. cc) (omega arith)
  exit_as-IsBody fd (some client) =
      Ensures-if (is_empty client.room_code) _ _
        (λ _. refuse-IsBody fd room_exit_fail _ (λ n e. cc) (omega arith))
        λ _. Ensures-lift _ _ λ user _.
          Ensures-modify _ _
            (λ s i.
              broadcast-Inv _ client.room_code (pos fd) s
                (clipped_reply-IsSendable room_user_exit user (λ n e. cc)) i)
            (farewell-IsBody fd client.room_code)

  pub handle_exit_room-Inv :
      (fd : ℕ) (packet : Packet) (s : Server) → Inv s → Inv (handle_exit_room json fd packet s)
  unfolding handle_exit_room exit_body State.get_client ◌>>=◌
  handle_exit_room-Inv fd packet s i =
      conclude-Inv fd _ (exit_as json fd _ s)
        (λ e. clipped_reply-IsSendable room_exit_fail _ (λ n x. cc)) ((exit_as-IsBody fd _).at s i)

  room_by_type-Inv :
      (t : PacketType) (dis : ℕ → ℕ) (fd : ℕ) (packet : Packet) (s : Server)
      → Inv s
      → Inv (room_by_type json t dis fd packet s)
  unfolding room_by_type
  room_by_type-Inv create_room dis fd packet s i = handle_create_room-Inv dis fd packet s i
  room_by_type-Inv exit_room dis fd packet s i = handle_exit_room-Inv fd packet s i
  room_by_type-Inv join_room dis fd packet s i = handle_join_room-Inv fd packet s i
  room_by_type-Inv _ dis fd packet s i = i

  -- Whatever the packet, the invariant holds behind the room handler.
  pub handle_room-Inv :
      (dis : ℕ → ℕ) (fd : ℕ) (packet : Packet) (s : Server)
      → Inv s
      → Inv (handle_room json dis fd packet s)
  unfolding handle_room
  handle_room-Inv dis fd packet s i = room_by_type-Inv packet.type dis fd packet s i
