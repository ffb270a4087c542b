-- ===== src/Server/Handlers/Answers.antt =====
-- Each request is answered by one packet: a client that has sent one waits for the next packet.
use cpp_socket_chat.Prelude.{
  ℕ, suc, ℤ, Bool, true, false, Option, none, some, Bytes, ◌≡◌, refl, ◌∙◌, ap,
}
use cpp_socket_chat.Json.{Json, JsonError, Result, ok, throw}
use cpp_socket_chat.Protocol.{PacketType, Packet, reply}
use cpp_socket_chat.Server.Clients.{ClientInfo}
use cpp_socket_chat.Server.State
use cpp_socket_chat.Server.State.{Server, Act, pure, send_packet}
use cpp_socket_chat.Server.State.Answers.{
  sent_to, sent_to-send_packet, sent_to-broadcast, Silent, Silent-modify, Answered, Answers,
  Answers-pure, Answers-if, Answers-lift, Answers-gets, Answers-bind,
}
use cpp_socket_chat.Server.Handlers.{conclude, refuse}
use cpp_socket_chat.Server.Handlers.Nickname.{nickname_body, handle_nickname}
use cpp_socket_chat.Server.Handlers.Rooms.{
  enter_if, enter_created, created, create_body, handle_create_room, admitted, join_as, join_body,
  handle_join_room, exit_as, exit_body, handle_exit_room,
}

conclude-answers :
    (fd : ℕ) (handler : JsonError → Packet) (before : ℕ) (r : Result (Option Packet) × Server)
    → Answered fd before r
    → sent_to fd (conclude fd handler r) ≡ suc before
unfolding conclude
conclude-answers fd handler before (ok none, s) h = h
conclude-answers fd handler before (ok (some p), s) h = sent_to-send_packet fd p s ∙ ap suc h
conclude-answers fd handler before (throw e, s) h = sent_to-send_packet fd (handler e) s ∙ ap suc h

refuse-Answers : (fd : ℕ) (t : PacketType) (reason : Bytes) → Answers fd (refuse fd t reason)
unfolding refuse
refuse-Answers fd t reason = record { at = λ s. sent_to-send_packet fd (reply t reason) s }

set_nickname-Silent : (fd g : ℕ) (n : Bytes) → Silent fd (State.set_nickname g n)
unfolding State.set_nickname
set_nickname-Silent fd g n = record { at = λ s. refl }

set_room_code-Silent : (fd g : ℕ) (code : Bytes) → Silent fd (State.set_room_code g code)
unfolding State.set_room_code
set_room_code-Silent fd g code = record { at = λ s. refl }

add_room-Silent :
    (fd : ℕ) (dis : ℕ → ℕ) (name : Bytes) (limit : ℤ) → Silent fd (State.add_room dis name limit)
unfolding State.add_room
add_room-Silent fd dis name limit = record { at = λ s. refl }

join_room-Silent : (fd g : ℕ) (code : Bytes) → Silent fd (State.join_room g code)
unfolding State.join_room
join_room-Silent fd g code = record { at = λ s. refl }

leave_room-Silent : (fd g : ℕ) (code : Bytes) → Silent fd (State.leave_room g code)
unfolding State.leave_room
leave_room-Silent fd g code = record { at = λ s. refl }

enter_if-at :
    (fd g : ℕ) (code : Bytes) (b : Bool) (s : Server)
    → sent_to fd (enter_if g code b s).1 ≡ sent_to fd s
unfolding enter_if State.set_room_code pure
enter_if-at fd g code true s = refl
enter_if-at fd g code false s = refl

enter_created-Silent :
    (fd g : ℕ) (code : Bytes) (c : Option ClientInfo) → Silent fd (enter_created g code c)
unfolding enter_created State.◌>>=◌ State.join_room
enter_created-Silent fd g code none = record { at = λ s. refl }
enter_created-Silent fd g code (some c) = record { at = λ s. enter_if-at fd g code _ _ }

module _ (json : Json) where
  pub handle_nickname-answers :
      (fd : ℕ) (packet : Packet) (s : Server)
      → sent_to fd (handle_nickname json fd packet s) ≡ suc (sent_to fd s)
  unfolding handle_nickname nickname_body
  handle_nickname-answers fd packet s = conclude-answers fd _ (sent_to fd s) _ (body.at s)
    where
      body : Answers fd (nickname_body json fd packet)
      body = Answers-lift _ _ λ request. Answers-lift _ _ λ valid.
          Answers-if _ _ _ (refuse-Answers fd _ _) (
            Answers-lift _ _ λ nickname. Answers-gets _ _ λ taken.
              Answers-if _ _ _ (Answers-pure _)
                (Answers-bind _ _ (set_nickname-Silent fd fd nickname) λ _. Answers-pure _))

  pub handle_create_room-answers :
      (dis : ℕ → ℕ) (fd : ℕ) (packet : Packet) (s : Server)
      → sent_to fd (handle_create_room json dis fd packet s) ≡ suc (sent_to fd s)
  unfolding handle_create_room create_body created State.get_client
  handle_create_room-answers dis fd packet s = conclude-answers fd _ (sent_to fd s) _ (body.at s)
    where
      make :
          (name : Bytes) (limit : ℤ)
          → Answers fd (State.◌>>=◌ (State.add_room dis name limit) (created json fd))
      make name limit = Answers-bind _ _ (add_room-Silent fd dis name limit) λ code.
          Answers-if _ _ _ (Answers-pure _) (
            Answers-gets _ _ λ client.
              Answers-bind _ _ (enter_created-Silent fd fd code client)
                λ _. Answers-lift _ _ λ text. Answers-pure _)

      body : Answers fd (create_body json dis fd packet)
      body = Answers-lift _ _ λ request. Answers-lift _ _ λ has_name.
          Answers-if _ _ _ (refuse-Answers fd _ _) (
            Answers-lift _ _ λ has_limit.
              Answers-if _ _ _ (refuse-Answers fd _ _)
                (Answers-lift _ _ λ name. Answers-lift _ _ λ limit. make name limit))

  admitted-Answers :
      (fd : ℕ) (code : Bytes) (client : ClientInfo) (joined : Bool)
      → Answers fd (admitted json fd code client joined)
  unfolding admitted
  admitted-Answers fd code client false = Answers-pure _
  admitted-Answers fd code client true = Answers-bind _ _ (set_room_code-Silent fd fd code) λ _.
      Answers-lift _ _ λ text.
        Answers-lift _ _ λ user.
          Answers-bind _ _ (Silent-modify _ (sent_to-broadcast fd _ code)) λ _. Answers-pure _

  join_as-Answers :
      (fd : ℕ) (code : Bytes) (client : Option ClientInfo)
      → Answers fd (join_as json fd code client)
  unfolding join_as
  join_as-Answers fd code none = refuse-Answers fd _ _
  join_as-Answers fd code (some client) =
      Answers-if _ _ _ (refuse-Answers fd _ _)
        (Answers-bind _ _ (join_room-Silent fd fd code) (admitted-Answers fd code client))

  pub handle_join_room-answers :
      (fd : ℕ) (packet : Packet) (s : Server)
      → sent_to fd (handle_join_room json fd packet s) ≡ suc (sent_to fd s)
  unfolding handle_join_room join_body State.get_client
  handle_join_room-answers fd packet s = conclude-answers fd _ (sent_to fd s) _ (body.at s)
    where
      body : Answers fd (join_body json fd packet)
      body = Answers-lift _ _ λ request. Answers-lift _ _ λ has_code.
          Answers-if _ _ _ (refuse-Answers fd _ _)
            (Answers-lift _ _ λ code. Answers-gets _ _ (join_as-Answers fd code))

  exit_as-Answers : (fd : ℕ) (client : Option ClientInfo) → Answers fd (exit_as json fd client)
  unfolding exit_as
  exit_as-Answers fd none = refuse-Answers fd _ _
  exit_as-Answers fd (some client) = Answers-if _ _ _ (refuse-Answers fd _ _) (
      Answers-lift _ _ λ user.
        Answers-bind _ _ (Silent-modify _ (sent_to-broadcast fd _ client.room_code)) λ _.
          Answers-bind _ _ (leave_room-Silent fd fd client.room_code)
            λ _. Answers-bind _ _ (set_room_code-Silent fd fd _) λ _. Answers-pure _)

  pub handle_exit_room-answers :
      (fd : ℕ) (packet : Packet) (s : Server)
      → sent_to fd (handle_exit_room json fd packet s) ≡ suc (sent_to fd s)
  unfolding handle_exit_room exit_body State.get_client
  handle_exit_room-answers fd packet s = conclude-answers fd _ (sent_to fd s) _ (body.at s)
    where
      body : Answers fd (exit_body json fd)
      body = Answers-gets _ _ (exit_as-Answers fd)
