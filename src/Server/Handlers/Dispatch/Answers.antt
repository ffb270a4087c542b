-- ===== src/Server/Handlers/Dispatch/Answers.antt =====
-- Each request is answered by one packet: a client that has sent one waits for the next packet.
use cpp_socket_chat.Prelude.{ℕ, suc, Bool, true, false, Bytes, ◌≡◌, refl, ap, ◌∙◌, if◌then◌else◌}
use cpp_socket_chat.Json.{Json}
use cpp_socket_chat.Protocol.{
  PacketType, Packet, nickname_request, message_send, create_room, join_room, exit_room,
}
use cpp_socket_chat.Server.State.{Server}
use cpp_socket_chat.Server.State.Answers.{sent_to}
use cpp_socket_chat.Server.Handlers.Answers.{
  handle_nickname-answers, handle_create_room-answers, handle_join_room-answers,
  handle_exit_room-answers,
}
use cpp_socket_chat.Server.Handlers.Message.Silent.{handle_message_silent}
use cpp_socket_chat.Server.Handlers.Rooms.{room_by_type, handle_room}
use cpp_socket_chat.Server.Handlers.Dispatch.{run_handler, find_handler, handle}

-- The packets that a client sends and waits for an answer to.
abbrev pub is_request : PacketType → Bool
is_request nickname_request = true
is_request create_room = true
is_request join_room = true
is_request exit_room = true
is_request _ = false

module _ (json : Json) (dis : ℕ → ℕ) (timestamp : Bytes) (fd : ℕ) (packet : Packet)
    (s : Server) where
  abbrev handled_as : PacketType → Server
  handled_as t = run_handler json dis timestamp fd packet (find_handler t) s

  abbrev room_handled_as : PacketType → Server
  room_handled_as t = room_by_type json t dis fd packet s

  answers_as :
      (t : PacketType)
      → packet.type ≡ t
      → sent_to fd (handled_as t) ≡ (if is_request t then suc (sent_to fd s) else sent_to fd s)
  unfolding run_handler find_handler room_by_type handle_room
  answers_as nickname_request e = handle_nickname-answers json fd packet s
  answers_as create_room e =
      ap (λ t. sent_to fd (room_handled_as t)) e ∙ handle_create_room-answers json dis fd packet s
  answers_as join_room e =
      ap (λ t. sent_to fd (room_handled_as t)) e ∙ handle_join_room-answers json fd packet s
  answers_as exit_room e =
      ap (λ t. sent_to fd (room_handled_as t)) e ∙ handle_exit_room-answers json fd packet s
  answers_as message_send e = handle_message_silent json timestamp fd packet s
  answers_as _ e = refl

  -- A request is answered by exactly one packet to the client that made it, whatever the request holds
  -- and whether or not it succeeds. A chat message, and a packet of any other type, sends its sender
  -- nothing.
  pub handle-answers :
      sent_to fd (handle json dis timestamp fd packet s)
      ≡ (if is_request packet.type then suc (sent_to fd s) else sent_to fd s)
  unfolding handle
  handle-answers = answers_as packet.type refl
