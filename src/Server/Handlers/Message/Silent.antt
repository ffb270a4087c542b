-- ===== src/Server/Handlers/Message/Silent.antt =====
-- The message handler sends its sender nothing.
use cpp_socket_chat.Prelude.{
  ℕ, not, Bool, true, false, Option, none, some, Bytes, ◌≡◌, refl, is_empty, if◌then◌else◌,
}
use cpp_socket_chat.Json.{Json}
use cpp_socket_chat.Protocol.{Packet}
use cpp_socket_chat.Server.Clients
use cpp_socket_chat.Server.Clients.{ClientInfo}
use cpp_socket_chat.Server.State.{Server}
use cpp_socket_chat.Server.State.Answers.{
  sent_to, sent_to-broadcast, Silent, Silent-modify, Silent-if, Silent-pure, Silent-lift,
}
use cpp_socket_chat.Server.Handlers.Message.{message_body, message_from, handle_message}

choose :
    (fd before : ℕ) (b : Bool) (s t : Server)
    → sent_to fd s ≡ before
    → sent_to fd t ≡ before
    → sent_to fd (if b then s else t) ≡ before
choose fd before true s t h k = h
choose fd before false s t h k = k

module _ (json : Json) where
  message_body-Silent :
      (timestamp : Bytes) (fd : ℕ) (sender : ClientInfo) (packet : Packet)
      → Silent fd (message_body json timestamp fd sender packet)
  unfolding message_body
  message_body-Silent timestamp fd sender packet = Silent-lift _ _ λ request.
      Silent-lift _ _ λ message. Silent-lift _ _ λ text.
        Silent-if _ _ _ Silent-pure (Silent-modify _ (sent_to-broadcast fd _ sender.room_code))

  from_silent :
      (timestamp : Bytes) (fd : ℕ) (c : Option ClientInfo) (packet : Packet) (s : Server)
      → sent_to fd (message_from json timestamp fd c packet s) ≡ sent_to fd s
  unfolding message_from
  from_silent timestamp fd none packet s = refl
  from_silent timestamp fd (some c) packet s = choose fd _ (not c.is_authenticated) _ _ refl (
      choose fd _ (is_empty c.room_code) _ _ refl
        ((message_body-Silent timestamp fd c packet).at s))

  pub handle_message_silent :
      (timestamp : Bytes) (fd : ℕ) (packet : Packet) (s : Server)
      → sent_to fd (handle_message json timestamp fd packet s) ≡ sent_to fd s
  unfolding handle_message
  handle_message_silent timestamp fd packet s =
      from_silent timestamp fd (Clients.get_client fd s.client_manager) packet s
