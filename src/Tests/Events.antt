-- ===== src/Tests/Events.antt =====
-- The handlers and the event loop at a concrete server.
use cpp_socket_chat.Prelude.{
  ℕ, ◌≡◌, refl, arith, pos, true, false, none, some, [], ◌∷◌, ◌++◌, Bytes, bytes, bytes_eq, nat_eq,
  bytes_beq,
}
use cpp_socket_chat.Map.{lookup, insert, adjust}
use cpp_socket_chat.Members.{member, add}
use cpp_socket_chat.Protocol.{
  of_code, Packet, message_send, exit_room, message_chat, reply, payload_text, nickname_request,
}
use cpp_socket_chat.Server.Clients
use cpp_socket_chat.Server.Clients.{ClientInfo}
use cpp_socket_chat.Server.Room.{Room}
use cpp_socket_chat.Server.Rooms.Membership.{is_member, can_join}
use cpp_socket_chat.Server.State.{Server}
use cpp_socket_chat.Server.State.Answers.{sent_to}
use cpp_socket_chat.Server.State.Broadcast.{posted}
use cpp_socket_chat.Server.Handlers.Message.{chat_json, handle_message}
use cpp_socket_chat.Server.Handlers.Message.Delivery
use cpp_socket_chat.Server.Handlers.Rooms.{handle_exit_room}
use cpp_socket_chat.Server.Handlers.Rooms.Effect
use cpp_socket_chat.Server.State.Leads.{managers}
use cpp_socket_chat.Server.Handlers.Dispatch.{handle}
use cpp_socket_chat.Server.Handlers.Dispatch.Answers
use cpp_socket_chat.Server.Parser.{parse_packets, parse_loop, packet_size, front_packet}
use cpp_socket_chat.Server.Events.{
  accept_new_connection, receive_and_parse, System, accepted, refused, received, ended,
  handle_event, start, close_connection,
}
use cpp_socket_chat.Server.Events.Closed
use cpp_socket_chat.Client.Network.{NetworkClient}
use cpp_socket_chat.Client.Network.Interface.{network_client}
use cpp_socket_chat.Client.Chat.{start_receiving}
use cpp_socket_chat.Client.Chat.Shown.{messages_of}
use cpp_socket_chat.Client.Chat.Across.{packets_for, message_shown}
use cpp_socket_chat.Protocol.{wire}
use cpp_socket_chat.Prelude.{map, concat}
use cpp_socket_chat.Tests.Toy.{toy, Value, obj, text, field, end}

abbrev ann : ClientInfo
ann = record {
  fd = 7;
  ip = [];
  nickname = 97 ∷ [];
  is_authenticated = true;
  recv_buffer = [];
  room_code = 120 ∷ [];
}

abbrev den : Room
den = record {
  room_code = 120 ∷ [];
  room_name = [];
  max_user_cnt = pos 3;
  clients = 7 ∷ 8 ∷ 9 ∷ [];
}

abbrev server : Server
server = record {
  client_manager = record { clients = (7, ann) ∷ []; nicknames = (97 ∷ []) ∷ [] };
  room_manager = record { rooms = (120 ∷ [], den) ∷ []; drawn = 8 };
  outbox = [];
}

abbrev greeting : Value
greeting = obj (field (bytes "message") (text (bytes "hi")) end)

-- The text of the greeting, in the notation of the JSON library above.
abbrev greeting_text : Bytes
greeting_text = 4 ∷ 1 ∷ 7 ∷ (bytes "message" ++ 1 ∷ 2 ∷ 104 ∷ 105 ∷ 0 ∷ [])

abbrev chat : Packet
chat = record { type = message_send; size = 15; payload = greeting_text }

-- The text that goes to the others.
abbrev chat_text : Bytes
chat_text =
    4
    ∷ 1
    ∷ 9
    ∷ (bytes "sender_fd"
        ++ 2
          ∷ 7
          ∷ 1
          ∷ 9
          ∷ (bytes "sender_ip"
              ++ 1
                ∷ 0
                ∷ 1
                ∷ 15
                ∷ (bytes "sender_nickname"
                    ++ 1
                      ∷ 1
                      ∷ 97
                      ∷ 1
                      ∷ 7
                      ∷ (bytes "message"
                          ++ 1 ∷ 2 ∷ 104 ∷ 105 ∷ 1 ∷ 9 ∷ (bytes "timestamp" ++ 1 ∷ 0 ∷ 0 ∷ [])))))

handle_message-posted_example :
    handle_message toy [] 7 chat server
    ≡ posted ((8, reply message_chat chat_text) ∷ (9, reply message_chat chat_text) ∷ []) server
unfolding toy lookup payload_text chat_json bytes Clients.get_client
handle_message-posted_example =
    Delivery.handle_message-posted toy [] 7 chat server ann greeting (text (bytes "hi")) chat_text
      den refl refl refl refl refl refl (omega arith) refl

handle_message-OnlyChats_example : Delivery.OnlyChats server 7 (handle_message toy [] 7 chat server)
handle_message-OnlyChats_example = Delivery.handle_message-OnlyChats toy [] 7 chat server

abbrev dis : ℕ → ℕ
dis i = 1

handle-answers_example :
    sent_to 7 (handle toy dis [] 7 (record { type = exit_room; size = 0; payload = [] }) server) ≡ 1
handle-answers_example =
    Answers.handle-answers toy dis [] 7 (record { type = exit_room; size = 0; payload = [] }) server

abbrev system : System
system = record { server = server; tasks = []; watched = 7 ∷ 3 ∷ []; listener_fd = 3 }

closed_stays_member_example :
    (Clients.get_client 7 (close_connection 7 system).server.client_manager ≡ none)
    × (is_member 7 (120 ∷ []) (close_connection 7 system).server.room_manager ≡ true)
    × (can_join 7 (120 ∷ []) (close_connection 7 system).server.room_manager ≡ false)
unfolding lookup member bytes_beq
closed_stays_member_example = Closed.closed_stays_member 7 (120 ∷ []) system refl

-- A client connects, sends its nickname, and the packet is handled.
abbrev pub connected : System
connected = record {
  server = record {
    client_manager = record { clients = (7, Clients.fresh_client 7 []) ∷ []; nicknames = [] };
    room_manager = record { rooms = []; drawn = 0 };
    outbox = [];
  };
  tasks = [];
  watched = 7 ∷ 3 ∷ [];
  listener_fd = 3;
}

abbrev pub queued : System
queued = record connected {
  tasks = (7, record { type = nickname_request; size = 1; payload = 0 ∷ [] }) ∷ [];
}

pub connects : handle_event 3 (accepted 7 []) true ended (start 3) ≡ some connected
unfolding handle_event start accept_new_connection lookup Clients.add_client add insert member
connects = refl

pub sends : handle_event 7 refused false (received 0 (101 ∷ 0 ∷ 1 ∷ 0 ∷ [])) connected ≡ some queued
unfolding handle_event receive_and_parse parse_packets lookup Clients.get_client parse_loop
    packet_size Clients.set_recv_buffer front_packet adjust of_code
sends = refl

handle_exit_room-Exits_example :
    Effect.Exits 7 (managers server) (managers (handle_exit_room toy 7 chat server))
handle_exit_room-Exits_example = Effect.handle_exit_room-Exits toy 7 chat server

-- The client of descriptor 8, whose connection delivers what the server sends to it.
abbrev reader : NetworkClient
reader = record {
  connected = true;
  incoming = concat (map wire (packets_for 8 (handle_message toy [] 7 chat server).outbox));
  outgoing = [];
  outcomes = [];
}

message_shown_example :
    (start_receiving toy network_client (λ _. true) reader).messages
    ≡ messages_of toy (reply message_chat chat_text ∷ [])
unfolding toy lookup payload_text chat_json bytes Clients.get_client member
message_shown_example =
    message_shown toy [] 7 8 chat server ann reader greeting (text (bytes "hi")) chat_text den refl
      refl refl refl refl refl (omega arith) refl (refl, (refl, (refl, tt))) refl refl refl refl
      refl
