-- ===== src/Tests/Client.antt =====
-- The client at a concrete connection.
use cpp_socket_chat.Prelude.{
  ◌≡◌, refl, arith, true, some, [], ◌∷◌, ◌++◌, map, concat, Bytes, bytes, negsuc,
}
use cpp_socket_chat.Members.{member}
use cpp_socket_chat.Protocol.{
  Packet, message_chat, nickname_response_ok, nickname_request, to_code, of_code, wire, reply,
  empty_reply,
}
use cpp_socket_chat.Protocol.Wire.{IsSendable}
use cpp_socket_chat.Protocol.{payload_text}
use cpp_socket_chat.Server.Clients
use cpp_socket_chat.Server.State.{Server, send_packet}
use cpp_socket_chat.Server.Handlers.Nickname.{handle_nickname}
use cpp_socket_chat.Client.Network.{NetworkClient}
use cpp_socket_chat.Client.Network.Receive
use cpp_socket_chat.Client.Network.Receive.{receive_all}
use cpp_socket_chat.Client.Network.Interface.{network_client}
use cpp_socket_chat.Client.Packets.{
  Message, chat, built, create_nickname_request_packet, parse_message_packet,
}
use cpp_socket_chat.Client.Connection.Registration
use cpp_socket_chat.Client.Connection.Registration.{ReadsBack}
use cpp_socket_chat.Client.Chat.{start_receiving}
use cpp_socket_chat.Client.Chat.Shown
use cpp_socket_chat.Client.Chat.Shown.{messages_of}
use cpp_socket_chat.Tests.Toy.{toy, obj, text, field, end}

abbrev granted : Packet
granted = record { type = nickname_response_ok; size = 0; payload = [] }

-- { "message": "hi" }
abbrev spoken : Packet
spoken = record {
  type = message_chat;
  size = 15;
  payload = 4 ∷ 1 ∷ 7 ∷ (bytes "message" ++ 1 ∷ 2 ∷ 104 ∷ 105 ∷ 0 ∷ []);
}

granted-IsSendable : IsSendable granted
unfolding to_code of_code
granted-IsSendable = record {
  fits = omega arith;
  filled = refl;
  code_range = omega arith;
  canonical = refl;
}

spoken-IsSendable : IsSendable spoken
unfolding to_code of_code bytes
spoken-IsSendable = record {
  fits = omega arith;
  filled = refl;
  code_range = omega arith;
  canonical = refl;
}

abbrev connection : NetworkClient
connection = record {
  connected = true;
  incoming = concat (map wire (granted ∷ spoken ∷ []));
  outgoing = [];
  outcomes = some 3 ∷ some 9 ∷ [];
}

receive_all-wires_example : receive_all 3 connection ≡ granted ∷ spoken ∷ []
receive_all-wires_example =
    Receive.receive_all-wires (granted ∷ spoken ∷ []) 3 connection
      (granted-IsSendable, (spoken-IsSendable, tt)) (omega arith) refl

abbrev short : NetworkClient
short = record {
  connected = true;
  incoming = 0 ∷ 101 ∷ 0 ∷ 1 ∷ 7 ∷ 8 ∷ [];
  outgoing = [];
  outcomes = [];
}

abbrev said : Message
said = record {
  content = 104 ∷ 105 ∷ [];
  sender_nickname = [];
  sender_ip = [];
  timestamp = [];
  sender_fd = negsuc 0;
  type = chat;
}

start_receiving-messages_example :
    (start_receiving toy network_client (λ _. true) connection).messages ≡ said ∷ []
unfolding toy messages_of parse_message_packet payload_text
start_receiving-messages_example =
    Shown.start_receiving-messages toy (granted ∷ spoken ∷ []) connection
      (granted-IsSendable, (spoken-IsSendable, tt)) refl refl

-- { "nickname": "ann" } in the notation of the JSON library above.
abbrev wish : Bytes
wish = 4 ∷ 1 ∷ 8 ∷ (bytes "nickname" ++ 1 ∷ 3 ∷ 97 ∷ 110 ∷ 110 ∷ 0 ∷ [])

wish-ReadsBack : ReadsBack toy (bytes "nickname") (bytes "ann") wish
unfolding toy bytes
wish-ReadsBack = record {
  written = refl;
  object = obj (field (bytes "nickname") (text (bytes "ann")) end);
  field = text (bytes "ann");
  read = refl;
  has = refl;
  found = refl;
  is_text = refl;
  same = refl;
}

abbrev one_client : Server
one_client = record {
  client_manager = record { clients = (7, Clients.fresh_client 7 []) ∷ []; nicknames = [] };
  room_manager = record { rooms = []; drawn = 0 };
  outbox = [];
}

nickname_request-handled_example :
    (create_nickname_request_packet toy (bytes "ann") ≡ built (reply nickname_request wish))
    × (handle_nickname toy 7 (reply nickname_request wish) one_client
        ≡ send_packet 7 (empty_reply nickname_response_ok) (record one_client {
          client_manager = Clients.set_nickname 7 (bytes "ann") one_client.client_manager;
        }))
unfolding Clients.is_nickname_taken member bytes
nickname_request-handled_example =
    Registration.nickname_request-handled toy 7 (bytes "ann") wish one_client wish-ReadsBack
      (omega arith)
