-- ===== src/Tests/Served.antt =====
-- A client joins and creates a room of a concrete server.
use cpp_socket_chat.Prelude.{
  ◌≢◌, bytes_beq, nat_eq, bytes_eq, ◌≡◌, refl, arith, true, some, [], ◌∷◌, ◌++◌, Bytes, bytes, pos,
}
use cpp_socket_chat.Protocol.{
  Packet, create_room, join_room, room_join_ok, to_code, of_code, htons, wire, reply, clipped_reply,
  payload_text,
}
use cpp_socket_chat.Server.Parser.{payload_size}
use cpp_socket_chat.Server.Clients
use cpp_socket_chat.Server.State.{Server, send_packet}
use cpp_socket_chat.Server.Handlers.{user_json, has_field, string_field, int_field}
use cpp_socket_chat.Server.Handlers.Rooms.{handle_create_room, handle_join_room}
use cpp_socket_chat.Map.{lookup}
use cpp_socket_chat.Members.{member}
use cpp_socket_chat.Server.Rooms.{generate_room_code}
use cpp_socket_chat.Server.Rooms.Membership.{is_member}
use cpp_socket_chat.Server.Handlers.Rooms.Joins.{entered, handle_join_room-managers}
use cpp_socket_chat.Server.Handlers.Rooms.Twice.{Requests, creator_in_two}
use cpp_socket_chat.Server.Handlers.Rooms.Creates.{Creates, handle_create_room-Creates}
use cpp_socket_chat.Server.State.Leads.{managers}
use cpp_socket_chat.Client.Network.{NetworkClient, receive}
use cpp_socket_chat.Client.Network.Interface.{network_client}
use cpp_socket_chat.Client.Services.{returned}
use cpp_socket_chat.Client.Rooms as Service
use cpp_socket_chat.Client.Rooms.{RoomService}
use cpp_socket_chat.Client.Rooms.Served.{answer, let_in, CarriesCode, join_room-served}
use cpp_socket_chat.Tests.Toy.{num, toy, obj, text, field, end}

-- { "roomCode": "x" }
abbrev code_text : Bytes
code_text = 4 ∷ 1 ∷ 8 ∷ (bytes "roomCode" ++ 1 ∷ 1 ∷ 120 ∷ 0 ∷ [])

code_text-CarriesCode : CarriesCode toy (120 ∷ []) code_text
unfolding toy bytes
code_text-CarriesCode = record {
  reads_back = record {
    written = refl;
    object = obj (field (bytes "roomCode") (text (120 ∷ [])) end);
    field = text (120 ∷ []);
    read = refl;
    has = refl;
    found = refl;
    is_text = refl;
    same = refl;
  };
  value = refl;
  short = omega arith;
  filled = omega arith;
}

-- { "clientFd": 8, "nickname": "Anonymous" }
abbrev user_text : Bytes
user_text =
    4
    ∷ 1
    ∷ 8
    ∷ (bytes "clientFd"
        ++ 2 ∷ 8 ∷ 1 ∷ 8 ∷ (bytes "nickname" ++ 1 ∷ 9 ∷ (bytes "Anonymous" ++ 0 ∷ [])))

-- A server with one client and a room for two.
abbrev house : Server
house = record {
  client_manager = record { clients = (8, Clients.fresh_client 8 []) ∷ []; nicknames = [] };
  room_manager = record {
    rooms =
        (
          120 ∷ [],
          record { room_code = 120 ∷ []; room_name = []; max_user_cnt = pos 2; clients = [] },
        )
        ∷ [];
    drawn = 0;
  };
  outbox = [];
}

-- The server's answer to JOIN_ROOM: { "roomCode": "x" }.
abbrev welcome : Packet
welcome = record { type = room_join_ok; size = 15; payload = code_text }

abbrev lobby : RoomService toy network_client
lobby = record {
  network = record {
    connected = true;
    incoming = wire welcome;
    outgoing = [];
    outcomes = some 100 ∷ [];
  };
  current_room_code = [];
}

abbrev inside : RoomService toy network_client
inside = record {
  network = record {
    connected = true;
    incoming = [];
    outgoing = 1 ∷ 47 ∷ 0 ∷ 15 ∷ code_text;
    outcomes = [];
  };
  current_room_code = 120 ∷ [];
}

abbrev asked : NetworkClient
asked = record inside.network { incoming = wire welcome }

join_room-served_example :
    (handle_join_room toy 8 (reply join_room code_text) house
      ≡ send_packet 8 (answer true code_text) (let_in true 8 (120 ∷ []) user_text house))
    × (Service.join_room toy network_client (120 ∷ []) lobby ≡ returned (some (120 ∷ []), inside))
unfolding Clients.get_client cpp_socket_chat.Map.Defs.lookup cpp_socket_chat.Client.Network.send
    cpp_socket_chat.Members.member toy bytes receive wire htons to_code of_code payload_size
    payload_text reply clipped_reply user_json
join_room-served_example =
    join_room-served toy 8 (120 ∷ []) code_text network_client lobby code_text-CarriesCode
      (Clients.fresh_client 8 []) user_text house asked inside.network refl refl refl refl refl refl

-- { "roomName": "x", "maxUsers": 2 }
abbrev new_room_request : Packet
new_room_request = record {
  type = create_room;
  size = 27;
  payload =
      4 ∷ 1 ∷ 8 ∷ (bytes "roomName" ++ 1 ∷ 1 ∷ 120 ∷ 1 ∷ 8 ∷ (bytes "maxUsers" ++ 2 ∷ 2 ∷ 0 ∷ []));
}

handle_create_room-Creates_example :
    Creates 8 (managers house) (managers (handle_create_room toy (λ n. n) 8 new_room_request house))
handle_create_room-Creates_example =
    handle_create_room-Creates toy (λ n. n) 8 new_room_request house

handle_join_room-managers_example :
    managers (handle_join_room toy 8 (reply join_room code_text) house)
    ≡ entered 8 (120 ∷ []) (managers house)
unfolding toy bytes payload_text reply Clients.get_client lookup member has_field string_field
handle_join_room-managers_example =
    handle_join_room-managers toy 8 (reply join_room code_text) house (refl, tt)

-- The same server when the client is in the room.
abbrev home : Server
home = record house {
  room_manager = record {
    rooms =
        (
          120 ∷ [],
          record { room_code = 120 ∷ []; room_name = []; max_user_cnt = pos 2; clients = 8 ∷ [] },
        )
        ∷ [];
    drawn = 0;
  };
}

new_room_request-Requests : Requests toy new_room_request (120 ∷ []) (pos 2)
unfolding toy payload_text bytes has_field string_field int_field
new_room_request-Requests = record {
  request =
      obj (field (bytes "roomName") (text (120 ∷ [])) (field (bytes "maxUsers") (num (pos 2)) end));
  parsed = refl;
  has_name = refl;
  has_limit = refl;
  name_found = refl;
  limit_found = refl;
}

creator_in_two_example :
    (is_member 8 (120 ∷ []) (handle_create_room toy (λ n. 1) 8 new_room_request home).room_manager
      ≡ true)
    × ((code : Bytes) × (code ≢ 120 ∷ [])
        × (is_member 8 code (handle_create_room toy (λ n. 1) 8 new_room_request home).room_manager
            ≡ true))
unfolding Clients.get_client lookup member generate_room_code bytes_beq
creator_in_two_example =
    creator_in_two toy (λ n. 1) 8 new_room_request (120 ∷ []) (pos 2) home new_room_request-Requests
      (120 ∷ []) (Clients.fresh_client 8 []) 0 refl refl (omega arith) (omega arith) (omega arith)
      refl
