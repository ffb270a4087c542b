-- ===== src/Tests/Threads.antt =====
-- Worker threads at a concrete server.
use cpp_socket_chat.Prelude.{
  ℕ, ◌≡◌, refl, true, [], ◌∷◌, ◌++◌, bytes, pos, arith, nat_eq, bytes_beq,
}
use cpp_socket_chat.Map.{lookup, adjust}
use cpp_socket_chat.Members.{member}
use cpp_socket_chat.Protocol.{nickname_request, Packet, join_room, payload_text}
use cpp_socket_chat.Server.Clients
use cpp_socket_chat.Server.Clients.{ClientInfo}
use cpp_socket_chat.Server.Room.{Room, accept_new_user}
use cpp_socket_chat.Server.Rooms
use cpp_socket_chat.Server.Rooms.{RoomManager}
use cpp_socket_chat.Server.Rooms.Membership.{is_member}
use cpp_socket_chat.Server.State.{Server}
use cpp_socket_chat.Server.Handlers.{has_field, string_field}
use cpp_socket_chat.Server.Threads.{interleave}
use cpp_socket_chat.Server.Clients.Names.{Connected, IsWf}
use cpp_socket_chat.Server.Clients.Race.{named}
use cpp_socket_chat.Server.Threads.Named
use cpp_socket_chat.Server.Threads.Named.{Wants, named_both}
use cpp_socket_chat.Server.Threads.Joined.{Asks, both, joins_both}
use cpp_socket_chat.Tests.Toy.{toy, obj, text, field, end}

abbrev guest : ClientInfo
guest = Clients.fresh_client 8 []

abbrev room_x : Room
room_x = record { room_code = 120 ∷ []; room_name = []; max_user_cnt = pos 2; clients = [] }

abbrev room_y : Room
room_y = record { room_code = 121 ∷ []; room_name = []; max_user_cnt = pos 2; clients = [] }

abbrev two_rooms : Server
two_rooms = record {
  client_manager = record { clients = (8, guest) ∷ []; nicknames = [] };
  room_manager = record { rooms = (120 ∷ [], room_x) ∷ ((121 ∷ [], room_y) ∷ []); drawn = 0 };
  outbox = [];
}

-- { "roomCode": … }
abbrev to_room : ℕ → Packet
to_room b = record {
  type = join_room;
  size = 15;
  payload = 4 ∷ 1 ∷ 8 ∷ (bytes "roomCode" ++ 1 ∷ 1 ∷ b ∷ 0 ∷ []);
}

to_room-Asks_x : Asks toy (to_room 120) (120 ∷ [])
unfolding toy payload_text bytes has_field string_field
to_room-Asks_x = record {
  request = obj (field (bytes "roomCode") (text (120 ∷ [])) end);
  parsed = refl;
  has = refl;
  found = refl;
}

to_room-Asks_y : Asks toy (to_room 121) (121 ∷ [])
unfolding toy payload_text bytes has_field string_field
to_room-Asks_y = record {
  request = obj (field (bytes "roomCode") (text (121 ∷ [])) end);
  parsed = refl;
  has = refl;
  found = refl;
}

joins_both_example :
    (is_member 8
        (120 ∷ [])
        (interleave
          (0 ∷ (1 ∷ (0 ∷ (1 ∷ []))))
          (both toy (λ n. n) [] 8 (to_room 120) (to_room 121))
          two_rooms).1.room_manager
      ≡ true)
    × (is_member 8
          (121 ∷ [])
          (interleave
            (0 ∷ (1 ∷ (0 ∷ (1 ∷ []))))
            (both toy (λ n. n) [] 8 (to_room 120) (to_room 121))
            two_rooms).1.room_manager
        ≡ true)
unfolding Clients.get_client lookup bytes_beq member Rooms.join_room accept_new_user adjust
joins_both_example =
    joins_both toy (λ n. n) [] 8 (to_room 120) (to_room 121) (120 ∷ []) (121 ∷ []) guest two_rooms
      to_room-Asks_x to_room-Asks_y refl refl refl refl

-- { "nickname": "a" }
abbrev to_be_a : Packet
to_be_a = record {
  type = nickname_request;
  size = 15;
  payload = 4 ∷ 1 ∷ 8 ∷ (bytes "nickname" ++ 1 ∷ 1 ∷ 97 ∷ 0 ∷ []);
}

to_be_a-Wants : Wants toy to_be_a (97 ∷ [])
unfolding toy payload_text bytes has_field string_field
to_be_a-Wants = record {
  request = obj (field (bytes "nickname") (text (97 ∷ [])) end);
  parsed = refl;
  has = refl;
  found = refl;
}

abbrev two_clients : Server
two_clients = record two_rooms {
  client_manager = record {
    clients = (7, Clients.fresh_client 7 []) ∷ ((8, guest) ∷ []);
    nicknames = [];
  };
}

abbrev with_names : Server
with_names =
    (interleave (0 ∷ (1 ∷ (0 ∷ (1 ∷ [])))) (Named.both toy (λ n. n) [] 7 to_be_a 8 to_be_a)
      two_clients).1

named_both_example :
    Connected with_names.client_manager 7 (named (97 ∷ []) (Clients.fresh_client 7 []))
    × Connected with_names.client_manager 8 (named (97 ∷ []) guest)
    × ¬ (IsWf with_names.client_manager)
unfolding lookup Clients.is_nickname_taken member
named_both_example =
    named_both toy (λ n. n) [] 7 8 to_be_a to_be_a (97 ∷ []) (Clients.fresh_client 7 []) guest
      two_clients to_be_a-Wants to_be_a-Wants (omega arith) refl refl refl
