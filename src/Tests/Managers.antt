-- ===== src/Tests/Managers.antt =====
-- The two managers at concrete clients and rooms.
use cpp_socket_chat.Prelude.{
  none, length, some, Bytes, ℕ, ◌≡◌, refl, arith, pos, true, false, [], ◌∷◌, Bytes, bytes_eq,
  nat_eq, bytes_beq,
}
use cpp_socket_chat.Map.{insert, adjust, lookup}
use cpp_socket_chat.Members.{member}
use cpp_socket_chat.Server.Clients
use cpp_socket_chat.Server.Clients.{ClientInfo, ClientManager}
use cpp_socket_chat.Server.Clients.Names
use cpp_socket_chat.Server.Clients.Renamed
use cpp_socket_chat.Server.Clients.Renamed.{IsBorne}
use cpp_socket_chat.Server.Room.{Room, new_room}
use cpp_socket_chat.Server.Rooms
use cpp_socket_chat.Server.Rooms.{RoomManager}
use cpp_socket_chat.Server.Rooms.Codes
use cpp_socket_chat.Server.Rooms.Invariant
use cpp_socket_chat.Server.Rooms.Membership
use cpp_socket_chat.Server.Rooms.Membership.{is_member, can_join}

abbrev ann : ClientInfo
ann = record {
  fd = 7;
  ip = [];
  nickname = 97 ∷ [];
  is_authenticated = true;
  recv_buffer = [];
  room_code = 120 ∷ [];
}

abbrev guest : ClientInfo
guest = record {
  fd = 8;
  ip = [];
  nickname = [];
  is_authenticated = false;
  recv_buffer = [];
  room_code = [];
}

abbrev nobody : ClientManager
nobody = record { clients = []; nicknames = [] }

abbrev no_rooms : RoomManager
no_rooms = record { rooms = []; drawn = 0 }

nobody-IsWf : Names.IsWf nobody
unfolding lookup
nobody-IsWf = record {
  keys = tt;
  keyed = λ j d h. cc;
  registered = λ j d h. cc;
  unique = λ f g c d hc. cc;
}

no_rooms-IsWf : Invariant.IsWf no_rooms
unfolding lookup
no_rooms-IsWf = record { keys = tt; bounded = omega arith; at_key = λ code r h. cc }

-- Two who connect; the first takes a nickname.
abbrev both : ClientManager
both = Clients.add_client 8 [] (Clients.add_client 7 [] nobody)

both-IsWf : Names.IsWf both
both-IsWf = Names.add_client-IsWf 8 [] _ (Names.add_client-IsWf 7 [] nobody nobody-IsWf)

abbrev one_named : ClientManager
one_named = Clients.set_nickname 7 (97 ∷ []) both

free_name : Clients.is_nickname_taken (97 ∷ []) both ≡ false
unfolding Clients.is_nickname_taken Clients.add_client member
free_name = refl

-- The first client, and the manager when it has another nickname.
abbrev named_ann : ClientInfo
named_ann = record (Clients.fresh_client 7 []) { nickname = 97 ∷ []; is_authenticated = true }

one_named-IsWf : Names.IsWf one_named
one_named-IsWf = Names.set_nickname-IsWf 7 (97 ∷ []) both free_name both-IsWf

named_7 : lookup 7 one_named.clients ≡ some named_ann
unfolding lookup Clients.add_client Clients.set_nickname insert adjust
named_7 = refl

abbrev renamed : ClientManager
renamed = Clients.set_nickname 7 (97 ∷ 98 ∷ []) one_named

renamed_stays_taken_example :
    ¬ (IsBorne (97 ∷ []) renamed)
    × (Clients.is_nickname_taken (97 ∷ []) renamed ≡ true)
    × ¬ (IsBorne (97 ∷ []) (Clients.remove_client 7 renamed))
    × (Clients.is_nickname_taken (97 ∷ []) (Clients.remove_client 7 renamed) ≡ true)
renamed_stays_taken_example =
    Renamed.renamed_stays_taken 7 (97 ∷ 98 ∷ []) named_ann one_named one_named-IsWf named_7 refl
      (λ e. cc)

abbrev den : Room
den = record { room_code = 120 ∷ []; room_name = []; max_user_cnt = pos 2; clients = 7 ∷ [] }

abbrev one_room : RoomManager
one_room = record { rooms = (120 ∷ [], den) ∷ []; drawn = 8 }

is_member-join_room_example :
    is_member 8 (120 ∷ []) (Rooms.join_room 8 (120 ∷ []) one_room).1 ≡ true
unfolding lookup bytes_beq member
is_member-join_room_example = Membership.is_member-join_room 8 (120 ∷ []) one_room 8 (120 ∷ [])

-- Eight times the character 'b' is the first code that is drawn.
abbrev bs : ℕ → ℕ
bs i = 1

abbrev made : RoomManager
made = (Rooms.add_room bs [] (pos 4) no_rooms).1

abbrev made_code : Bytes
made_code = (Rooms.add_room bs [] (pos 4) no_rooms).0

made-IsWf : Invariant.IsWf made
made-IsWf = Invariant.add_room-IsWf bs [] (pos 4) no_rooms no_rooms-IsWf

-- The first client is let in.
abbrev code : Bytes
code = Rooms.generate_room_code bs 0

abbrev joined : RoomManager
joined = (Rooms.join_room 7 code made).1

joined-IsWf : Invariant.IsWf joined
joined-IsWf = Invariant.join_room-IsWf 7 code made made-IsWf

is_member-leave_room_example : is_member 7 code (Rooms.leave_room 7 code joined) ≡ false
unfolding Rooms.generate_room_code bytes_beq
is_member-leave_room_example = Membership.is_member-leave_room 7 code joined 7 code joined-IsWf

add_room_succeeds_example :
    (length made_code ≡ 8)
    × (lookup made_code no_rooms.rooms ≡ none)
    × (lookup made_code made.rooms ≡ some (new_room made_code [] (pos 4)))
unfolding lookup
add_room_succeeds_example =
    Codes.add_room_succeeds bs [] (pos 4) no_rooms 0 (omega arith) (omega arith) refl
