-- ===== src/Server/Handlers/Rooms/Twice.antt =====
-- A client that is in a room, and creates another one.
use cpp_socket_chat.Prelude.{
  ℕ, ℤ, ◌+◌, ◌*◌, ◌<◌, true, false, none, some, Bytes, bytes, ◌≡◌, ◌≢◌, refl, ap, ◌∙◌, length,
  ==_refl, bytes_eq, nat_eq, to_size_t, is_empty, lt→not-leb,
}
use cpp_socket_chat.Json.{Json, ok}
use cpp_socket_chat.Map.{lookup}
use cpp_socket_chat.Members.{member}
use cpp_socket_chat.Protocol.{Packet, payload_text}
use cpp_socket_chat.Server.Clients
use cpp_socket_chat.Server.Clients.{ClientInfo}
use cpp_socket_chat.Server.Room.{new_room}
use cpp_socket_chat.Server.Rooms
use cpp_socket_chat.Server.Rooms.{RoomManager, generate_room_code}
use cpp_socket_chat.Server.Rooms.Codes.{add_room_succeeds}
use cpp_socket_chat.Server.Rooms.Membership.{is_member, can_join, is_member-join_room}
use cpp_socket_chat.Server.State
use cpp_socket_chat.Server.State.{Server, ◌>>=◌}
use cpp_socket_chat.Server.State.Leads.{Managers, managers}
use cpp_socket_chat.Server.Handlers.{has_field, string_field, int_field}
use cpp_socket_chat.Server.Handlers.Leads.{conclude-managers}
use cpp_socket_chat.Server.Handlers.Rooms.{created, create_body, handle_create_room}
use cpp_socket_chat.Server.Handlers.Rooms.Creates.{entered_by, eight-given, created-Leads}
use cpp_socket_chat.Server.Handlers.Rooms.Creator.{create_keeps_members}

module _ (json : Json) where
  -- A packet is the request for a room with this name and this limit.
  pub record Requests (packet : Packet) (name : Bytes) (max_users : ℤ) : Type 0 where
    pub request : json.Value
    pub parsed : json.parse (payload_text packet) ≡ ok request
    pub has_name : has_field json json.is_string request (bytes "roomName") ≡ ok true
    pub has_limit : has_field json json.is_number request (bytes "maxUsers") ≡ ok true
    pub name_found : string_field json request (bytes "roomName") ≡ ok name
    pub limit_found : int_field json request (bytes "maxUsers") ≡ ok max_users

  module _ (dis : ℕ → ℕ) (fd : ℕ) (packet : Packet) (name : Bytes) (max_users : ℤ) (s : Server)
      (r : Requests packet name max_users) where
    -- The managers behind addRoom.
    abbrev added : Managers
    added = record {
      clients = s.client_manager;
      rooms = (Rooms.add_room dis name max_users s.room_manager).1;
    }

    abbrev new_code : Bytes
    new_code = (Rooms.add_room dis name max_users s.room_manager).0

    create_body-managers :
        managers (create_body json dis fd packet s).1
        ≡ managers ((State.add_room dis name max_users >>= created json fd) s).1
    unfolding create_body ◌>>=◌
    create_body-managers = rw (r.parsed, r.has_name, r.has_limit, r.name_found, r.limit_found) refl

    create_room-managers :
        is_empty new_code ≡ false
        → managers (handle_create_room json dis fd packet s)
          ≡ entered_by (Clients.get_client fd s.client_manager) fd new_code added
    unfolding handle_create_room ◌>>=◌ State.add_room
    create_room-managers given =
        conclude-managers fd _ (create_body json dis fd packet s)
        ∙ create_body-managers
        ∙ (created-Leads json fd new_code
              (λ u. u ≡ entered_by (Clients.get_client fd s.client_manager) fd new_code added) added
              given refl).at
            (record s { room_manager = added.rooms }) refl

    new_room-can_join :
        0 < to_size_t max_users
        → lookup new_code added.rooms.rooms ≡ some (new_room new_code name max_users)
        → can_join fd new_code added.rooms ≡ true
    unfolding new_room member
    new_room-can_join limit found = rw (found, lt→not-leb (to_size_t max_users) 0 limit) refl

    apart :
        (old : Bytes)
        → is_member fd old s.room_manager ≡ true
        → lookup new_code s.room_manager.rooms ≡ none
        → new_code ≢ old
    apart old inside fresh e = absurd (cc)

    -- A known client is a member of a room, and asks for a room of its own, with a limit that is not
    -- zero; there are fewer than a hundred rooms, and one of the first hundred codes that are drawn is not
    -- in use. Then the client is a member of its old room and of a new one, which has another code.
    pub creator_in_two :
        (old : Bytes) (c : ClientInfo) (k : ℕ)
        → Clients.get_client fd s.client_manager ≡ some c
        → is_member fd old s.room_manager ≡ true
        → 0 < to_size_t max_users
        → length s.room_manager.rooms < 100
        → k < 100
        → lookup (generate_room_code dis (s.room_manager.drawn + 8 * k)) s.room_manager.rooms ≡ none
        → (is_member fd old (handle_create_room json dis fd packet s).room_manager ≡ true)
          × ((code : Bytes) × (code ≢ old)
              × (is_member fd code (handle_create_room json dis fd packet s).room_manager ≡ true))
    creator_in_two old c k known inside limit room h free =
        let (eight, fresh, found) =
          add_room_succeeds dis name max_users s.room_manager k room h free in
        let admits = new_room-can_join limit found in
        (
          create_keeps_members fd old json dis fd packet s inside,
          (
            new_code,
            apart old inside fresh,
            ap (λ (u : Managers). is_member fd new_code u.rooms)
                  (create_room-managers (eight-given new_code eight))
                ∙ rw (known, admits)
                    (is_member-join_room fd new_code added.rooms fd new_code
                      ∙ rw (admits, ==_refl new_code, ==_refl fd) refl),
          ),
        )
