-- ===== src/Server/Events/Closed.antt =====
-- A client that is in a room when its connection ends.
use cpp_socket_chat.Prelude.{
  ℕ, true, false, Option, none, some, Bytes, ◌≡◌, refl, arith, nat_eq, bytes_eq,
}
use cpp_socket_chat.Map.{lookup}
use cpp_socket_chat.Server.Clients
use cpp_socket_chat.Server.Clients.Names.{removed-unknown}
use cpp_socket_chat.Server.Room.{Room}
use cpp_socket_chat.Server.Rooms.Membership.{is_member, member_of, can_join, has_space}
use cpp_socket_chat.Server.Events.{System, close_connection}

member-no-space : (fd : ℕ) (r : Option Room) → member_of fd r ≡ true → has_space fd r ≡ false
member-no-space fd none h = refl
member-no-space fd (some r) h = ground arith

-- A client that is in a room when its connection is closed is forgotten by the client manager and
-- stays a member of the room; a later client with the same descriptor cannot join that room.
pub closed_stays_member :
    (fd : ℕ) (code : Bytes) (t : System)
    → is_member fd code t.server.room_manager ≡ true
    → (Clients.get_client fd (close_connection fd t).server.client_manager ≡ none)
      × (is_member fd code (close_connection fd t).server.room_manager ≡ true)
      × (can_join fd code (close_connection fd t).server.room_manager ≡ false)
unfolding close_connection Clients.get_client
closed_stays_member fd code t h = (
  removed-unknown fd t.server.client_manager,
  h,
  member-no-space fd (lookup code t.server.room_manager.rooms) h,
)
