-- ===== src/Server/State.antt =====
-- The part of `Server` that the packet handlers work on (server/src/application/Server.cpp): the two
-- managers, and what has been handed to PacketSender::send, in order. A handler's statements are
-- actions on it: what was changed before a JSON exception stays changed.
pub mod Ensures
pub mod Leads
pub mod Broadcast
pub mod Answers
pub mod Invariant
pub mod Steps
use cpp_socket_chat.Prelude.{
  ℕ, ℤ, Bool, true, false, not, Option, none, some, List, [], ◌∷◌, ◌++◌, Bytes, fd_eq,
  if◌then◌else◌,
}
use cpp_socket_chat.Json.{JsonError, Result, ok, throw}
use cpp_socket_chat.Protocol.{Packet}
use cpp_socket_chat.Server.Clients
use cpp_socket_chat.Server.Clients.{ClientManager, ClientInfo}
use cpp_socket_chat.Server.Room.{Room, get_client_fds}
use cpp_socket_chat.Server.Rooms
use cpp_socket_chat.Server.Rooms.{RoomManager}

pub record Server : Type 0 where
  pub client_manager : ClientManager
  pub room_manager : RoomManager
  pub outbox : List (ℕ × Packet)

-- Server::sendPacket
unfoldable pub send_packet : ℕ → Packet → Server → Server
send_packet fd p s = record s { outbox = s.outbox ++ (fd, p) ∷ [] }

-- for (int fd : fds) if (fd != exclude_fd) send(fd, packet);
unfoldable pub send_each : ℤ → Packet → List ℕ → Server → Server
unfolding send_packet
send_each exclude_fd p [] s = s
send_each exclude_fd p (fd ∷ fds) s =
    send_each exclude_fd p fds (if fd_eq fd exclude_fd then s else send_packet fd p s)

-- for (int fd : fds_to_send) send(fd, packet);
unfoldable pub send_all : Packet → List ℕ → Server → Server
unfolding send_packet
send_all p [] s = s
send_all p (fd ∷ fds) s = send_all p fds (send_packet fd p s)

-- Server::broadcastPacket, PacketSender::broadcast
unfoldable pub broadcast_packet : Packet → ℤ → Server → Server
broadcast_packet p exclude_fd s =
    send_all p (Clients.get_all_authenticated_client_fds exclude_fd s.client_manager) s

unfoldable pub send_room : Packet → ℤ → Option Room → Server → Server
send_room p exclude_fd none s = s
send_room p exclude_fd (some room) s = send_each exclude_fd p (get_client_fds room) s

-- Server::broadcastPacketForRoom
unfoldable pub broadcast_packet_for_room : Packet → Bytes → ℤ → Server → Server
unfolding send_room
broadcast_packet_for_room p code exclude_fd s =
    send_room p exclude_fd (Rooms.get_room code s.room_manager) s

abbrev pub Act : Type 0 → Type 0
Act A = Server → Result A × Server

unfoldable pub pure : {A : Type 0} → A → Act A
pure a s = (ok a, s)

unfoldable pub lift : {A : Type 0} → Result A → Act A
lift r s = (r, s)

unfoldable pub gets : {A : Type 0} → (Server → A) → Act A
gets f s = (ok (f s), s)

unfoldable pub modify : (Server → Server) → Act (Unit {0})
modify f s = (ok tt, f s)

abbrev pub continue : {A B : Type 0} → Result A × Server → (A → Act B) → Result B × Server
continue (ok a, s) f = f a s
continue (throw e, s) f = (throw e, s)

infixl 5 ◌>>=◌ ◌>>◌
-- Opening this opens the four actions above too.
unfoldable pub ◌>>=◌ : {A B : Type 0} → Act A → (A → Act B) → Act B
unfolding pure lift gets modify
◌>>=◌ m f s = continue (m s) f

abbrev pub ◌>>◌ : {B : Type 0} → Act (Unit {0}) → Act B → Act B
m >> k = m >>= λ _. k

-- The calls of the managers.
unfoldable pub get_client : ℕ → Act (Option ClientInfo)
unfolding gets
get_client fd = gets λ s. Clients.get_client fd s.client_manager

unfoldable pub set_room_code : ℕ → Bytes → Act (Unit {0})
unfolding modify
set_room_code fd code =
    modify λ s. record s { client_manager = Clients.set_room_code fd code s.client_manager }

unfoldable pub set_nickname : ℕ → Bytes → Act (Unit {0})
unfolding modify
set_nickname fd nickname =
    modify λ s. record s { client_manager = Clients.set_nickname fd nickname s.client_manager }

unfoldable pub add_room : (ℕ → ℕ) → Bytes → ℤ → Act Bytes
add_room dis name max_users s =
    let (code, m) = Rooms.add_room dis name max_users s.room_manager in
    (ok code, record s { room_manager = m })

unfoldable pub join_room : ℕ → Bytes → Act Bool
join_room fd code s =
    let (joined, m) = Rooms.join_room fd code s.room_manager in
    (ok joined, record s { room_manager = m })

unfoldable pub leave_room : ℕ → Bytes → Act (Unit {0})
unfolding modify
leave_room fd code = modify λ s. record s { room_manager = Rooms.leave_room fd code s.room_manager }
