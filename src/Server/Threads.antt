-- ===== src/Server/Threads.antt =====
-- The handlers as the worker threads run them (server/src/domain/handler): a call of a manager, which
-- takes its lock, or of PacketSender is one step, and other threads may take theirs between two of
-- them. The fields of a client are read in the step of getClient.
pub mod Alone
pub mod Handlers
pub mod Safe
pub mod Joined
pub mod Named
pub mod Running
pub mod Serial
use cpp_socket_chat.Prelude.{
  ℕ, zero, suc, ℤ, pos, Bool, true, false, not, Option, none, some, List, [], ◌∷◌, Bytes, bytes,
  is_empty, ltb, length, fd_eq, if◌then◌else◌,
}
use cpp_socket_chat.Json.{Json, JsonError, Result, ok, throw}
use cpp_socket_chat.Protocol.{
  PacketType, Packet, nickname_request, message_send, create_room, exit_room, join_room,
  nickname_response_ok, nickname_response_fail, room_create_ok, room_create_fail, room_exit_ok,
  room_exit_fail, room_join_ok, room_join_fail, room_user_join, room_user_exit, message_chat,
  max_payload_size, reply, clipped_reply, empty_reply, payload_text,
}
use cpp_socket_chat.Server.Clients
use cpp_socket_chat.Server.Clients.{ClientInfo}
use cpp_socket_chat.Server.Room.{Room, get_client_fds}
use cpp_socket_chat.Server.Rooms
use cpp_socket_chat.Server.State.{Server, send_packet}
use cpp_socket_chat.Server.Handlers.{
  json_failure, std_failure, has_field, string_field, int_field, room_code_json, user_json,
}
use cpp_socket_chat.Server.Handlers.Message.{chat_json}

-- What a thread has still to do: a step, by what it makes of the server and how the thread goes on when
-- it has seen the server before the step.
pub data Task : Type 0 where
  finished : Task
  call : (Server → Server) → (Server → Task) → Task

-- A turn of the i-th thread.
unfoldable pub turn : ℕ → List Task → Server → List Task × Server
turn i [] s = ([], s)
turn zero (finished ∷ ts) s = (finished ∷ ts, s)
turn zero (call f next ∷ ts) s = (next s ∷ ts, f s)
turn (suc i) (t ∷ ts) s = let rest = turn i ts s in (t ∷ rest.0, rest.1)

-- The threads take their turns in this order.
unfoldable pub interleave : List ℕ → List Task → Server → List Task × Server
unfolding turn
interleave [] ts s = (ts, s)
interleave (i ∷ is) ts s = let after = turn i ts s in interleave is after.0 after.1

-- A part of a handler: what is done behind it, with its result or an exception.
abbrev pub Part : Type 0 → Type 0
Part A = (A → Task) → (JsonError → Task) → Task

unfoldable pub pure : {A : Type 0} → A → Part A
pure a next caught = next a

unfoldable pub lift : {A : Type 0} → Result A → Part A
lift (ok a) next caught = next a
lift (throw e) next caught = caught e

unfoldable pub reads : {A : Type 0} → (Server → A) → Part A
reads f next caught = call (λ s. s) λ s. next (f s)

unfoldable pub writes : (Server → Server) → Part (Unit {0})
writes f next caught = call f λ s. next tt

infixl 5 ◌>>=◌ ◌>>◌
-- Opening this opens the four parts above too.
unfoldable pub ◌>>=◌ : {A B : Type 0} → Part A → (A → Part B) → Part B
unfolding pure lift reads writes
◌>>=◌ p f next caught = p (λ a. f a next caught) caught

abbrev pub ◌>>◌ : {B : Type 0} → Part (Unit {0}) → Part B → Part B
p >> q = p >>= λ _. q

-- The calls of the managers and of the sender.
unfoldable pub get_client : ℕ → Part (Option ClientInfo)
unfolding reads
get_client fd = reads λ s. Clients.get_client fd s.client_manager

unfoldable pub set_room_code : ℕ → Bytes → Part (Unit {0})
unfolding writes
set_room_code fd code =
    writes λ s. record s { client_manager = Clients.set_room_code fd code s.client_manager }

unfoldable pub set_nickname : ℕ → Bytes → Part (Unit {0})
unfolding writes
set_nickname fd nickname =
    writes λ s. record s { client_manager = Clients.set_nickname fd nickname s.client_manager }

unfoldable pub add_room : (ℕ → ℕ) → Bytes → ℤ → Part Bytes
add_room dis name max_users next caught =
    call (λ s. record s { room_manager = (Rooms.add_room dis name max_users s.room_manager).1 })
      λ s. next (Rooms.add_room dis name max_users s.room_manager).0

unfoldable pub enter_room : ℕ → Bytes → Part Bool
enter_room fd code next caught =
    call (λ s. record s { room_manager = (Rooms.join_room fd code s.room_manager).1 })
      λ s. next (Rooms.join_room fd code s.room_manager).0

unfoldable pub leave_room : ℕ → Bytes → Part (Unit {0})
unfolding writes
leave_room fd code = writes λ s. record s { room_manager = Rooms.leave_room fd code s.room_manager }

unfoldable pub send : ℕ → Packet → Part (Unit {0})
unfolding writes
send fd p = writes (send_packet fd p)

-- The loop of Server::broadcastPacketForRoom
unfoldable pub send_each : ℤ → Packet → List ℕ → Part (Unit {0})
unfolding send
send_each exclude_fd p [] next caught = next tt
send_each exclude_fd p (fd ∷ fds) next caught =
    let rest = send_each exclude_fd p fds next caught in
    if fd_eq fd exclude_fd then rest else send fd p (λ u. rest) caught

-- The members of a room, if there is one.
abbrev pub fds_of : Option Room → List ℕ
fds_of none = []
fds_of (some room) = get_client_fds room

-- Behind getRoom: room->getClientFds(), and then a step for each member. A room that another thread has
-- erased in between has no members here; its use is undefined behaviour in the source.
unfoldable pub to_members : Packet → Bytes → ℤ → Option Room → Part (Unit {0})
unfolding send_each
to_members p code exclude_fd none = pure tt
to_members p code exclude_fd (some room) =
    reads (λ s. fds_of (Rooms.get_room code s.room_manager)) >>= send_each exclude_fd p

-- Server::broadcastPacketForRoom
unfoldable pub broadcast_packet_for_room : Packet → Bytes → ℤ → Part (Unit {0})
unfolding to_members
broadcast_packet_for_room p code exclude_fd =
    reads (λ s. Rooms.get_room code s.room_manager) >>= to_members p code exclude_fd

unfoldable pub refuse : ℕ → PacketType → Bytes → Part (Option Packet)
unfolding ◌>>=◌ send
refuse fd t reason = do send fd (reply t reason); pure none

unfoldable pub conclude_with : ℕ → Option Packet → Task
unfolding send
conclude_with fd none = finished
conclude_with fd (some p) = send fd p (λ u. finished) λ e. finished

-- What follows a `try` block.
unfoldable pub conclude : ℕ → (JsonError → Packet) → Part (Option Packet) → Task
unfolding conclude_with send
conclude fd handler p = p (conclude_with fd) λ e. send fd (handler e) (λ u. finished) λ x. finished
