-- ===== src/Server/Events.antt =====
-- The event loop's side of the server: ConnectionManager (server/src/network/ConnectionManager.cpp),
-- PacketReceiver (server/src/network/PacketReceiver.cpp), Listener::acceptConnection and
-- Server::handleEvent (server/src/application/Server.cpp). What the kernel answers is an argument. The
-- tasks are the queue of the thread pool, oldest first. `none` is undefined behaviour: a packet that
-- was copied past the end of its buffer.
pub mod Reach
pub mod Closed
pub mod Untouched
use cpp_socket_chat.Prelude.{
  ℕ, zero, suc, ℤ, pos, negsuc, Bool, true, false, Option, none, some, List, [], ◌∷◌, ◌++◌, map,
  Bytes, nat_beq, nat_eq, if◌then◌else◌,
}
use cpp_socket_chat.Json.{Json}
use cpp_socket_chat.Members.{add, remove}
use cpp_socket_chat.Protocol.{Packet}
use cpp_socket_chat.Server.Parser.{Parsed, Status, waiting, overflow, out_of_fuel, parse_packets}
use cpp_socket_chat.Server.Clients
use cpp_socket_chat.Server.Clients.{ClientInfo, ClientManager}
use cpp_socket_chat.Server.State.{Server}
use cpp_socket_chat.Server.Handlers.Dispatch.{handle}

-- A task is the client and the packet that its closure captured.
pub record System : Type 0 where
  pub server : Server
  pub tasks : List (ℕ × Packet)
  pub watched : List ℕ
  pub listener_fd : ℕ

-- ConnectionInfo; the port is only logged.
pub record ConnectionInfo : Type 0 where
  pub fd : ℤ
  pub ip : Bytes

-- What ::accept returns: a descriptor and the peer's address, or an error.
pub data AcceptResult : Type 0 where
  accepted : ℕ → Bytes → AcceptResult
  refused : AcceptResult

-- Listener::acceptConnection
unfoldable pub accept_connection : AcceptResult → ConnectionInfo
accept_connection (accepted fd ip) = record { fd = pos fd; ip = ip }
accept_connection refused = record { fd = negsuc 0; ip = [] }

abbrev pub with_clients : (ClientManager → ClientManager) → System → System
with_clients f t = record t {
  server = record t.server { client_manager = f t.server.client_manager };
}

-- ConnectionInfo::isValid, and the rest of acceptNewConnection; `registered` is the result of addFd.
accept_valid : ℤ → Bytes → Bool → System → System
accept_valid (negsuc n) ip registered t = t
accept_valid (pos zero) ip registered t = t
accept_valid (pos (suc n)) ip false t = t
accept_valid (pos (suc n)) ip true t =
    with_clients (Clients.add_client (suc n) ip) (record t { watched = add (suc n) t.watched })

-- ConnectionManager::acceptNewConnection
unfoldable pub accept_new_connection : AcceptResult → Bool → System → System
unfolding accept_valid accept_connection
accept_new_connection result registered t =
    let conn_info = accept_connection result in accept_valid conn_info.fd conn_info.ip registered t

-- ConnectionManager::closeConnection
unfoldable pub close_connection : ℕ → System → System
close_connection fd t =
    with_clients (Clients.remove_client fd) (record t { watched = remove fd t.watched })

-- What ::recv returns: some bytes (4,096 at most in the source, any number here), or 0 at the end of
-- the stream, or an error.
pub data RecvResult : Type 0 where
  received : ℕ → Bytes → RecvResult
  ended failed : RecvResult

-- The bytes of a reception that is positive.
abbrev pub arrived : RecvResult → Option Bytes
arrived (received b bs) = some (b ∷ bs)
arrived ended = none
arrived failed = none

-- Behind a reception: the parser's packets become tasks, and the buffer keeps the rest.
queue_parsed : ℕ → Parsed → Status → System → Option System
queue_parsed fd r waiting t = some (
    with_clients (Clients.set_recv_buffer fd r.rest)
      (record t { tasks = t.tasks ++ map (λ p. (fd, p)) r.packets }))
queue_parsed fd r overflow t = none
queue_parsed fd r out_of_fuel t = none

-- receiveAndParse, from the results of getClient and ::recv; then closeConnection where it failed.
receive_from : ℕ → Option ClientInfo → Option Bytes → System → Option System
unfolding queue_parsed
receive_from fd none bytes t = some (close_connection fd t)
receive_from fd (some c) none t = some (close_connection fd t)
receive_from fd (some c) (some bs) t =
    let r = parse_packets (c.recv_buffer ++ bs) in queue_parsed fd r r.status t

-- The client's branch of handleEvent.
unfoldable pub receive_and_parse : ℕ → RecvResult → System → Option System
unfolding receive_from
receive_and_parse fd result t =
    receive_from fd (Clients.get_client fd t.server.client_manager) (arrived result) t

-- Server::handleEvent
unfoldable pub handle_event : ℕ → AcceptResult → Bool → RecvResult → System → Option System
handle_event fd conn registered result t =
    if nat_beq fd t.listener_fd
    then some (accept_new_connection conn registered t)
    else receive_and_parse fd result t

-- One round of ThreadPool::worker_thread that finds a task: PacketHandler::handle runs on it.
unfoldable pub run_task : Json → (ℕ → ℕ) → Bytes → List (ℕ × Packet) → System → System
run_task json dis timestamp [] t = t
run_task json dis timestamp ((fd, packet) ∷ rest) t = record t {
  server = handle json dis timestamp fd packet t.server;
  tasks = rest;
}

-- Server::Server and run: nobody is connected, and the listener is watched.
unfoldable pub start : ℕ → System
start listener_fd = record {
  server = record {
    client_manager = record { clients = []; nicknames = [] };
    room_manager = record { rooms = []; drawn = 0 };
    outbox = [];
  };
  tasks = [];
  watched = listener_fd ∷ [];
  listener_fd = listener_fd;
}
