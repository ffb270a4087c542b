-- ===== src/Server/Program.antt =====
-- The life of the server: Server::Server, run and ~Server (server/src/application/Server.cpp). What the
-- kernel answers is an argument. The event loop runs handleEvent of Server/Events; what a worker of the
-- pool does between two callbacks stands among them.
pub mod Serves
pub mod Closes
use cpp_socket_chat.Prelude.{
  ℕ, ℤ, pos, negsuc, Bool, true, false, not, Option, none, some, List, [], ◌∷◌, ◌++◌, Bytes, bytes,
  bytes_eq, is_empty, if◌then◌else◌,
}
use cpp_socket_chat.Json.{Json}
use cpp_socket_chat.Numerals.{stoi}
use cpp_socket_chat.Map.{Map}
use cpp_socket_chat.Server.Env
use cpp_socket_chat.Server.Listener
use cpp_socket_chat.Server.Listener.{Listener, SocketCalls, new_listener}
use cpp_socket_chat.Server.Epoll
use cpp_socket_chat.Server.Epoll.{EpollManager, new_epoll_manager, Wait, Waiting, wait}
use cpp_socket_chat.Server.Events.{System, AcceptResult, RecvResult, handle_event, run_task, start}

-- The members of Server that its life is about, and the descriptors that were closed.
pub record Program : Type 0 where
  pub listener : Listener
  pub epoll_manager : EpollManager
  pub closes : List ℕ

-- The port of the environment, if it has one; `none` where stoi throws, and main ends.
unfoldable pub port_of : Bytes → Option ℤ
port_of text = if not (is_empty text) then stoi text else some (pos 8877)

-- A server with a port, before it runs.
abbrev pub fresh_program : ℤ → Program
fresh_program port = record {
  listener = new_listener port;
  epoll_manager = new_epoll_manager;
  closes = [];
}

-- Server::Server
unfoldable pub construct : Map Bytes Bytes → Option Program
unfolding port_of
construct env = elim (port_of (Env.get (bytes "SERVER_PORT") env)) [
  | none ↦ none
  | some port ↦
      some (record { listener = new_listener port; epoll_manager = new_epoll_manager; closes = [] })
]

-- A callback of the event loop with what accept, addFd and recv return in it, or a task of a worker.
pub data Event : Type 0 where
  ready : ℕ → AcceptResult → Bool → RecvResult → Event
  task : Bytes → Event

unfoldable pub on_event : Json → (ℕ → ℕ) → Event → System → Option System
on_event json dis (ready fd conn registered result) t = handle_event fd conn registered result t
on_event json dis (task timestamp) t = some (run_task json dis timestamp t.tasks t)

-- How Server::run goes: an early return, or the event loop, which it joins.
pub data RunResult : Type 0 where
  listener_failed epoll_failed add_failed : Program → RunResult
  loops : Waiting System → Program → RunResult

-- What the kernel answers to the calls of Server::run.
pub record Kernel : Type 0 where
  pub sockets : SocketCalls
  pub epoll_create : Option ℕ
  pub accepts : Bool

module _ (json : Json) (dis : ℕ → ℕ) (waits : List (Wait Event)) where
  -- Server::run, behind addFd
  watching : ℕ → Listener → List ℕ → Bool × EpollManager → RunResult
  watching fd l closes (false, m) =
      add_failed (record { listener = l; epoll_manager = m; closes = closes })
  watching fd l closes (true, m) =
      loops (wait (on_event json dis) waits m.is_running (start fd))
        (record { listener = l; epoll_manager = m; closes = closes })

  -- Server::run, behind EpollManager::initialize
  polling : Bool → ℤ → Listener → List ℕ → Bool × EpollManager → RunResult
  unfolding watching
  polling accepts fd l closes (false, m) =
      epoll_failed (record { listener = l; epoll_manager = m; closes = closes })
  polling accepts (pos fd) l closes (true, m) = watching fd l closes (Epoll.add_fd accepts fd m)
  polling accepts (negsuc n) l closes (true, m) =
      add_failed (record { listener = l; epoll_manager = m; closes = closes })

  -- Server::run, behind Listener::initialize
  listening : Kernel → EpollManager → Bool × (Listener × List ℕ) → RunResult
  unfolding polling
  listening k m (false, (l, closes)) =
      listener_failed (record { listener = l; epoll_manager = m; closes = closes })
  listening k m (true, (l, closes)) =
      polling k.accepts l.socket_fd l closes (Epoll.initialize k.epoll_create m)

  -- Server::run
  unfoldable pub run : Kernel → Program → RunResult
  unfolding listening
  run k p = listening k p.epoll_manager (Listener.initialize k.sockets p.listener p.closes)

-- Server::~Server, when the thread pool's destructor returns: its body, then the members, the last one
-- first.
unfoldable pub destroy : Program → List ℕ
destroy p =
    Listener.close p.listener
      (Epoll.destroy (Epoll.stop p.epoll_manager) (Listener.close p.listener p.closes))
