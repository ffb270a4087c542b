-- ===== src/Server/Program/Closes.antt =====
-- The closing of the listener's descriptor.
use cpp_socket_chat.Prelude.{
  ℕ, suc, ◌≤◌, ◌≡◌, Bool, true, false, Option, none, some, List, [], ◌∷◌, nat_beq, arith, ℤ,
  if◌then◌else◌,
}
use cpp_socket_chat.Json.{Json}
use cpp_socket_chat.Members.{member}
use cpp_socket_chat.Server.Listener
use cpp_socket_chat.Server.Epoll
use cpp_socket_chat.Server.Epoll.{Wait}
use cpp_socket_chat.Server.Program.{
  Program, Event, RunResult, fresh_program, listener_failed, epoll_failed, add_failed, loops,
  Kernel, run, listening, polling, watching, destroy,
}
use cpp_socket_chat.Server.Program.Serves.{answers}

-- The program behind `run`, as ~Server finds it.
abbrev pub program_of : RunResult → Program
program_of (listener_failed p) = p
program_of (epoll_failed p) = p
program_of (add_failed p) = p
program_of (loops w p) = p

-- How often a number is in a list.
abbrev pub count : ℕ → List ℕ → ℕ
count n [] = 0
count n (m ∷ ms) = let rest = count n ms in if nat_beq m n then suc rest else rest

module _ (json : Json) (dis : ℕ → ℕ) (waits : List (Wait Event)) (port : ℤ) where
  closes :
      (fd : ℕ) (bound listens : Bool) (flags : Option ℕ) (set : Bool) (epoll_create : Option ℕ)
      (accepts : Bool)
      → 2
        ≤ count fd (
            destroy (
              program_of (
                run json dis waits
                  (answers (some fd) bound listens flags set epoll_create accepts)
                  (fresh_program port))))
  unfolding run listening polling watching destroy Listener.initialize Listener.open_socket
      Listener.make_nonblocking Listener.close Epoll.initialize Epoll.add_fd Epoll.destroy
      Epoll.stop member
  closes fd false listens flags set epoll_create accepts = ground arith
  closes fd true false flags set epoll_create accepts = ground arith
  closes fd true true none set epoll_create accepts = ground arith
  closes fd true true (some flags) false epoll_create accepts = ground arith
  closes fd true true (some flags) true none accepts = ground arith
  closes fd true true (some flags) true (some epoll_fd) false = ground arith
  closes fd true true (some flags) true (some epoll_fd) true = ground arith

  -- When a socket was opened for the listener, the server that is destroyed behind `run` has closed its
  -- descriptor twice or more.
  pub closed_twice :
      (k : Kernel) (fd : ℕ)
      → k.sockets.socket ≡ some fd
      → 2 ≤ count fd (destroy (program_of (run json dis waits k (fresh_program port))))
  closed_twice k fd h = rw h (
      closes fd k.sockets.bound k.sockets.listening k.sockets.flags k.sockets.set k.epoll_create
        k.accepts)
