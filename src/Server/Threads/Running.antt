-- ===== src/Server/Threads/Running.antt =====
-- The running server: the event loop and the worker threads take their steps in any order. A task
-- that is in the queue begins when a worker takes it; how many workers there are is not limited
-- here. Where a thread writes to a client that the event loop has removed, the source's behaviour is
-- undefined, and the write has no effect here.
use cpp_socket_chat.Prelude.{
  ℕ, Bool, some, List, [], ◌∷◌, ◌++◌, Bytes, ◌≡◌, arith, bytes_eq, sym, subst,
}
use cpp_socket_chat.Json.{Json}
use cpp_socket_chat.Map.{lookup}
use cpp_socket_chat.Protocol.{Packet}
use cpp_socket_chat.Server.Room.{Room}
use cpp_socket_chat.Server.Rooms
use cpp_socket_chat.Server.State.Invariant.{AllFit}
use cpp_socket_chat.Server.Events.Untouched.{handle_event-Untouched}
use cpp_socket_chat.Server.Events.{System, AcceptResult, RecvResult, handle_event, start}
use cpp_socket_chat.Server.State.{Server}
use cpp_socket_chat.Server.Threads
use cpp_socket_chat.Server.Threads.{Task}
use cpp_socket_chat.Server.Threads.Handlers.{task_of}
use cpp_socket_chat.Server.Threads.Safe.{IsKept, IsSafe, AllSafe, turn-IsKept}
use cpp_socket_chat.Server.Threads.Safe.Handled.{task_of-IsSafe}

-- The server with what its worker threads have still to do.
pub record Running : Type 0 where
  pub system : System
  pub threads : List Task

-- A worker has taken the task from the head of the queue.
abbrev pub begun : Task → List (ℕ × Packet) → Running → Running
begun task rest r = record {
  system = record r.system { tasks = rest };
  threads = r.threads ++ task ∷ [];
}

-- The i-th thread has made a step.
abbrev pub after_turn : List Task × Server → Running → Running
after_turn (threads, server) r = record {
  system = record r.system { server = server };
  threads = threads;
}

module _ (json : Json) (dis : ℕ → ℕ) where
  pub data Move (r : Running) : Running → Type 0 where
    event :
        (fd : ℕ) (conn : AcceptResult) (registered : Bool) (result : RecvResult) {u : System}
        → handle_event fd conn registered result r.system ≡ some u
        → Move r (record r { system = u })
    begin :
        (timestamp : Bytes) (fd : ℕ) (packet : Packet) (rest : List (ℕ × Packet))
        → r.system.tasks ≡ (fd, packet) ∷ rest
        → Move r (begun (task_of json packet.type dis timestamp fd packet) rest r)
    turn : (i : ℕ) → Move r (after_turn (Threads.turn i r.threads r.system.server) r)

  pub data Moves (r : Running) : Running → Type 0 where
    here : Moves r r
    next : {u v : Running} → Moves r u → Move u v → Moves r v

AllSafe-push : (ts : List Task) (t : Task) → AllSafe ts → IsSafe t → AllSafe (ts ++ t ∷ [])
AllSafe-push [] t all safe = (safe, tt)
AllSafe-push (u ∷ ts) t all safe = (all.0, AllSafe-push ts t all.1 safe)

module _ {json : Json} {dis : ℕ → ℕ} where
  Move-IsKept :
      {r u : Running}
      → Move json dis r u
      → AllSafe r.threads × IsKept r.system.server
      → AllSafe u.threads × IsKept u.system.server
  Move-IsKept {r} (event fd conn registered result e) h =
      let (rooms, sent) = handle_event-Untouched fd conn registered result r.system e in
      (h.0, (subst Rooms.Invariant.IsWf (sym rooms) h.1.0, subst AllFit (sym sent) h.1.1))
  Move-IsKept {r} (begin timestamp fd packet rest e) h =
      (AllSafe-push r.threads _ h.0 (task_of-IsSafe json packet.type dis timestamp fd packet), h.1)
  Move-IsKept {r} (turn i) h = turn-IsKept i r.threads r.system.server h.0 h.1

  Moves-IsKept :
      {r u : Running}
      → Moves json dis r u
      → AllSafe r.threads × IsKept r.system.server
      → AllSafe u.threads × IsKept u.system.server
  Moves-IsKept here h = h
  Moves-IsKept (next before m) h = Move-IsKept m (Moves-IsKept before h)

no_room : (code : Bytes) (r : Room) → ¬ (lookup {V = Room} code [] ≡ some r)
unfolding lookup
no_room code r h = cc

-- A server that has just begun.
abbrev pub started : ℕ → Running
started listener_fd = record { system = start listener_fd; threads = [] }

start-IsKept : (listener_fd : ℕ) → IsKept (start listener_fd).server
unfolding start
start-IsKept listener_fd = (
  record { keys = tt; bounded = omega arith; at_key = λ code r h. absurd (no_room code r h) },
  tt,
)

-- In every state of the running server, in whatever order the event loop and the worker threads take
-- their steps, the rooms are as they should be: each under its code, none with a member twice, a hundred
-- at most. Every packet that was sent to a client has a payload of at most 1,024 bytes, as many as its
-- header says, and a type that has a number.
pub running-IsKept :
    {json : Json} {dis : ℕ → ℕ} (listener_fd : ℕ) {r : Running}
    → Moves json dis (started listener_fd) r
    → IsKept r.system.server
running-IsKept listener_fd m = (Moves-IsKept m (tt, start-IsKept listener_fd)).1
