-- ===== src/Server/Events/Reach.antt =====
-- Every state that the server can reach.
use cpp_socket_chat.Prelude.{
  ℕ, ◌≡◌, ap, subst, ◌++◌, nat_eq, bytes_eq, inl, inr, Bool, true, false, Option, none, some, List,
  [], ◌∷◌, Bytes, arith, Bool-cases, nat_beq, zero, suc, ℤ, pos, negsuc,
}
use cpp_socket_chat.Json.{Json}
use cpp_socket_chat.Map.{lookup, lookup-insert_cases, lookup-adjust_cases}
use cpp_socket_chat.Protocol.{Packet}
use cpp_socket_chat.Server.Parser.{Parsed, Status, waiting, overflow, out_of_fuel, parse_packets}
use cpp_socket_chat.Server.Clients
use cpp_socket_chat.Server.Clients.{ClientInfo, ClientManager}
use cpp_socket_chat.Server.Clients.Names
use cpp_socket_chat.Server.Clients.Names.{Connected, removed-Connected}
use cpp_socket_chat.Server.Room.{Room}
use cpp_socket_chat.Server.State.{Server}
use cpp_socket_chat.Server.State.Invariant.{Inv}
use cpp_socket_chat.Server.Handlers.Dispatch.Invariant.{handle-Inv}
use cpp_socket_chat.Server.Events.{
  System, AcceptResult, RecvResult, accept_new_connection, accept_valid, close_connection,
  queue_parsed, receive_from, receive_and_parse, arrived, handle_event, run_task, start,
}

-- One event of the epoll loop, or one task of a worker. Tasks and events are taken whole: how the
-- threads interleave inside of them is not in this relation.
pub data Step (json : Json) (dis : ℕ → ℕ) (t : System) : System → Type 0 where
  event :
      (fd : ℕ) (conn : AcceptResult) (registered : Bool) (result : RecvResult) {u : System}
      → handle_event fd conn registered result t ≡ some u
      → Step json dis t u
  task : (timestamp : Bytes) → Step json dis t (run_task json dis timestamp t.tasks t)

pub data Reach (json : Json) (dis : ℕ → ℕ) (t : System) : System → Type 0 where
  here : Reach json dis t t
  next : {u v : System} → Reach json dis t u → Step json dis u v → Reach json dis t v

add_client-Inv :
    (fd : ℕ) (ip : Bytes) (s : Server)
    → Inv s
    → Inv (record s { client_manager = Clients.add_client fd ip s.client_manager })
unfolding Clients.add_client
add_client-Inv fd ip s i = record {
  clients = Names.add_client-IsWf fd ip s.client_manager i.clients;
  rooms = i.rooms;
  housed = λ j d h full. elim (lookup-insert_cases fd j _ s.client_manager.clients d h) [
    | inl (same, e) ↦ absurd (cc e)
    | inr (other, before) ↦ i.housed j d before full
  ];
  fits = i.fits;
}

remove_client-Inv :
    (fd : ℕ) (s : Server)
    → Inv s
    → Inv (record s { client_manager = Clients.remove_client fd s.client_manager })
remove_client-Inv fd s i = record {
  clients = Names.remove_client-IsWf fd s.client_manager i.clients;
  rooms = i.rooms;
  housed = λ j d h full. i.housed j d (removed-Connected fd s.client_manager j d h) full;
  fits = i.fits;
}

set_recv_buffer-Inv :
    (fd : ℕ) (buffer : Bytes) (s : Server)
    → Inv s
    → Inv (record s { client_manager = Clients.set_recv_buffer fd buffer s.client_manager })
unfolding Clients.set_recv_buffer
set_recv_buffer-Inv fd buffer s i = record {
  clients = Names.set_recv_buffer-IsWf fd buffer s.client_manager i.clients;
  rooms = i.rooms;
  housed = λ j d h full. elim (lookup-adjust_cases fd j _ s.client_manager.clients d h) [
    | inl (v, same, before, x) ↦
        let kept = ap (λ (y : ClientInfo). y.room_code) x in
        rw kept (i.housed j v before (rw kept at full))
    | inr (other, before) ↦ i.housed j d before full
  ];
  fits = i.fits;
}

accept_valid-Inv :
    (fd : ℤ) (ip : Bytes) (registered : Bool) (t : System)
    → Inv t.server
    → Inv (accept_valid fd ip registered t).server
unfolding accept_valid
accept_valid-Inv (negsuc n) ip registered t i = i
accept_valid-Inv (pos zero) ip registered t i = i
accept_valid-Inv (pos (suc n)) ip false t i = i
accept_valid-Inv (pos (suc n)) ip true t i = add_client-Inv (suc n) ip t.server i

close_connection-Inv : (fd : ℕ) (t : System) → Inv t.server → Inv (close_connection fd t).server
unfolding close_connection
close_connection-Inv fd t i = remove_client-Inv fd t.server i

-- A state, if there is one, that keeps the invariant.
abbrev pub Keeps : Option System → Type 0
Keeps none = Unit
Keeps (some u) = Inv u.server

queue_parsed-Keeps :
    (fd : ℕ) (r : Parsed) (status : Status) (t : System)
    → Inv t.server
    → Keeps (queue_parsed fd r status t)
unfolding queue_parsed
queue_parsed-Keeps fd r waiting t i = set_recv_buffer-Inv fd r.rest t.server i
queue_parsed-Keeps fd r overflow t i = tt
queue_parsed-Keeps fd r out_of_fuel t i = tt

receive_from-Keeps :
    (fd : ℕ) (c : Option ClientInfo) (bytes : Option Bytes) (t : System)
    → Inv t.server
    → Keeps (receive_from fd c bytes t)
unfolding receive_from
receive_from-Keeps fd none bytes t i = close_connection-Inv fd t i
receive_from-Keeps fd (some c) none t i = close_connection-Inv fd t i
receive_from-Keeps fd (some c) (some bs) t i =
    let r = parse_packets (c.recv_buffer ++ bs) in queue_parsed-Keeps fd r r.status t i

pub handle_event-Keeps :
    (fd : ℕ) (conn : AcceptResult) (registered : Bool) (result : RecvResult) (t : System)
    → Inv t.server
    → Keeps (handle_event fd conn registered result t)
unfolding handle_event accept_new_connection receive_and_parse
handle_event-Keeps fd conn registered result t i = elim (Bool-cases (nat_beq fd t.listener_fd)) [
  | inl same ↦ rw same (accept_valid-Inv _ _ registered t i)
  | inr other ↦ rw other (receive_from-Keeps fd _ (arrived result) t i)
]

run_task-Inv :
    (json : Json) (dis : ℕ → ℕ) (timestamp : Bytes) (tasks : List (ℕ × Packet)) (t : System)
    → Inv t.server
    → Inv (run_task json dis timestamp tasks t).server
unfolding run_task
run_task-Inv json dis timestamp [] t i = i
run_task-Inv json dis timestamp ((fd, packet) ∷ rest) t i =
    handle-Inv json dis timestamp fd packet t.server i

Step-Inv :
    {json : Json} {dis : ℕ → ℕ} {t u : System} → Step json dis t u → Inv t.server → Inv u.server
Step-Inv {t} (event fd conn registered result e) i =
    subst Keeps e (handle_event-Keeps fd conn registered result t i)
Step-Inv {json} {dis} {t} (task timestamp) i = run_task-Inv json dis timestamp t.tasks t i

none_there : (j : ℕ) (d : ClientInfo) → ¬ (lookup {V = ClientInfo} j [] ≡ some d)
unfolding lookup
none_there j d h = cc

no_room : (code : Bytes) (r : Room) → ¬ (lookup {V = Room} code [] ≡ some r)
unfolding lookup
no_room code r h = cc

pub start-Inv : (listener_fd : ℕ) → Inv (start listener_fd).server
unfolding start
start-Inv listener_fd = record {
  clients = record {
    keys = tt;
    keyed = λ j d h. absurd (none_there j d h);
    registered = λ j d h. absurd (none_there j d h);
    unique = λ f g c d hc. absurd (none_there f c hc);
  };
  rooms = record {
    keys = tt;
    bounded = omega arith;
    at_key = λ code r h. absurd (no_room code r h);
  };
  housed = λ j d h. absurd (none_there j d h);
  fits = tt;
}

-- A server whose tasks run one at a time, each from its beginning to its end before another task or
-- event: in every state that it reaches, whatever its clients send and however connections, receptions
-- and tasks follow one another, the invariant holds. (Nothing is said of tasks that run at the same time.)
pub Reach-Inv :
    {json : Json} {dis : ℕ → ℕ} (listener_fd : ℕ) {t : System}
    → Reach json dis (start listener_fd) t
    → Inv t.server
Reach-Inv listener_fd here = start-Inv listener_fd
Reach-Inv listener_fd (next r st) = Step-Inv st (Reach-Inv listener_fd r)
